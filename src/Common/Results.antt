-- ===== src/Common/Results.antt =====
-- The error numbers that the C functions return (`failure` is -1), and results that carry one.
use mathlib.Core.Path.{◌≡◌, refl}

pub data Errno : Type 0 where
  einval eoverflow enomem eexist enoent eacces failure : Errno

pub data Result {κ} (A : Type κ) : Type κ where
  err : Errno → Result A
  ok : A → Result A

infixl 1 ◌>>=◌
-- the first error ends a chain of calls
abbrev pub ◌>>=◌ {κ ℓ} :
    {Value : Type κ} {Next : Type ℓ} → Result Value → (Value → Result Next) → Result Next
err code >>= rest = err code
ok value >>= rest = rest value

-- The call succeeds, with a value that satisfies `P`.
abbrev pub Returns {ℓ κ} : {A : Type ℓ} → (A → Type κ) → Result A → Type (ℓ ⊔ κ)
Returns {A} P r = (a : A) × (r ≡ ok a) × P a

pub ok-injective {ℓ} : {A : Type ℓ} {a b : A} → ok a ≡ ok b → a ≡ b
ok-injective h = cc

-- a chain that succeeds has a first step that does
pub >>=-eq-ok {ℓ κ} :
    {A : Type ℓ} {B : Type κ} (first : Result A) (rest : A → Result B) {b : B}
    → (first >>= rest) ≡ ok b
    → (a : A) × (first ≡ ok a) × (rest a ≡ ok b)
>>=-eq-ok (err code) rest h = cc
>>=-eq-ok (ok a) rest h = (a, refl, h)
