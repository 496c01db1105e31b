-- ===== src/Common/Buckets.antt =====
-- The array of chains of a hash table: a list of lists, with no chain when the pointer is NULL.
use Prim.Native.Nat.{ℕ, zero, suc, ◌<◌}
use mathlib.Core.Bool.{Bool, true, false}
use mathlib.Core.List.{List, [], ◌∷◌}
use mathlib.Core.Path.{◌≡◌, refl, ap}
use native.Mathlib.Omega.{arith}
use ap_policy.Common.Lists.{length}
use ap_policy.Common.Tests.{◌==◌, if◌then◌else◌}

module _ {ℓ} {A : Type ℓ} where
  -- the chain at an index, and the table with another chain there
  unfoldable pub chain_at : ℕ → List (List A) → List A
  chain_at i [] = []
  chain_at zero (c ∷ cs) = c
  chain_at (suc i) (c ∷ cs) = chain_at i cs

  unfoldable pub put_chain : ℕ → List A → List (List A) → List (List A)
  put_chain i made [] = []
  put_chain zero made (c ∷ cs) = made ∷ cs
  put_chain (suc i) made (c ∷ cs) = c ∷ put_chain i made cs

  abbrev pub is_null : List (List A) → Bool
  is_null [] = true
  is_null (c ∷ cs) = false

  -- `calloc`
  unfoldable pub empty_chains : ℕ → List (List A)
  empty_chains zero = []
  empty_chains (suc n) = [] ∷ empty_chains n

  pub chain_at-put_chain :
      (i j : ℕ) (made : List A) (cs : List (List A))
      → i < length cs
      → chain_at j (put_chain i made cs) ≡ (if j == i then made else chain_at j cs)
  unfolding chain_at put_chain
  chain_at-put_chain i j made [] h = absurd (omega arith)
  chain_at-put_chain zero zero made (c ∷ cs) h = refl
  chain_at-put_chain zero (suc j) made (c ∷ cs) h = ground arith
  chain_at-put_chain (suc i) zero made (c ∷ cs) h = ground arith
  chain_at-put_chain (suc i) (suc j) made (c ∷ cs) h =
      ground (arith, chain_at-put_chain i j made cs (omega arith))

  pub put_chain-chain_at : (i : ℕ) (cs : List (List A)) → put_chain i (chain_at i cs) cs ≡ cs
  unfolding chain_at put_chain
  put_chain-chain_at i [] = refl
  put_chain-chain_at zero (c ∷ cs) = refl
  put_chain-chain_at (suc i) (c ∷ cs) = ap (λ rest. c ∷ rest) (put_chain-chain_at i cs)

  pub length-put_chain :
      (i : ℕ) (made : List A) (cs : List (List A)) → length (put_chain i made cs) ≡ length cs
  unfolding put_chain
  length-put_chain i made [] = refl
  length-put_chain zero made (c ∷ cs) = refl
  length-put_chain (suc i) made (c ∷ cs) = omega (arith, length-put_chain i made cs)

  pub not_null : (cs : List (List A)) (i : ℕ) → i < length cs → is_null cs ≡ false
  not_null [] i h = absurd (omega arith)
  not_null (c ∷ cs) i h = refl

pub length-empty_chains {ℓ} : (A : Type ℓ) (n : ℕ) → length (empty_chains {A = A} n) ≡ n
unfolding empty_chains
length-empty_chains A zero = refl
length-empty_chains A (suc n) = omega (arith, length-empty_chains A n)

pub chain_at-empty_chains {ℓ} : (A : Type ℓ) (n i : ℕ) → chain_at i (empty_chains {A = A} n) ≡ []
unfolding empty_chains chain_at
chain_at-empty_chains A zero i = refl
chain_at-empty_chains A (suc n) zero = refl
chain_at-empty_chains A (suc n) (suc i) = chain_at-empty_chains A n i
