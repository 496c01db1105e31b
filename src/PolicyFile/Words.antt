-- ===== src/PolicyFile/Words.antt =====
-- Words and entries written and read back.
use ap_policy.Common.{
  ℕ, zero, suc, ◌+◌, ◌-◌, ◌*◌, ◌/◌, ◌^◌, ◌<◌, ◌≡◌, refl, ap, sym, ◌⊎◌, inl, inr, Bool-cases, List,
  [], ◌∷◌, ◌++◌, arith, length, ltb, leb, false,
}
use ap_policy.Common.Results.{ok, ok-injective}
use native.Mathlib.Nat.{pow-suc}
use ap_policy.PolicyFile.{
  le_bytes, le_word, taken, behind, Kind, use_memory, use_len, Source, Taken, next_entry, Target,
  put_entry,
}

pub le_word-le_bytes : (n word : ℕ) → word < 256 ^ n → le_word (le_bytes n word) ≡ word
unfolding le_word le_bytes
le_word-le_bytes zero word h = omega arith
le_word-le_bytes (suc n) word h =
    let small : word / 256 < 256 ^ n = omega (arith, pow-suc 256 n) in
    omega (arith, le_word-le_bytes n (word / 256) small)

pub length-le_bytes : (n word : ℕ) → length (le_bytes n word) ≡ n
unfolding le_bytes
length-le_bytes zero word = refl
length-le_bytes (suc n) word = omega (arith, length-le_bytes n (word / 256))

pub le_word-lt : (n : ℕ) (mem : List ℕ) → le_word (taken n mem) < 256 ^ n
unfolding le_word taken
le_word-lt zero mem = omega arith
le_word-lt (suc n) [] = omega (arith, pow-suc 256 n, le_word-lt n [])
le_word-lt (suc n) (byte ∷ mem) = omega (arith, pow-suc 256 n, le_word-lt n mem)

pub taken-append : (n : ℕ) (xs ys : List ℕ) → length xs ≡ n → taken n (xs ++ ys) ≡ xs
unfolding taken
taken-append zero [] ys h = refl
taken-append zero (x ∷ xs) ys h = absurd (omega arith)
taken-append (suc n) [] ys h = absurd (omega arith)
taken-append (suc n) (x ∷ xs) ys h = ap (λ r. x ∷ r) (taken-append n xs ys (omega arith))

pub behind-append : (n : ℕ) (xs ys : List ℕ) → length xs ≡ n → behind n (xs ++ ys) ≡ ys
unfolding behind
behind-append zero [] ys h = refl
behind-append zero (x ∷ xs) ys h = absurd (omega arith)
behind-append (suc n) [] ys h = absurd (omega arith)
behind-append (suc n) (x ∷ xs) ys h = behind-append n xs ys (omega arith)

abbrev pub memory : List ℕ → ℕ → Source
memory mem len = record { kind = use_memory; mem = mem; len = len }

-- the entry at the position of a file in memory
pub next_entry-append :
    (n len : ℕ) (xs ys : List ℕ)
    → length xs ≡ n
    → next_entry (memory (xs ++ ys) (n + len)) n ≡ ok (record { buf = xs; fp = memory ys len })
unfolding next_entry
next_entry-append n len xs ys h =
    let enough : ltb (n + len) n ≡ false = ground arith in
    let left : n + len - n ≡ len = omega arith in
    rw (next_entry, enough, taken-append n xs ys h, behind-append n xs ys h, left) refl

kind_cases : (k : Kind) → (k ≡ use_memory) ⊎ (k ≡ use_len)
kind_cases use_memory = inl refl
kind_cases use_len = inr refl

-- an entry that is read is what the memory holds
pub next_entry-taken :
    (fp : Source) (n : ℕ) (t : Taken) → next_entry fp n ≡ ok t → t.buf ≡ taken n fp.mem
unfolding next_entry
next_entry-taken fp n t h = elim (kind_cases fp.kind) [
  | inr other ↦ let bad = rw (other, next_entry) at h in cc
  | inl memory_kind ↦ elim (Bool-cases (ltb fp.len n)) [
    | inl short ↦ let bad = rw (memory_kind, short, next_entry) at h in cc
    | inr enough ↦ sym (ap (λ x. x.buf) (ok-injective (rw (memory_kind, enough, next_entry) at h)))
  ]
]

-- an entry of a few bytes is a word of that width
pub word_fits : (fp : Source) (n : ℕ) (t : Taken) → next_entry fp n ≡ ok t → le_word t.buf < 256 ^ n
word_fits fp n t h = rw (next_entry-taken fp n t h) (le_word-lt n fp.mem)

abbrev pub target : List ℕ → ℕ → Target
target out len = record { kind = use_memory; out = out; len = len }

-- an entry put in memory that has room for it
put_entry-memory :
    (ptr out : List ℕ) (size n room : ℕ)
    → size * n < 2 ^ 64
    → put_entry ptr size n (target out (size * n + room))
      ≡ record { items = n; fp = target (out ++ ptr) room }
unfolding put_entry
put_entry-memory ptr out size n room h =
    let small : leb (2 ^ 64) (size * n) ≡ false = ground (arith, h) in
    let enough : ltb (size * n + room) (size * n) ≡ false = ground arith in
    let left : size * n + room - size * n ≡ room = omega arith in
    rw (put_entry, small, enough, left) refl

pub append_assoc : {A : Type 0} (xs ys zs : List A) → (xs ++ ys) ++ zs ≡ xs ++ (ys ++ zs)
append_assoc [] ys zs = refl
append_assoc (x ∷ xs) ys zs = ap (λ r. x ∷ r) (append_assoc xs ys zs)

pub append_nil : {A : Type 0} (xs : List A) → xs ≡ xs ++ []
append_nil [] = refl
append_nil (x ∷ xs) = ap (λ r. x ∷ r) (append_nil xs)

pub put_there :
    (ptr out : List ℕ) (size n len room : ℕ)
    → size * n < 2 ^ 64
    → len ≡ size * n + room
    → put_entry ptr size n (target out len) ≡ record { items = n; fp = target (out ++ ptr) room }
put_there ptr out size n len room h e = rw e (put_entry-memory ptr out size n room h)
