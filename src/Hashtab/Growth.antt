-- ===== src/Hashtab/Growth.antt =====
-- The doubling of the number of slots in `hashtab_check_resize`: it ends within 32 rounds.
use ap_policy.Common.{
  ℕ, zero, suc, ◌+◌, ◌-◌, ◌*◌, ◌/◌, ◌%◌, ◌^◌, ◌<◌, ◌≡◌, refl, ap, true, false, ◌&&◌, not, arith,
  leb, ◌==◌, ==_iff, Bool-cases, ◌⊎◌, inl, inr,
}
use native.Mathlib.Numerals.{unary_clauses}
use ap_policy.Hashtab.{u32_mod, grow_size}

-- the doubling ends within 32 rounds, when the slots are more than the entries or cannot be doubled
pub record Grown (size new_size nel : ℕ) : Type 0 where
  pub pos : 0 < size → 0 < new_size
  pub ends : (nel < new_size) ⊎ (new_size * 2 % u32_mod ≡ 0)

-- multiplying by two 32 times leaves a multiple of 2 ^ 32
grow_step : (x p c : ℕ) → x * (p * 2) ≡ u32_mod * c → (d : ℕ) × (x * 2 % u32_mod * p ≡ u32_mod * d)
grow_step x p c h =
    let q = x * 2 / u32_mod in
    let r = x * 2 % u32_mod in
    let e : x * 2 ≡ u32_mod * q + r = omega arith in
    let f : x * 2 * p ≡ (u32_mod * q + r) * p = ap (λ y. y * p) e in
    (c - q * p, omega (arith, f, h))

-- the test of the loop: it goes on, and then the doubled size is not 0, or it ends
data Round (new_size nel : ℕ) : Type 0 where
  goes_on :
      (leb new_size nel && not (new_size * 2 % u32_mod == 0)) ≡ true
      → 0 < new_size * 2 % u32_mod
      → Round new_size nel
  ends_here :
      (leb new_size nel && not (new_size * 2 % u32_mod == 0)) ≡ false
      → (nel < new_size) ⊎ (new_size * 2 % u32_mod ≡ 0)
      → Round new_size nel

round : (new_size nel : ℕ) → Round new_size nel
round new_size nel = elim (Bool-cases (leb new_size nel)) [
  | inl small ↦ elim (Bool-cases (new_size * 2 % u32_mod == 0)) [
    | inl none_left ↦ ends_here (rw (small, none_left) refl) (inr ((==_iff _ _).0 none_left))
    | inr left ↦ goes_on (rw (small, left) refl) (ground (arith, left))
  ]
  | inr large ↦ ends_here (rw large refl) (inl (ground (arith, large)))
]

grow_size-Grown :
    (rounds new_size nel c : ℕ)
    → new_size * 2 ^ rounds ≡ u32_mod * c
    → Grown new_size (grow_size rounds new_size nel) nel
unfolding grow_size
grow_size-Grown zero new_size nel c h = record { pos = λ p. p; ends = inr (omega (arith, h)) }
grow_size-Grown (suc rounds) new_size nel c h = elim (round new_size nel) [
  | ends_here run e ↦ rw (grow_size, run) (record { pos = λ p. p; ends = e })
  | goes_on run p ↦
      let doubled : new_size * (2 ^ rounds * 2) ≡ u32_mod * c = simp unary_clauses at h in
      let (d, e) = grow_step new_size (2 ^ rounds) c doubled in
      let g = grow_size-Grown rounds (new_size * 2 % u32_mod) nel d e in
      rw (grow_size, run) (record { pos = λ q. g.pos p; ends = g.ends })
]

-- From any number of slots, 32 rounds of the doubling end with slots that are more than the entries or that
-- cannot be doubled without wrapping to 0; and from a positive number the slots stay positive.
pub grow_size_ends : (size nel : ℕ) → Grown size (grow_size 32 size nel) nel
grow_size_ends size nel = grow_size-Grown 32 size nel size (omega arith)
