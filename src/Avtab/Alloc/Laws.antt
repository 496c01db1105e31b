-- ===== src/Avtab/Alloc/Laws.antt =====
-- `avtab_alloc` makes a valid table.
use ap_policy.Common.Buckets.{length-empty_chains, chain_at-empty_chains, chain_at}
use ap_policy.Common.{
  ℕ, zero, suc, ◌+◌, ◌/◌, ◌%◌, ◌^◌, ◌≤◌, ◌<◌, ◌≡◌, ◌≢◌, false, [], arith, ◌==◌, Bool-cases, inl,
  inr,
}
use native.Mathlib.Nat.{one-le-pow, pow-le-pow_right}
use ap_policy.Avtab.{AvtabNode, Avtab, u32_mod}
use ap_policy.Avtab.Table.{IsValid}
use ap_policy.Avtab.Alloc.{max_buckets, count_shift, less_two, at_most_max, slots, alloc}

count_shift-le : (rounds work shift : ℕ) → count_shift rounds work shift ≤ rounds + shift
unfolding count_shift
count_shift-le zero work shift = omega arith
count_shift-le (suc rounds) work shift = elim (Bool-cases (work == 0)) [
  | inl done ↦ rw (done, count_shift) (omega arith)
  | inr more ↦ rw (more, count_shift) (omega (arith, count_shift-le rounds (work / 2) (shift + 1)))
]

-- a power of two of at most 30 fits a uint32_t
small_pow : (s : ℕ) → s ≤ 30 → (2 ^ s % u32_mod ≡ 2 ^ s) × (1 ≤ 2 ^ s)
small_pow s h =
    let top : 2 ^ s ≤ 2 ^ 30 = pow-le-pow_right {n = 2} (omega arith) {i = s} {j = 30} h in
    (omega arith, one-le-pow s 2 (omega arith))

less_two-le : (shift : ℕ) → shift ≤ 32 → less_two shift ≤ 30
unfolding less_two
less_two-le shift h = ground arith

at_most_max-bounds : (n : ℕ) → 1 ≤ n → (0 < at_most_max n) × (at_most_max n ≤ max_buckets)
unfolding at_most_max
at_most_max-bounds n h = (ground arith, ground arith)

slots-bounds : (nrules : ℕ) → (0 < slots nrules) × (slots nrules ≤ max_buckets)
unfolding slots
slots-bounds nrules =
    let shift = less_two (count_shift 32 nrules 0) in
    let p = small_pow shift (less_two-le _ (count_shift-le 32 nrules 0)) in
    at_most_max-bounds (2 ^ shift % u32_mod) (rw p.0 p.1)

-- For at least one rule, `avtab_alloc` makes a valid table of empty chains, with no more than
-- MAX_AVTAB_HASH_BUCKETS slots.
pub alloc-IsValid :
    (h : Avtab) (nrules : ℕ)
    → nrules ≢ 0
    → IsValid (alloc h nrules)
      × ((alloc h nrules).nslot ≤ max_buckets)
      × ((i : ℕ) → chain_at i (alloc h nrules).htable ≡ [])
unfolding alloc
alloc-IsValid h nrules some_rules =
    let b = slots-bounds nrules in
    let not_zero : (nrules == 0) ≡ false = ground arith in
    let none_left = chain_at-empty_chains AvtabNode (slots nrules) in
    rw not_zero (
      record {
        room = omega (arith, length-empty_chains AvtabNode (slots nrules), b.0);
        sorted = λ i. rw (none_left i) tt;
      },
      b.1,
      none_left,
    )
