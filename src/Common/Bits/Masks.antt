-- ===== src/Common/Bits/Masks.antt =====
-- Single bits, low masks, complements and shifts, as the C code builds them.
use Prim.Native.Nat.{ℕ, zero, suc, ◌+◌, ◌≤◌, ◌-◌, ◌*◌, ◌/◌, ◌%◌, ◌^◌, ◌<◌, bit_and}
use mathlib.Core.Bool.{Bool, true, false, ◌&&◌, not}
use mathlib.Core.Path.{◌≡◌, refl, ap, ◌∙◌}
use mathlib.Core.Logic.{◌⊎◌, inl, inr}
use native.Mathlib.Nat.{pow-suc, one-le-pow, pow-le-pow_right, mod-eq_of_lt}
use native.Mathlib.Omega.{arith}
use ap_policy.Common.Tests.{ltb, ◌==◌, ==_iff, if◌then◌else◌}
use ap_policy.Common.Bits.{test_bit, test_bit-zero, bit_and_step, bit_and-zero}

pub test_bit-pow : (n k : ℕ) → test_bit (2 ^ n) k ≡ k == n
unfolding test_bit
test_bit-pow zero zero = refl
test_bit-pow zero (suc k) = ground (arith, test_bit-zero k)
test_bit-pow (suc n) zero = ground (arith, pow-suc 2 n)
test_bit-pow (suc n) (suc k) =
    let half : 2 ^ suc n / 2 ≡ 2 ^ n = omega (arith, pow-suc 2 n) in
    rw half (ground (arith, test_bit-pow n k))

-- the number with the bits below `n` set
pub test_bit-low : (n k : ℕ) → test_bit (2 ^ n - 1) k ≡ ltb k n
unfolding test_bit
test_bit-low zero k = ground (arith, test_bit-zero k)
test_bit-low (suc n) zero = ground (arith, pow-suc 2 n, one-le-pow n 2)
test_bit-low (suc n) (suc k) =
    let half : (2 ^ suc n - 1) / 2 ≡ 2 ^ n - 1 = omega (arith, pow-suc 2 n, one-le-pow n 2) in
    rw half (ground (arith, test_bit-low n k))

-- complement at `w` bits
pub test_bit-complement :
    (w a k : ℕ) → a < 2 ^ w → k < w → test_bit (2 ^ w - 1 - a) k ≡ not (test_bit a k)
unfolding test_bit
test_bit-complement zero a k h lt = absurd (omega arith)
test_bit-complement (suc w) a zero h lt = ground (arith, pow-suc 2 w)
test_bit-complement (suc w) a (suc k) h lt =
    let half : (2 ^ suc w - 1 - a) / 2 ≡ 2 ^ w - 1 - a / 2 = omega (arith, pow-suc 2 w) in
    rw half (test_bit-complement w (a / 2) k (omega (arith, pow-suc 2 w)) (omega arith))

-- a number with no bit set is zero
pub eq-zero_of_bits : (w a : ℕ) → a < 2 ^ w → ((k : ℕ) → k < w → test_bit a k ≡ false) → a ≡ 0
unfolding test_bit
eq-zero_of_bits zero a h clear = omega arith
eq-zero_of_bits (suc w) a h clear =
    let half =
      eq-zero_of_bits w (a / 2) (omega (arith, pow-suc 2 w)) (λ k p. clear (suc k) (omega arith)) in
    ground (arith, clear 0 (omega arith))

-- a number of `w` bits is zero, or has one
pub set_bit_of_pos : (w a : ℕ) → 0 < a → a < 2 ^ w → (k : ℕ) × (k < w) × (test_bit a k ≡ true)
unfolding test_bit
set_bit_of_pos zero a pos h = absurd (omega arith)
set_bit_of_pos (suc w) a pos h = elim (odd_or_half a pos) [
  | inl odd ↦ (0, omega arith, ground arith)
  | inr half ↦
      let (k, lt, set) = set_bit_of_pos w (a / 2) half (omega (arith, pow-suc 2 w)) in
      (suc k, omega arith, set)
]
  where
    odd_or_half : (n : ℕ) → 0 < n → (n % 2 ≡ 1) ⊎ (0 < n / 2)
    odd_or_half n p = ground arith

-- `a & (1 << k)` is the test that the source writes for a bit
pub mask-test_bit : (a k : ℕ) → not (bit_and a (2 ^ k) == 0) ≡ test_bit a k
unfolding test_bit
mask-test_bit a zero = ground (arith, bit_and_step a 1, bit_and-zero (a / 2))
mask-test_bit a (suc k) =
    let half : 2 ^ suc k / 2 ≡ 2 ^ k = omega (arith, pow-suc 2 k) in
    let low : 2 ^ suc k % 2 ≡ 0 = omega (arith, pow-suc 2 k) in
    let twice : bit_and a (2 ^ suc k) ≡ bit_and (a / 2) (2 ^ k) * 2 =
      rw half at (rw low at (bit_and_step a (2 ^ suc k))) ∙ omega arith in
    ground (arith, mask-test_bit (a / 2) k)

pub test_bit-shift_left :
    (n a k : ℕ) → test_bit (a * 2 ^ n) k ≡ (if ltb k n then false else test_bit a (k - n))
unfolding test_bit
test_bit-shift_left zero a k =
    let a' : a * 2 ^ 0 ≡ a = omega arith in
    let k' : k - 0 ≡ k = omega arith in rw (a', k') (ground arith)
test_bit-shift_left (suc n) a zero = ground (arith, ap (λ (t : ℕ). a * t) (pow-suc 2 n))
test_bit-shift_left (suc n) a (suc k) =
    let half : a * 2 ^ suc n / 2 ≡ a * 2 ^ n = omega (arith, ap (λ (t : ℕ). a * t) (pow-suc 2 n)) in
    let same : suc k - suc n ≡ k - n = omega arith in
    rw (half, same) (ground (arith, test_bit-shift_left n a k))

-- `p` holds of every number below `n`
all_below : (ℕ → Bool) → ℕ → Bool
all_below p zero = true
all_below p (suc k) = all_below p k && p k

all_below_sound : (p : ℕ → Bool) (i n : ℕ) → i < n → all_below p n ≡ true → p i ≡ true
unfolding all_below
all_below_sound p i zero lt whole = absurd (omega arith)
all_below_sound p i (suc k) lt whole = ground (arith, all_below_sound p i k)

ones_left_table : all_below (λ s. (2 ^ 64 - 1) * 2 ^ s % 2 ^ 64 == 2 ^ 64 - 2 ^ s) 64 ≡ true
unfolding all_below
ones_left_table = refl

ones_right_table : all_below (λ s. (2 ^ 64 - 1) / 2 ^ s == 2 ^ (64 - s) - 1) 64 ≡ true
unfolding all_below
ones_right_table = refl

-- `~0 << s` at 64 bits
pub ones_left : (s : ℕ) → s < 64 → (2 ^ 64 - 1) * 2 ^ s % 2 ^ 64 ≡ 2 ^ 64 - 1 - (2 ^ s - 1)
ones_left s h =
    let table = all_below_sound _ s 64 h ones_left_table in
    ground (arith, ==_iff ((2 ^ 64 - 1) * 2 ^ s % 2 ^ 64) (2 ^ 64 - 2 ^ s), one-le-pow s 2)

-- `~0 >> s` at 64 bits
pub ones_right : (s : ℕ) → s < 64 → (2 ^ 64 - 1) / 2 ^ s ≡ 2 ^ (64 - s) - 1
ones_right s h = (==_iff _ _).0 (all_below_sound _ s 64 h ones_right_table)

pow_table : all_below (λ s. ltb (2 ^ s) (2 ^ 64)) 64 ≡ true
unfolding all_below
pow_table = refl

-- a single bit fits 64 bits
pub pow-lt : (s : ℕ) → s < 64 → 2 ^ s < 2 ^ 64
pow-lt s h = let table = all_below_sound _ s 64 h pow_table in ground arith

-- shifting `c` bits by `s` stays within `w` bits
pow-mul-le : (c s w : ℕ) → c + s ≤ w → 2 ^ c * 2 ^ s ≤ 2 ^ w
pow-mul-le c zero w h =
    let grow = pow-le-pow_right {n = 2} (omega arith) {i = c} {j = w} (omega arith) in
    let one : 2 ^ c * 2 ^ 0 ≡ 2 ^ c = omega arith in rw one grow
pow-mul-le c (suc s) w h = omega (
  arith,
  pow-mul-le (suc c) s w (omega arith),
  pow-suc 2 c,
  ap (λ (t : ℕ). t * 2 ^ s) (pow-suc 2 c),
  ap (λ (t : ℕ). 2 ^ c * t) (pow-suc 2 s),
)

-- the `c` low bits moved up by `s`, at `w` bits
pub test_bit-field :
    (c s w k : ℕ)
    → c + s ≤ w
    → test_bit ((2 ^ c - 1) * 2 ^ s % 2 ^ w) k ≡ (if ltb k s then false else ltb (k - s) c)
test_bit-field c s w k h =
    let split : 2 ^ c ≡ (2 ^ c - 1) + 1 = omega (arith, one-le-pow c 2) in
    let small : (2 ^ c - 1) * 2 ^ s < 2 ^ w =
      omega (arith, pow-mul-le c s w h, one-le-pow s 2, ap (λ (t : ℕ). t * 2 ^ s) split) in
    let whole = mod-eq_of_lt small in
    rw whole (rw (test_bit-shift_left s (2 ^ c - 1) k) (ground (arith, test_bit-low c (k - s))))

-- the mask of the low six bits is the remainder
pub bit_and-low : (a : ℕ) → bit_and a 63 ≡ a % 64
bit_and-low a = omega (
  arith,
  bit_and_step a 63,
  bit_and_step (a / 2) 31,
  bit_and_step (a / 2 / 2) 15,
  bit_and_step (a / 2 / 2 / 2) 7,
  bit_and_step (a / 2 / 2 / 2 / 2) 3,
  bit_and_step (a / 2 / 2 / 2 / 2 / 2) 1,
  bit_and-zero (a / 2 / 2 / 2 / 2 / 2 / 2),
)
