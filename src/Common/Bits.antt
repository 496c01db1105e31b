-- ===== src/Common/Bits.antt =====
-- The bits of a number, and what the native bit operations do to each.
mod Step
pub mod Masks
pub use Step.{bit_and_step, bit_and-zero}
use Step.{bit_or_step, bit_xor_step, zero-bit_and, zero-bit_or, zero-bit_xor}
use Prim.Native.Nat.{ℕ, zero, suc, ◌+◌, ◌-◌, ◌*◌, ◌/◌, ◌%◌, ◌^◌, ◌≤◌, ◌<◌, bit_and, bit_or, bit_xor}
use mathlib.Core.Bool.{Bool, true, false, ◌&&◌, ◌||◌, not, xor}
use mathlib.Core.Path.{◌≡◌, refl}
use native.Mathlib.Nat.{pow-suc}
use native.Mathlib.Omega.{arith}
use ap_policy.Common.Tests.{ltb, leb, ◌==◌, if◌then◌else◌}

-- bit `k` of `a`
unfoldable pub test_bit : ℕ → ℕ → Bool
test_bit a zero = a % 2 == 1
test_bit a (suc k) = test_bit (a / 2) k

pub test_bit-zero : (k : ℕ) → test_bit 0 k ≡ false
unfolding test_bit
test_bit-zero zero = refl
test_bit-zero (suc k) = test_bit-zero k

half_and : (a b : ℕ) → bit_and a b / 2 ≡ bit_and (a / 2) (b / 2)
half_and a b = omega (arith, bit_and_step a b)

half_or : (a b : ℕ) → bit_or a b / 2 ≡ bit_or (a / 2) (b / 2)
half_or a b = omega (arith, bit_or_step a b)

half_xor : (a b : ℕ) → bit_xor a b / 2 ≡ bit_xor (a / 2) (b / 2)
half_xor a b = omega (arith, bit_xor_step a b)

pub test_bit-and : (a b k : ℕ) → test_bit (bit_and a b) k ≡ (test_bit a k && test_bit b k)
unfolding test_bit
test_bit-and a b zero = ground (arith, bit_and_step a b)
test_bit-and a b (suc k) = rw (half_and a b) (test_bit-and (a / 2) (b / 2) k)

pub test_bit-or : (a b k : ℕ) → test_bit (bit_or a b) k ≡ (test_bit a k || test_bit b k)
unfolding test_bit
test_bit-or a b zero = ground (arith, bit_or_step a b)
test_bit-or a b (suc k) = rw (half_or a b) (test_bit-or (a / 2) (b / 2) k)

pub test_bit-xor : (a b k : ℕ) → test_bit (bit_xor a b) k ≡ xor (test_bit a k) (test_bit b k)
unfolding test_bit xor
test_bit-xor a b zero = ground (arith, bit_xor_step a b)
test_bit-xor a b (suc k) = rw (half_xor a b) (test_bit-xor (a / 2) (b / 2) k)

-- a bit at or past the width is clear
pub test_bit_past : (w a k : ℕ) → a < 2 ^ w → w ≤ k → test_bit a k ≡ false
unfolding test_bit
test_bit_past zero a k h le = let z : a ≡ 0 = omega arith in rw z (test_bit-zero k)
test_bit_past (suc w) a zero h le = absurd (omega arith)
test_bit_past (suc w) a (suc k) h le =
    test_bit_past w (a / 2) k (omega (arith, pow-suc 2 w)) (omega arith)

-- two numbers of `w` bits that agree at each are equal
pub eq_of_test_bit :
    (w a b : ℕ) → a < 2 ^ w → b < 2 ^ w → ((k : ℕ) → k < w → test_bit a k ≡ test_bit b k) → a ≡ b
unfolding test_bit
eq_of_test_bit zero a b p q same = omega arith
eq_of_test_bit (suc w) a b p q same =
    let halves : a / 2 ≡ b / 2 =
      eq_of_test_bit w (a / 2) (b / 2) (omega (arith, pow-suc 2 w)) (omega (arith, pow-suc 2 w))
        (λ k h. same (suc k) (omega arith)) in
    let low : a % 2 ≡ b % 2 = ground (arith, same 0 (omega arith)) in omega arith

pub bit_and-lt : (w a b : ℕ) → a < 2 ^ w → bit_and a b < 2 ^ w
bit_and-lt zero a b h = let e : a ≡ 0 = omega arith in rw e (rw zero-bit_and (omega arith))
bit_and-lt (suc w) a b h = omega (
  arith,
  pow-suc 2 w,
  bit_and_step a b,
  bit_and-lt w (a / 2) (b / 2) (omega (arith, pow-suc 2 w)),
)

pub bit_or-lt : (w a b : ℕ) → a < 2 ^ w → b < 2 ^ w → bit_or a b < 2 ^ w
bit_or-lt zero a b p q = let e : a ≡ 0 = omega arith in rw e (rw zero-bit_or q)
bit_or-lt (suc w) a b p q = omega (
  arith,
  pow-suc 2 w,
  bit_or_step a b,
  bit_or-lt w (a / 2) (b / 2) (omega (arith, pow-suc 2 w)) (omega (arith, pow-suc 2 w)),
)

pub bit_xor-lt : (w a b : ℕ) → a < 2 ^ w → b < 2 ^ w → bit_xor a b < 2 ^ w
bit_xor-lt zero a b p q = let e : a ≡ 0 = omega arith in rw e (rw zero-bit_xor q)
bit_xor-lt (suc w) a b p q = omega (
  arith,
  pow-suc 2 w,
  bit_xor_step a b,
  bit_xor-lt w (a / 2) (b / 2) (omega (arith, pow-suc 2 w)) (omega (arith, pow-suc 2 w)),
)

pub le-bit_or : (w a b : ℕ) → a < 2 ^ w → a ≤ bit_or a b
le-bit_or zero a b h = omega arith
le-bit_or (suc w) a b h =
    omega (arith, bit_or_step a b, le-bit_or w (a / 2) (b / 2) (omega (arith, pow-suc 2 w)))

bit_and-le_below : (n a b : ℕ) → b ≤ n → bit_and a b ≤ b
bit_and-le_below zero a b h = let e : b ≡ 0 = omega arith in rw e (omega (arith, bit_and-zero a))
bit_and-le_below (suc n) a zero h = omega (arith, bit_and-zero a)
bit_and-le_below (suc n) a (suc b) h =
    omega (arith, bit_and_step a (suc b), bit_and-le_below n (a / 2) (suc b / 2) (omega arith))

pub bit_and-le : (a b : ℕ) → bit_and a b ≤ b
bit_and-le a b = bit_and-le_below b a b (omega arith)
