-- ===== src/Ebitmap/Maps.antt =====
-- One node's map under the operations: the tests that the loops make, bit by bit.
use ap_policy.Common.{
  ℕ, ◌≡◌, refl, false, arith, ltb, ◌<◌, ◌-◌, ◌^◌, true, not, ◌&&◌, ◌||◌, xor, bit_and, bit_or,
  bit_xor,
}
use ap_policy.Common.Bits.{test_bit-zero, test_bit, test_bit-and, test_bit-or, test_bit-xor}
use ap_policy.Common.Bits.Masks.{test_bit-complement, test_bit-low, mask-test_bit}
use ap_policy.Ebitmap.{map_mod, mapsize, has_bit}

pub has_bit-test_bit : (m k : ℕ) → has_bit m k ≡ test_bit m k
has_bit-test_bit m k = ground (arith, mask-test_bit m k)

module _ (a b k : ℕ) where
  pub has_bit-or : has_bit (bit_or a b) k ≡ (has_bit a k || has_bit b k)
  has_bit-or =
      rw (has_bit-test_bit (bit_or a b) k, has_bit-test_bit a k, has_bit-test_bit b k)
        (test_bit-or a b k)

  pub has_bit-and : has_bit (bit_and a b) k ≡ (has_bit a k && has_bit b k)
  has_bit-and =
      rw (has_bit-test_bit (bit_and a b) k, has_bit-test_bit a k, has_bit-test_bit b k)
        (test_bit-and a b k)

  pub has_bit-xor : has_bit (bit_xor a b) k ≡ xor (has_bit a k) (has_bit b k)
  has_bit-xor =
      rw (has_bit-test_bit (bit_xor a b) k, has_bit-test_bit a k, has_bit-test_bit b k)
        (test_bit-xor a b k)

pub has_bit-zero : (k : ℕ) → has_bit 0 k ≡ false
has_bit-zero k = ground (arith, test_bit-zero k, has_bit-test_bit 0 k)

pub has_bit-complement :
    (m k : ℕ) → m < map_mod → k < mapsize → has_bit (map_mod - 1 - m) k ≡ not (has_bit m k)
has_bit-complement m k h lt =
    rw (has_bit-test_bit (map_mod - 1 - m) k, has_bit-test_bit m k)
      (test_bit-complement mapsize m k h lt)

-- a mask of the bits below `n`
pub has_bit-low : (m n k : ℕ) → has_bit (bit_and m (2 ^ n - 1)) k ≡ (has_bit m k && ltb k n)
has_bit-low m n k =
    rw (has_bit-and m (2 ^ n - 1) k, has_bit-test_bit (2 ^ n - 1) k, test_bit-low n k) refl

pub has_bit-ones : (k : ℕ) → k < mapsize → has_bit (map_mod - 1) k ≡ true
has_bit-ones k h = ground (arith, has_bit-complement 0 k (omega arith) h, has_bit-zero k)
