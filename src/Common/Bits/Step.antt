-- ===== src/Common/Bits/Step.antt =====
-- One equation for the lowest digit of each native bit operation, which stands for a recursion on
-- binary digits with fuel.
use Prim.Native.Nat.{ℕ, zero, suc, ◌+◌, ◌*◌, ◌/◌, ◌%◌, ◌≤◌, ◌<◌, min, max, bit_and, bit_or, bit_xor}
use Prim.Native.Nat.{digits, bitwise, differ, bit_and-bitwise, bit_or-bitwise, bit_xor-bitwise}
use mathlib.Core.Path.{◌≡◌, refl}
use native.Mathlib.Omega.{arith}

module _ (base : ℕ → ℕ) (op : ℕ → ℕ → ℕ) where
  -- any fuel from the first operand up gives the same digits
  digits_enough : (f g m k : ℕ) → m ≤ f → m ≤ g → digits base op f m k ≡ digits base op g m k
  digits_enough zero zero m k p q = refl
  digits_enough zero (suc g) zero k p q = refl
  digits_enough (suc f) zero zero k p q = refl
  digits_enough (suc f) (suc g) zero k p q = refl
  digits_enough zero g (suc m) k p q = absurd (omega arith)
  digits_enough (suc f) zero (suc m) k p q = absurd (omega arith)
  digits_enough (suc f) (suc g) (suc m) k p q =
      rw (digits_enough f g (suc m / 2) (k / 2) (omega arith) (omega arith))

  bitwise_step :
      (m k : ℕ)
      → bitwise base op (suc m) k ≡ bitwise base op (suc m / 2) (k / 2) * 2 + op (suc m % 2) (k % 2)
  bitwise_step m k =
      rw (digits_enough m (suc m / 2) (suc m / 2) (k / 2) (omega arith) (omega arith))

-- the exclusive or of two digits
differ-lt : (x y : ℕ) → x < 2 → y < 2 → (differ x y ≡ (x + y) % 2) × (differ x y < 2)
differ-lt zero y p q = omega arith
differ-lt (suc zero) zero p q = omega arith
differ-lt (suc zero) (suc zero) p q = omega arith
differ-lt (suc zero) (suc (suc y)) p q = absurd (omega arith)
differ-lt (suc (suc x)) y p q = absurd (omega arith)

pub bit_and_step : (m k : ℕ) → bit_and m k ≡ bit_and (m / 2) (k / 2) * 2 + min (m % 2) (k % 2)
bit_and_step zero k = simp bit_and-bitwise (omega arith)
bit_and_step (suc m) k = simp bit_and-bitwise (bitwise_step (λ low. 0) min m k)

pub bit_or_step : (m k : ℕ) → bit_or m k ≡ bit_or (m / 2) (k / 2) * 2 + max (m % 2) (k % 2)
bit_or_step zero k = simp bit_or-bitwise (omega arith)
bit_or_step (suc m) k = simp bit_or-bitwise (bitwise_step (λ d. d) max m k)

pub bit_xor_step : (m k : ℕ) → bit_xor m k ≡ bit_xor (m / 2) (k / 2) * 2 + (m + k) % 2
bit_xor_step zero k = simp bit_xor-bitwise (omega arith)
bit_xor_step (suc m) k =
    let digit = differ-lt (suc m % 2) (k % 2) (omega arith) (omega arith) in
    simp bit_xor-bitwise (omega (arith, bitwise_step (λ d. d) differ m k, digit.0))

pub zero-bit_and : (k : ℕ) → bit_and 0 k ≡ 0
zero-bit_and k = bit_and-bitwise 0 k

pub zero-bit_or : (k : ℕ) → bit_or 0 k ≡ k
zero-bit_or k = bit_or-bitwise 0 k

pub zero-bit_xor : (k : ℕ) → bit_xor 0 k ≡ k
zero-bit_xor k = bit_xor-bitwise 0 k

bit_and-zero_below : (n m : ℕ) → m ≤ n → bit_and m 0 ≡ 0
bit_and-zero_below zero m h = let e : m ≡ 0 = omega arith in rw e (zero-bit_and 0)
bit_and-zero_below (suc n) zero h = zero-bit_and 0
bit_and-zero_below (suc n) (suc m) h =
    omega (arith, bit_and_step (suc m) 0, bit_and-zero_below n (suc m / 2) (omega arith))

pub bit_and-zero : (m : ℕ) → bit_and m 0 ≡ 0
bit_and-zero m = bit_and-zero_below m m (omega arith)
