-- ===== src/Prelude/Bits/Digit.antt =====
-- A number by its binary digits: two numbers with the same digits are equal.
use Prim.Native.Nat.{ℕ, zero, suc, ◌+◌, ◌/◌, ◌%◌, ◌≤◌, min, max, bit_and, bit_or}
use mathlib.Core.Path.{◌≡◌, refl, ap, ◌∙◌}
use native.Mathlib.Omega.{arith}
use openrisc_tools.Prelude.Bits.Step.{bit_and_step, bit_or_step}

unfoldable pub digit : ℕ → ℕ → ℕ
digit a zero = a % 2
digit a (suc k) = digit (a / 2) k

pub digit-bit_and : (a b k : ℕ) → digit (bit_and a b) k ≡ min (digit a k) (digit b k)
unfolding digit
digit-bit_and a b zero = omega (arith, bit_and_step a b)
digit-bit_and a b (suc k) = ap (λ x. digit x k) (half-and a b) ∙ digit-bit_and (a / 2) (b / 2) k
  where
    half-and : (a b : ℕ) → bit_and a b / 2 ≡ bit_and (a / 2) (b / 2)
    half-and a b = omega (arith, bit_and_step a b)

pub digit-bit_or : (a b k : ℕ) → digit (bit_or a b) k ≡ max (digit a k) (digit b k)
unfolding digit
digit-bit_or a b zero = omega (arith, bit_or_step a b)
digit-bit_or a b (suc k) = ap (λ x. digit x k) (half-or a b) ∙ digit-bit_or (a / 2) (b / 2) k
  where
    half-or : (a b : ℕ) → bit_or a b / 2 ≡ bit_or (a / 2) (b / 2)
    half-or a b = omega (arith, bit_or_step a b)

pub digit-le : (a k : ℕ) → digit a k ≤ 1
unfolding digit
digit-le a zero = omega arith
digit-le a (suc k) = digit-le (a / 2) k

digit_ext_fuel : (n a b : ℕ) → a ≤ n → b ≤ n → ((k : ℕ) → digit a k ≡ digit b k) → a ≡ b
unfolding digit
digit_ext_fuel zero a b p q h = omega arith
digit_ext_fuel (suc n) a b p q h =
    omega
      (arith, h 0, digit_ext_fuel n (a / 2) (b / 2) (omega arith) (omega arith) (λ k. h (suc k)))

pub digit_ext : (a b : ℕ) → ((k : ℕ) → digit a k ≡ digit b k) → a ≡ b
digit_ext a b h = digit_ext_fuel (a + b) a b (omega arith) (omega arith) h

pub digit-zero : (k : ℕ) → digit 0 k ≡ 0
unfolding digit
digit-zero zero = refl
digit-zero (suc k) = digit-zero k
