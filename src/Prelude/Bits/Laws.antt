-- ===== src/Prelude/Bits/Laws.antt =====
-- The laws of `&` and `|`, from those of `min` and `max` on each digit.
use Prim.Native.Nat.{ℕ, ◌≤◌, ◌<◌, ◌/◌, bit_and, bit_or, zero, suc}
use mathlib.Core.Path.{◌≡◌, refl}
use mathlib.Core.Logic.{◌⊎◌, inl, inr}
use openrisc_tools.Prelude.Bits.Step.{bit_and_step}
use native.Mathlib.Omega.{arith}
use openrisc_tools.Prelude.Bits.Digit.{digit-bit_and, digit-bit_or, digit_ext, digit-zero}

pub bit_and_comm : (a b : ℕ) → bit_and a b ≡ bit_and b a
bit_and_comm a b = digit_ext _ _ (λ k. omega (arith, digit-bit_and a b k, digit-bit_and b a k))

pub bit_and_assoc : (a b c : ℕ) → bit_and (bit_and a b) c ≡ bit_and a (bit_and b c)
bit_and_assoc a b c = digit_ext _ _ (λ k. simp digit-bit_and (omega arith))

pub bit_or_comm : (a b : ℕ) → bit_or a b ≡ bit_or b a
bit_or_comm a b = digit_ext _ _ (λ k. omega (arith, digit-bit_or a b k, digit-bit_or b a k))

pub bit_or_assoc : (a b c : ℕ) → bit_or (bit_or a b) c ≡ bit_or a (bit_or b c)
bit_or_assoc a b c = digit_ext _ _ (λ k. simp digit-bit_or (omega arith))

pub bit_and-bit_or : (a b c : ℕ) → bit_and (bit_or a b) c ≡ bit_or (bit_and a c) (bit_and b c)
bit_and-bit_or a b c = digit_ext _ _ (λ k. simp (digit-bit_and, digit-bit_or) (omega arith))

pub bit_and-zero : (a : ℕ) → bit_and a 0 ≡ 0
bit_and-zero a = digit_ext _ _ (λ k. omega (arith, digit-bit_and a 0 k, digit-zero k))

pub bit_or-zero : (a : ℕ) → bit_or a 0 ≡ a
bit_or-zero a = digit_ext _ _ (λ k. omega (arith, digit-bit_or a 0 k, digit-zero k))

pub zero-bit_or : (a : ℕ) → bit_or 0 a ≡ a
zero-bit_or a = digit_ext _ _ (λ k. omega (arith, digit-bit_or 0 a k, digit-zero k))

pub bit_and_self : (a : ℕ) → bit_and a a ≡ a
bit_and_self a = digit_ext _ _ (λ k. omega (arith, digit-bit_and a a k))

pub bit_or_self : (a : ℕ) → bit_or a a ≡ a
bit_or_self a = digit_ext _ _ (λ k. omega (arith, digit-bit_or a a k))

pub bit_or_absorb : (a b : ℕ) → bit_or a (bit_and a b) ≡ a
bit_or_absorb a b = digit_ext _ _ (λ k. simp (digit-bit_and, digit-bit_or) (omega arith))

pub bit_and-bit_or_absorb : (a b : ℕ) → bit_or (bit_and a b) b ≡ b
bit_and-bit_or_absorb a b = digit_ext _ _ (λ k. simp (digit-bit_and, digit-bit_or) (omega arith))

pub ruleset mask_laws = (
  bit_and_assoc, bit_or_assoc, bit_and-bit_or, bit_and-zero, bit_or-zero, zero-bit_or,
  bit_and-bit_or_absorb,
)

Nat-cases : (n : ℕ) → (n ≡ 0) ⊎ (0 < n)
Nat-cases zero = inl refl
Nat-cases (suc n) = inr (omega arith)

bit_and-le_fuel : (n a b : ℕ) → b ≤ n → bit_and a b ≤ b
bit_and-le_fuel zero a b h =
    let nothing : b ≡ 0 = omega arith in rw (nothing, bit_and-zero) (omega arith)
bit_and-le_fuel (suc n) a b h = elim (Nat-cases b) [
  | inl nothing ↦ rw (nothing, bit_and-zero) (omega arith)
  | inr more ↦ omega (arith, bit_and_step a b, bit_and-le_fuel n (a / 2) (b / 2) (omega arith))
]

-- A masked word is at most the mask.
pub bit_and-le : (a b : ℕ) → bit_and a b ≤ b
bit_and-le a b = bit_and-le_fuel b a b (omega arith)
