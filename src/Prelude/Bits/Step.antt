-- ===== src/Prelude/Bits/Step.antt =====
-- The native operations by their lowest digit. The libraries define them by a recursion that is
-- bounded by its first operand; a larger bound changes nothing.
use Prim.Native.Nat.{
  ℕ, zero, suc, ◌+◌, ◌*◌, ◌/◌, ◌%◌, ◌≤◌, ◌<◌, ◌-◌, min, max, bit_and, bit_or, bit_xor,
}
use Prim.Native.Nat.{digits, bitwise, bit_and-bitwise, bit_or-bitwise, bit_xor-bitwise, differ}
use mathlib.Core.Path.{◌≡◌, refl, ◌∙◌}
use mathlib.Core.Logic.{◌⊎◌, inl, inr}
use native.Mathlib.Omega.{arith}

module _ (rest : ℕ → ℕ) (op : ℕ → ℕ → ℕ) where
  -- Two bounds that are large enough give one result.
  digits-bound :
      (x y bound other : ℕ)
      → x ≤ bound
      → x ≤ other
      → digits rest op bound x y ≡ digits rest op other x y
  digits-bound x y zero zero h k = refl
  digits-bound zero y zero (suc other) h k = refl
  digits-bound zero y (suc bound) zero h k = refl
  digits-bound zero y (suc bound) (suc other) h k = refl
  digits-bound (suc x) y zero other h k = absurd (omega arith)
  digits-bound (suc x) y (suc bound) zero h k = absurd (omega arith)
  digits-bound (suc x) y (suc bound) (suc other) h k =
      rw (digits-bound (suc x / 2) (y / 2) bound other (omega arith) (omega arith))

  bitwise_step :
      (x y : ℕ)
      → bitwise rest op (suc x) y ≡ bitwise rest op (suc x / 2) (y / 2) * 2 + op (suc x % 2) (y % 2)
  bitwise_step x y =
      omega (arith, digits-bound (suc x / 2) (y / 2) x (suc x / 2) (omega arith) (omega arith))

pub bit_and_step : (x y : ℕ) → bit_and x y ≡ bit_and (x / 2) (y / 2) * 2 + min (x % 2) (y % 2)
bit_and_step zero y = simp bit_and-bitwise (omega arith)
bit_and_step (suc x) y = simp bit_and-bitwise (bitwise_step (λ z. 0) min x y)

pub bit_or_step : (x y : ℕ) → bit_or x y ≡ bit_or (x / 2) (y / 2) * 2 + max (x % 2) (y % 2)
bit_or_step zero y = simp bit_or-bitwise (omega arith)
bit_or_step (suc x) y = simp bit_or-bitwise (bitwise_step (λ z. z) max x y)

pub bit_xor_step : (x y : ℕ) → bit_xor x y ≡ bit_xor (x / 2) (y / 2) * 2 + differ (x % 2) (y % 2)
bit_xor_step zero y = simp bit_xor-bitwise (omega arith)
bit_xor_step (suc x) y = simp bit_xor-bitwise (bitwise_step (λ z. z) differ x y)

differ-zero : (a : ℕ) → differ a 0 ≡ a
differ-zero zero = refl
differ-zero (suc a) = refl

-- A digit is turned around.
pub differ-one : (a : ℕ) → a ≤ 1 → differ a 1 ≡ 1 - a
differ-one zero h = omega arith
differ-one (suc a) h = differ-zero a ∙ omega (arith, h)

bit_xor-zero_fuel : (n a : ℕ) → a ≤ n → bit_xor a 0 ≡ a
bit_xor-zero_fuel zero a h =
    let nothing : a ≡ 0 = omega arith in rw nothing (simp bit_xor-bitwise refl)
bit_xor-zero_fuel (suc n) a h = elim (small a) [
  | inl nothing ↦ rw nothing (simp bit_xor-bitwise refl)
  | inr more ↦
      let rest = bit_xor-zero_fuel n (a / 2) (omega (arith, h, more)) in
      omega (arith, bit_xor_step a 0, differ-zero (a % 2), rest)
]
  where
    small : (a : ℕ) → (a ≡ 0) ⊎ (0 < a)
    small zero = inl refl
    small (suc a) = inr (omega arith)

pub bit_xor-zero : (a : ℕ) → bit_xor a 0 ≡ a
bit_xor-zero a = bit_xor-zero_fuel a a (omega arith)
