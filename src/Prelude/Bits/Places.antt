-- ===== src/Prelude/Bits/Places.antt =====
-- The bits of a word by their places.
use native.Mathlib.Nat.{pow-suc, div-div-eq-div-mul}
use Prim.Native.Nat.{ℕ, zero, suc, ◌*◌, ◌/◌, ◌%◌, ◌^◌, max, bit_or}
use mathlib.Core.Path.{◌≡◌, refl, sym, ap, ◌∙◌}
use native.Mathlib.Omega.{arith}
use openrisc_tools.Prelude.Tests.{◌==◌, if◌then◌else◌}
use openrisc_tools.Prelude.Bits.Digit.{digit, digit-zero, digit-bit_or}

digit-div : (k a : ℕ) → digit a k ≡ a / 2 ^ k % 2
unfolding digit
digit-div zero a = omega arith
digit-div (suc k) a =
    let two : 2 ^ suc k ≡ 2 * 2 ^ k = omega (arith, pow-suc 2 k) in
    digit-div k (a / 2) ∙ rw two (ap (λ q. q % 2) (div-div-eq-div-mul a 2 (2 ^ k)))

digit-pow : (k j : ℕ) → digit (2 ^ k) j ≡ (if j == k then 1 else 0)
unfolding digit
digit-pow zero zero = refl
digit-pow zero (suc j) = digit-zero j ∙ ground arith
digit-pow (suc k) zero = ground (arith, pow-suc 2 k)
digit-pow (suc k) (suc j) =
    let half : 2 ^ suc k / 2 ≡ 2 ^ k = omega (arith, pow-suc 2 k) in
    rw half (digit-pow k j ∙ ground arith)

-- The bits of a word after one of them is set.
pub bit_or-at :
    (x k j : ℕ) → bit_or x (2 ^ k) / 2 ^ j % 2 ≡ max (x / 2 ^ j % 2) (if j == k then 1 else 0)
bit_or-at x k j =
    sym (digit-div j (bit_or x (2 ^ k)))
    ∙ digit-bit_or x (2 ^ k) j
    ∙ rw (digit-div j x, digit-pow k j) refl
