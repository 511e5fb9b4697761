-- ===== src/Memory/Masks.antt =====
-- Masks of low and of high bits: remainders and multiples.
use native.Mathlib.Nat.{
  pow-suc, one-le-pow, div-div-eq-div-mul, div-add-mod, mod-eq_of_lt, mul_assoc, mul_comm, mul-add,
}
use openrisc_tools.Prelude.{
  ℕ, zero, suc, ◌+◌, ◌-◌, ◌*◌, ◌/◌, ◌%◌, ◌^◌, ◌≤◌, ◌<◌, ◌≡◌, ◌∙◌, sym, ap, bit_and, bit_or, arith,
  ◌==◌, inl, inr, Bool-cases, if◌then◌else◌,
}
use openrisc_tools.Prelude.Bits.{bit_and_step, bit_or_step, bit_and-zero, bit_or-zero}

pub pow-pos : (k : ℕ) → 0 < 2 ^ k
pow-pos k = one-le-pow k 2 (omega arith)

two_times : (k : ℕ) → 2 ^ suc k ≡ 2 * 2 ^ k
two_times k = omega (arith, pow-suc 2 k)

-- A power of 2 as a product.
pub pow-split : (k n : ℕ) → k ≤ n → 2 ^ k * 2 ^ (n - k) ≡ 2 ^ n
pow-split zero n h = let same : n - 0 ≡ n = omega arith in rw same (omega arith)
pow-split (suc k) zero h = omega (arith, h)
pow-split (suc k) (suc n) h =
    let same : suc n - suc k ≡ n - k = omega arith in
    rw same (
      omega (
        arith,
        pow-suc 2 k,
        pow-suc 2 n,
        mul_assoc 2 (2 ^ k) (2 ^ (n - k)),
        pow-split k n (omega (arith, h)),
        ap (λ p. p * 2 ^ (n - k)) (two_times k),
      ))

pub half-div : (k x : ℕ) → x / 2 ^ suc k ≡ x / 2 / 2 ^ k
half-div k x =
    let two : 2 ^ suc k ≡ 2 * 2 ^ k = omega (arith, pow-suc 2 k) in
    rw two (sym (div-div-eq-div-mul x 2 (2 ^ k)))

pub half-mod : (k x : ℕ) → x % 2 ^ suc k ≡ x / 2 % 2 ^ k * 2 + x % 2
half-mod k x =
    let two : 2 ^ suc k ≡ 2 * 2 ^ k = omega (arith, pow-suc 2 k) in
    let whole : 2 ^ suc k * (x / 2 / 2 ^ k) + x % 2 ^ suc k ≡ x =
      ap (λ q. 2 ^ suc k * q + x % 2 ^ suc k) (sym (half-div k x)) ∙ div-add-mod x (2 ^ suc k) in
    let product : 2 ^ suc k * (x / 2 / 2 ^ k) ≡ 2 * (2 ^ k * (x / 2 / 2 ^ k)) =
      ap (λ p. p * (x / 2 / 2 ^ k)) two ∙ mul_assoc 2 (2 ^ k) (x / 2 / 2 ^ k) in
    omega (arith, whole, product, div-add-mod (x / 2) (2 ^ k))

-- The low `k` bits.
pub bit_and-low : (k x : ℕ) → bit_and x (2 ^ k - 1) ≡ x % 2 ^ k
bit_and-low zero x = bit_and-zero x ∙ omega arith
bit_and-low (suc k) x =
    let half : (2 ^ suc k - 1) / 2 ≡ 2 ^ k - 1 = omega (arith, pow-suc 2 k, pow-pos k) in
    let odd : (2 ^ suc k - 1) % 2 ≡ 1 = omega (arith, pow-suc 2 k, pow-pos k) in
    bit_and_step x (2 ^ suc k - 1)
    ∙ rw (half, odd, bit_and-low k (x / 2), half-mod k x) (omega arith)

-- All bits but the low `k`, of a number of `k + n` bits.
pub bit_and-high :
    (k n x : ℕ) → x < 2 ^ k * 2 ^ n → bit_and x (2 ^ k * 2 ^ n - 2 ^ k) ≡ x / 2 ^ k * 2 ^ k
bit_and-high zero n x h =
    let all : 1 * 2 ^ n - 1 ≡ 2 ^ n - 1 = omega arith in
    let small : x < 2 ^ n = omega (arith, h) in
    rw (all, bit_and-low n x, mod-eq_of_lt small) (omega arith)
bit_and-high (suc k) n x h =
    let two : 2 ^ suc k ≡ 2 * 2 ^ k = omega (arith, pow-suc 2 k) in
    let product : 2 ^ suc k * 2 ^ n ≡ 2 * (2 ^ k * 2 ^ n) =
      ap (λ p. p * 2 ^ n) two ∙ mul_assoc 2 (2 ^ k) (2 ^ n) in
    let m = 2 ^ suc k * 2 ^ n - 2 ^ suc k in
    let half : m / 2 ≡ 2 ^ k * 2 ^ n - 2 ^ k = omega (arith, product, two) in
    let even : m % 2 ≡ 0 = omega (arith, product, two) in
    let rest = bit_and-high k n (x / 2) (omega (arith, product, h)) in
    let back : x / 2 / 2 ^ k * 2 ^ suc k ≡ 2 * (x / 2 / 2 ^ k * 2 ^ k) = rw two (
      omega (
        arith,
        mul_comm (x / 2 / 2 ^ k) (2 * 2 ^ k),
        mul_assoc 2 (2 ^ k) (x / 2 / 2 ^ k),
        mul_comm (2 ^ k) (x / 2 / 2 ^ k),
      )) in
    bit_and_step x m ∙ rw (half, even, rest, half-div k x) (omega (arith, back))

-- The bit `k` is set.
pub bit_or-bit : (k x : ℕ) → bit_or x (2 ^ k) ≡ (if x / 2 ^ k % 2 == 0 then x + 2 ^ k else x)
bit_or-bit zero x = ground (arith, bit_or_step x 1, bit_or-zero (x / 2))
bit_or-bit (suc k) x =
    let half : 2 ^ suc k / 2 ≡ 2 ^ k = omega (arith, pow-suc 2 k) in
    let even : 2 ^ suc k % 2 ≡ 0 = omega (arith, pow-suc 2 k) in
    let step : bit_or x (2 ^ suc k) ≡ bit_or (x / 2) (2 ^ k) * 2 + x % 2 =
      bit_or_step x (2 ^ suc k) ∙ rw (half, even) (omega arith) in
    let rest = bit_or-bit k (x / 2) in
    elim (Bool-cases (x / 2 / 2 ^ k % 2 == 0)) [
      | inl clear ↦ rw (half-div k x, clear) (omega (arith, step, rw clear at rest, pow-suc 2 k))
      | inr set ↦ rw (half-div k x, set) (omega (arith, step, rw set at rest))
    ]

-- Where no digits meet, `|` adds.
pub bit_or-disjoint : (k q y : ℕ) → y < 2 ^ k → bit_or (q * 2 ^ k) y ≡ q * 2 ^ k + y
bit_or-disjoint zero q y h =
    let nothing : y ≡ 0 = omega (arith, h) in rw nothing (bit_or-zero (q * 1) ∙ omega arith)
bit_or-disjoint (suc k) q y h =
    let two : 2 ^ suc k ≡ 2 ^ k + 2 ^ k = omega (arith, pow-suc 2 k) in
    let whole : q * 2 ^ suc k ≡ q * 2 ^ k + q * 2 ^ k =
      ap (λ t. q * t) two ∙ mul-add q (2 ^ k) (2 ^ k) in
    let half : q * 2 ^ suc k / 2 ≡ q * 2 ^ k = omega (arith, whole) in
    let even : q * 2 ^ suc k % 2 ≡ 0 = omega (arith, whole) in
    let rest = bit_or-disjoint k q (y / 2) (omega (arith, h, two)) in
    bit_or_step (q * 2 ^ suc k) y ∙ rw (half, even, rest) (omega (arith, whole))
