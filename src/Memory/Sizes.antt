-- ===== src/Memory/Sizes.antt =====
-- The rounding of an area's size by `bit_mask` of or1ksim/cpu/common/abstract.c.
use native.Mathlib.Nat.{
  pow-suc, pow-le-pow_right, le-div_iff_mul-le, div-div-eq-div-mul, mul-add-div, div-eq_of_lt,
  mul_assoc, mul_comm,
}
use openrisc_tools.Prelude.{
  ℕ, zero, suc, ◌+◌, ◌-◌, ◌*◌, ◌/◌, ◌%◌, ◌^◌, ◌≤◌, ◌<◌, ◌≡◌, ◌∙◌, sym, refl, ap, bit_or, arith,
  ◌==◌, false, ◌⊎◌, inl, inr, Bool-cases, if◌then◌else◌,
}
use openrisc_tools.Memory.Areas.{bit_mask_loop, bit_mask}
use openrisc_tools.Memory.Masks.{pow-pos, bit_or-bit}

-- The number with the bits of `d` from `i` on, and every bit below set.
abbrev filled : ℕ → ℕ → ℕ
filled i d = 2 ^ i * (d / 2 ^ i) + (2 ^ i - 1)

filled-div : (i d : ℕ) → filled i d / 2 ^ i ≡ d / 2 ^ i
filled-div i d =
    mul-add-div {m = 2 ^ i} (pow-pos i) (d / 2 ^ i) (2 ^ i - 1)
    ∙ rw (div-eq_of_lt {n = 2 ^ i - 1} {m = 2 ^ i} (omega (arith, pow-pos i))) (omega arith)

next-div : (i d : ℕ) → d / 2 ^ suc i ≡ d / 2 ^ i / 2
next-div i d =
    let two : 2 ^ suc i ≡ 2 ^ i * 2 = omega (arith, pow-suc 2 i) in
    rw two (sym (div-div-eq-div-mul d (2 ^ i) 2))

-- A multiple of a power, by the parity of the factor.
scale : (p s : ℕ) → (p * (2 * s) ≡ 2 * (p * s)) × (p * (2 * s + 1) ≡ 2 * (p * s) + p)
scale p s =
    let twice : p * (2 * s) ≡ 2 * (p * s) =
      omega (arith, mul_comm p (2 * s), mul_assoc 2 s p, mul_comm s p) in
    (twice, omega (arith, twice, mul_comm p (2 * s + 1), mul_comm p (2 * s)))

-- One round sets the next bit.
filled-next : (i d : ℕ) → bit_or (filled i d) (2 ^ i) ≡ filled (suc i) d
filled-next i d =
    let q = d / 2 ^ i in
    let two : 2 ^ suc i ≡ 2 * 2 ^ i = omega (arith, pow-suc 2 i) in
    let product : 2 ^ suc i * (q / 2) ≡ 2 * (2 ^ i * (q / 2)) =
      ap (λ p. p * (q / 2)) two ∙ mul_assoc 2 (2 ^ i) (q / 2) in
    let word : filled (suc i) d ≡ 2 ^ suc i * (q / 2) + (2 ^ suc i - 1) = rw (next-div i d) refl in
    let step : bit_or (filled i d) (2 ^ i)
        ≡ (if q % 2 == 0 then filled i d + 2 ^ i else filled i d) =
      bit_or-bit i (filled i d) ∙ rw (filled-div i d) refl in
    elim (Bool-cases (q % 2 == 0)) [
      | inl even ↦
          let half : q ≡ 2 * (q / 2) = ground (arith, even) in
          let whole : 2 ^ i * q ≡ 2 * (2 ^ i * (q / 2)) =
            ap (λ r. 2 ^ i * r) half ∙ (scale (2 ^ i) (q / 2)).0 in
          omega (arith, rw even at step, whole, two, product, pow-pos i, word)
      | inr odd ↦
          let half : q ≡ 2 * (q / 2) + 1 = ground (arith, odd) in
          let whole : 2 ^ i * q ≡ 2 * (2 ^ i * (q / 2)) + 2 ^ i =
            ap (λ r. 2 ^ i * r) half ∙ (scale (2 ^ i) (q / 2)).1 in
          omega (arith, rw odd at step, whole, two, product, pow-pos i, word)
    ]

bound : (i d : ℕ) → d < 2 ^ (i + 0) → d < 2 ^ i
bound i d h = let same : i + 0 ≡ i = omega arith in rw same at h

-- The loop stops at the first power above `d`.
loop_fills :
    (n fuel i d : ℕ)
    → n ≤ fuel
    → d < 2 ^ (i + n)
    → 2 ^ (i + n) ≤ 2 * d + 1 ⊎ (n ≡ 0)
    → bit_mask_loop fuel i (filled i d) ≡ 2 ^ (i + n) - 1
unfolding bit_mask_loop
loop_fills zero zero i d enough below above =
    let same : i + 0 ≡ i = omega arith in rw (div-eq_of_lt (bound i d below), same) (omega arith)
loop_fills zero (suc fuel) i d enough below above =
    let same : i + 0 ≡ i = omega arith in
    rw (filled-div i d, div-eq_of_lt (bound i d below), same) (omega arith)
loop_fills (suc n) zero i d enough below above = omega (arith, enough)
loop_fills (suc n) (suc fuel) i d enough below above =
    let apart : i + suc n ≡ suc i + n = omega arith in
    let two : 2 ^ (suc i + n) ≡ 2 * 2 ^ (i + n) =
      let carry : suc i + n ≡ suc (i + n) = omega arith in
      rw carry (omega (arith, pow-suc 2 (i + n))) in
    let double : 2 ^ (suc i + n) ≤ 2 * d + 1 = elim above [
      | inl h ↦ rw apart at h
      | inr h ↦ omega (arith, h)
    ] in
    let up : 2 ^ i ≤ 2 ^ (i + n) = pow-le-pow_right (omega arith) (omega arith) in
    let some_left : 1 ≤ d / 2 ^ i =
      (le-div_iff_mul-le {k = 2 ^ i} {x = 1} {y = d} (pow-pos i)).1 (omega (arith, double, up)) in
    let rest =
      loop_fills n fuel (suc i) d (omega (arith, enough)) (rw apart at below) (inl double) in
    let more : (d / 2 ^ i == 0) ≡ false = ground (arith, some_left) in
    let next : i + 1 ≡ suc i = omega arith in
    rw (filled-div i d, more, filled-next i d, next, apart) rest

-- For a size in (2^(k-1), 2^k] the loop ends within its 32 rounds, with k ones.
pub bit_mask_lem :
    (k size : ℕ) → k ≤ 32 → size ≤ 2 ^ k → 2 ^ k < 2 * size → bit_mask size ≡ 2 ^ k - 1
unfolding bit_mask
bit_mask_lem k size fits below above =
    let d = (size + 2 ^ 32 - 1) % 2 ^ 32 in
    let top : 2 ^ k ≤ 2 ^ 32 = pow-le-pow_right (omega arith) fits in
    let less : d ≡ size - 1 = ground (arith, top, below, above) in
    let start : filled 0 d ≡ d = omega arith in
    let same : 0 + k ≡ k = omega arith in
    let ends : d < 2 ^ (0 + k) = rw same (omega (arith, less, below, above)) in
    let lasts : 2 ^ (0 + k) ≤ 2 * d + 1 = rw same (omega (arith, less, above)) in
    let full = loop_fills k 32 0 d fits ends (inl lasts) in
    ap (bit_mask_loop 32 0) (sym start) ∙ rw same at full
