-- ===== src/Insn/Accumulate.antt =====
-- The accumulator of or1ksim/cpu/or32/insnset.c over several instructions.
use openrisc_tools.Prelude.{
  ℕ, ◌+◌, ◌-◌, ◌*◌, ◌/◌, ◌%◌, ◌^◌, ◌<◌, ◌≡◌, ◌∙◌, refl, ap, arith, ◌==◌, if◌then◌else◌, Bool-cases,
  inl, inr,
}
use openrisc_tools.Prelude.Update.{update_self}
use openrisc_tools.Machine.{Machine, spr_maclo, spr_machi}
use openrisc_tools.Insn.Flags.{setsim_reg}
use openrisc_tools.Insn.Mac.{accumulator, wide_product, l_mac, l_msb, l_macrc}

wide_product-lt : (x y : ℕ) → wide_product x y < 2 ^ 64
wide_product-lt x y = ground arith

wide_product-low : (x y : ℕ) → wide_product x y % 2 ^ 32 ≡ x * y % 2 ^ 32
wide_product-low x y = ground arith

-- What is added and subtracted again.
undone :
    (lo hi p : ℕ)
    → lo < 2 ^ 32
    → hi < 2 ^ 32
    → p < 2 ^ 64
    → let l = (lo + hi * 2 ^ 32 + p) % 2 ^ 64 in
      (l % 2 ^ 32 + l / 2 ^ 32 * 2 ^ 32 + 2 ^ 64 - p) % 2 ^ 64 ≡ lo + hi * 2 ^ 32
undone lo hi p h k q = omega arith

-- Where both parts of the accumulator have 32 bits, `l.msb` of the same operands undoes `l.mac`:
-- every special purpose register is as it was.
pub l_msb-l_mac :
    (x y n : ℕ) (m : Machine)
    → m.sprs spr_maclo < 2 ^ 32
    → m.sprs spr_machi < 2 ^ 32
    → (l_msb x y (l_mac x y m)).sprs n ≡ m.sprs n
unfolding l_msb l_mac
l_msb-l_mac x y n m h k =
    let back =
      undone (m.sprs spr_maclo) (m.sprs spr_machi) (wide_product x y) h k (wide_product-lt x y) in
    elim (Bool-cases (n == spr_machi)) [
      | inl high ↦
          let same : spr_machi ≡ n = ground (arith, high) in
          let upper : (m.sprs spr_maclo + m.sprs spr_machi * 2 ^ 32) / 2 ^ 32 ≡ m.sprs spr_machi =
            omega (arith, h) in
          rw high (ap (λ q. q / 2 ^ 32) back ∙ upper ∙ ap m.sprs same)
      | inr other ↦ elim (Bool-cases (n == spr_maclo)) [
        | inl low ↦
            let same : spr_maclo ≡ n = ground (arith, low) in
            let lower : (m.sprs spr_maclo + m.sprs spr_machi * 2 ^ 32) % 2 ^ 32 ≡ m.sprs spr_maclo =
              omega (arith, h) in
            rw (other, low) (ap (λ q. q % 2 ^ 32) back ∙ lower ∙ ap m.sprs same)
        | inr neither ↦ rw (other, neither) refl
      ]
    ]

-- After `l.mac`, `l.macrc` writes the low word of the accumulator plus the product of the operands,
-- modulo 2 ^ 32, and 0 to register 0, and clears both parts of the accumulator.
pub l_macrc-l_mac :
    (d x y : ℕ) (m : Machine)
    → ((l_macrc d (l_mac x y m)).reg d
        ≡ (if d == 0 then 0 else (m.sprs spr_maclo + x * y) % 2 ^ 32))
      × (accumulator (l_macrc d (l_mac x y m)) ≡ 0)
unfolding l_macrc l_mac setsim_reg
l_macrc-l_mac d x y m =
    let low : (accumulator m + wide_product x y) % 2 ^ 64 % 2 ^ 32
        ≡ (m.sprs spr_maclo + x * y) % 2 ^ 32 =
      omega (arith, wide_product-low x y) in
    (rw low (update_self m.reg d _), refl)
