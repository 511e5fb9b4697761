-- ===== src/Insn/Products.antt =====
-- The signed product of or1ksim/cpu/or32/insnset.c.
use native.Mathlib.Nat.{add-mul, mul-add}
use openrisc_tools.Prelude.{
  ℕ, suc, ◌+◌, ◌-◌, ◌*◌, ◌%◌, ◌^◌, ◌≤◌, ◌<◌, ◌≡◌, ◌∙◌, sym, ap, not, leb, ltb, bit_and, arith,
  Bool-cases, inl, inr,
}
use openrisc_tools.Prelude.Int.{ℤ, ◌*ℤ◌, to_u32, sub_ℕ}
use openrisc_tools.Machine.{Machine, spr_dsr}
use openrisc_tools.Except.{range, dsr_mask}
use openrisc_tools.Insn.Flags.{is_negative, signed}
use openrisc_tools.Insn.Signed.{l_mul, mul_overflows}
use openrisc_tools.Insn.Overflow.{fits}
use openrisc_tools.Insn.Results.{IsWritten, Ends, sum_lem}

-- An integer and a number that differ by a multiple of 2 ^ 32.
to_u32-sub_ℕ : (p n x k : ℕ) → p + 2 ^ 32 * k ≡ x + n → to_u32 (sub_ℕ p n) ≡ x % 2 ^ 32
unfolding to_u32
to_u32-sub_ℕ p n x k h = ground arith

-- The low word of a product does not depend on the signs.
pub to_u32-signed_mul :
    (a b : ℕ) → a < 2 ^ 32 → b < 2 ^ 32 → to_u32 (signed a *ℤ signed b) ≡ a * b % 2 ^ 32
unfolding ◌*ℤ◌
to_u32-signed_mul a b h k =
    let na = suc (2 ^ 32 - 1 - a) in
    let nb = suc (2 ^ 32 - 1 - b) in
    let whole_a : a + na ≡ 2 ^ 32 = omega (arith, h) in
    let whole_b : b + nb ≡ 2 ^ 32 = omega (arith, k) in
    let of_a : a * b + na * b ≡ 2 ^ 32 * b = sym (add-mul a na b) ∙ ap (λ t. t * b) whole_a in
    let of_b : a * b + a * nb ≡ a * 2 ^ 32 = sym (mul-add a b nb) ∙ ap (λ t. a * t) whole_b in
    let of_nb : a * nb + na * nb ≡ 2 ^ 32 * nb = sym (add-mul a na nb) ∙ ap (λ t. t * nb) whole_a in
    elim (Bool-cases (is_negative a)) [
      | inl neg_a ↦ elim (Bool-cases (is_negative b)) [
        | inl neg_b ↦
            let high_a : 2 ^ 31 ≤ a = ground (arith, neg_a) in
            let high_b : 2 ^ 31 ≤ b = ground (arith, neg_b) in
            rw (neg_a, neg_b)
              (to_u32-sub_ℕ _ _ (a * b) (a + b - 2 ^ 32)
                (omega (arith, of_b, of_nb, whole_b, high_a, high_b)))
        | inr pos_b ↦ rw (neg_a, pos_b) (to_u32-sub_ℕ _ _ (a * b) b (omega (arith, of_a)))
      ]
      | inr pos_a ↦ elim (Bool-cases (is_negative b)) [
        | inl neg_b ↦ rw (pos_a, neg_b) (to_u32-sub_ℕ _ _ (a * b) a (omega (arith, of_b)))
        | inr pos_b ↦ rw (pos_a, pos_b) (to_u32-sub_ℕ _ _ (a * b) 0 (omega arith))
      ]
    ]

mul_overflows-fits : (z : ℤ) → mul_overflows z ≡ not (fits z)
mul_overflows-fits z = ground arith

mul-carry : (p : ℕ) → ltb (2 ^ 32 - 1) p ≡ leb (2 ^ 32) p
mul-carry p = ground arith

-- For 32-bit operands, and the range exception not masked by the debug unit, `l.mul` writes the
-- product modulo 2 ^ 32, whatever the signs, and 0 to register 0; the carry flag says that the
-- product of the unsigned operands does not fit, the overflow flag that the product of the signed
-- ones does not; the rest of SR, the other special purpose registers and the other general ones are
-- as they were. The range exception is delivered exactly if SR[OVE] is set and the product
-- overflows.
pub l_mul_lem :
    (d a b : ℕ) (m : Machine)
    → a < 2 ^ 32
    → b < 2 ^ 32
    → bit_and (m.sprs spr_dsr) (dsr_mask range) ≡ 0
    → let overflow = not (fits (signed a *ℤ signed b)) in
      (m' : Machine) × IsWritten d (a * b % 2 ^ 32) overflow (leb (2 ^ 32) (a * b)) m m'
      × Ends overflow m' (l_mul d a b m)
unfolding l_mul
l_mul_lem d a b m h k unmasked =
    let (m', out, e, w, ends) =
      sum_lem d (a * b % 2 ^ 32) m (mul_overflows-fits (signed a *ℤ signed b)) (mul-carry (a * b))
        unmasked in
    (m', w, rw (to_u32-signed_mul a b h k, e) ends)
