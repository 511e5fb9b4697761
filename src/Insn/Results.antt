-- ===== src/Insn/Results.antt =====
-- The register and the flags after the sums and differences of or1ksim/cpu/or32/insnset.c.
use openrisc_tools.Prelude.{
  ℕ, ◌+◌, ◌-◌, ◌%◌, ◌^◌, ◌<◌, ◌≡◌, refl, ap, ap₂, Bool, true, false, not, ◌&&◌, [], ◌∷◌, ◌==◌, leb,
  ltb, if◌then◌else◌, bit_and, bit_or, arith, Bool-cases, inl, inr, IfOr,
}
use mathlib.Core.Path.{subst}
use openrisc_tools.Prelude.Int.{pos, ◌+ℤ◌, ◌-ℤ◌}
use openrisc_tools.Prelude.Bits.{mask_laws}
use openrisc_tools.Prelude.Update.{Frame, update_self}
use openrisc_tools.Machine.{
  Machine, test, clear, bit_not, spr_sr, spr_dsr, spr_sr_ov, spr_sr_cy, spr_sr_ove,
}
use openrisc_tools.Machine.Masks.{single_bit-test}
use openrisc_tools.Except.{range, dsr_mask}
use openrisc_tools.Except.Delivery.{IsDelivered, except_handle-IsDelivered}
use openrisc_tools.Insn.Flags.{setsim_reg, put_flag, range_check, signed}
use openrisc_tools.Insn.Arith.{count_byte, write_sum, l_add, l_addc, l_sub}
use openrisc_tools.Insn.Overflow.{
  fits, carried, addc_value, add-carry, add_overflows-fits, addc-carry, addc_overflows-fits,
  sub_overflows-fits,
}

abbrev pub sum_flags : ℕ
sum_flags = 0xc00

-- The register `d` holds the value, the flags are these, and nothing else changes.
pub record IsWritten (d value : ℕ) (overflow carry : Bool) (m m' : Machine) : Type 0 where
  pub result : m'.reg d ≡ (if d == 0 then 0 else value)
  pub registers : Frame (d ∷ []) m.reg m'.reg
  pub overflow_flag : test (m'.sprs spr_sr) spr_sr_ov ≡ overflow
  pub carry_flag : test (m'.sprs spr_sr) spr_sr_cy ≡ carry
  pub status :
      bit_and (m'.sprs spr_sr) (bit_not sum_flags) ≡ bit_and (m.sprs spr_sr) (bit_not sum_flags)
  pub others : Frame (spr_sr ∷ []) m.sprs m'.sprs

-- SR with one flag written.
abbrev flagged : ℕ → Bool → ℕ → ℕ
flagged flag b sr = if b then bit_or sr flag else clear sr flag

flagged-flagged :
    (sr : ℕ) (overflow carry : Bool)
    → let r = flagged spr_sr_cy carry (flagged spr_sr_ov overflow sr) in
      (test r spr_sr_ov ≡ overflow)
      × (test r spr_sr_cy ≡ carry)
      × (bit_and r (bit_not sum_flags) ≡ bit_and sr (bit_not sum_flags))
flagged-flagged sr true true = (simp mask_laws, simp mask_laws, simp mask_laws)
flagged-flagged sr true false = (simp mask_laws, simp mask_laws, simp mask_laws)
flagged-flagged sr false true = (simp mask_laws, simp mask_laws, simp mask_laws)
flagged-flagged sr false false = (simp mask_laws, simp mask_laws, simp mask_laws)

write_sum-IsWritten :
    (d value : ℕ) (overflow carry : Bool) (m : Machine)
    → IsWritten d value overflow carry m (write_sum d value overflow carry m)
unfolding write_sum setsim_reg put_flag
write_sum-IsWritten d value overflow carry m =
    let flags = flagged-flagged (m.sprs spr_sr) overflow carry in
    record {
      result = update_self m.reg d _;
      registers = λ n. ground arith;
      overflow_flag = flags.0;
      carry_flag = flags.1;
      status = flags.2;
      others = λ n. ground arith;
    }

-- The state after the flags are written, up to the count of small sums: the range exception is
-- raised exactly on an overflow that SR[OVE] does not hide.
abbrev pub Ends : Bool → Machine → Machine → Type 0
Ends overflow m' out =
    IfOr (test (m'.sprs spr_sr) spr_sr_ove && overflow) (IsDelivered range m'.pc m' out) (out ≡ m')

overflow_test :
    (sr : ℕ)
    → (bit_and sr spr_sr_ove == spr_sr_ove && bit_and sr spr_sr_ov == spr_sr_ov)
      ≡ (test sr spr_sr_ove && test sr spr_sr_ov)
overflow_test sr = ap₂ (λ x y. x && y) (single_bit-test 12 sr) (single_bit-test 11 sr)

range_check_lem :
    (m : Machine)
    → bit_and (m.sprs spr_dsr) (dsr_mask range) ≡ 0
    → Ends (test (m.sprs spr_sr) spr_sr_ov) m (range_check spr_sr_ov m)
unfolding range_check
range_check_lem m unmasked =
    rw (overflow_test (m.sprs spr_sr))
      (elim (Bool-cases (test (m.sprs spr_sr) spr_sr_ove && test (m.sprs spr_sr) spr_sr_ov)) [
        | inl raised ↦ inl (raised, rw raised (except_handle-IsDelivered range m.pc m unmasked))
        | inr quiet ↦ inr (quiet, rw quiet)
      ])

-- A sum whose flags agree with their descriptions.
pub sum_lem :
    (d value : ℕ) {v v' c c' : Bool} (m : Machine)
    → v ≡ v'
    → c ≡ c'
    → bit_and (m.sprs spr_dsr) (dsr_mask range) ≡ 0
    → (m' : Machine) × (out : Machine) × (range_check spr_sr_ov (write_sum d value v c m) ≡ out)
      × IsWritten d value v' c' m m'
      × Ends v' m' out
unfolding write_sum setsim_reg put_flag
sum_lem d value {v} {v'} {c} {c'} m e f unmasked =
    let m' = write_sum d value v' c' m in
    let w = write_sum-IsWritten d value v' c' m in
    (
      m',
      range_check spr_sr_ov m',
      rw (e, f),
      w,
      subst (λ b. Ends b m' (range_check spr_sr_ov m')) w.overflow_flag
          (range_check_lem m' unmasked),
    )

-- For 32-bit operands, and the range exception not masked by the debug unit, `l.add` writes the sum
-- modulo 2 ^ 32, and 0 to register 0; the carry flag says that the sum of the unsigned operands
-- does not fit, the overflow flag that the sum of the signed ones does not; the rest of SR, the
-- other special purpose registers and the other general ones are as they were. The range exception
-- is delivered exactly if SR[OVE] is set and the sum overflows.
pub l_add_lem :
    (d a b : ℕ) (m : Machine)
    → a < 2 ^ 32
    → b < 2 ^ 32
    → bit_and (m.sprs spr_dsr) (dsr_mask range) ≡ 0
    → let value = (b + a) % 2 ^ 32 in
      let overflow = not (fits (signed a +ℤ signed b)) in
      (m' : Machine) × (out : Machine) × (l_add d a b m ≡ count_byte value out)
      × IsWritten d value overflow (leb (2 ^ 32) (a + b)) m m'
      × Ends overflow m' out
unfolding l_add
l_add_lem d a b m h k unmasked =
    let (m', out, e, w, ends) =
      sum_lem d ((b + a) % 2 ^ 32) m (add_overflows-fits a b h k) (add-carry a b h k) unmasked in
    (m', out, ap (count_byte ((b + a) % 2 ^ 32)) e, w, ends)

-- For 32-bit operands, and the range exception not masked by the debug unit, `l.sub` writes the
-- difference modulo 2 ^ 32, and 0 to register 0; the carry flag says that the second operand is the
-- larger unsigned one, the overflow flag that the difference of the signed ones does not fit; the
-- rest of SR, the other special purpose registers and the other general ones are as they were. The
-- range exception is delivered exactly if SR[OVE] is set and the difference overflows.
pub l_sub_lem :
    (d a b : ℕ) (m : Machine)
    → a < 2 ^ 32
    → b < 2 ^ 32
    → bit_and (m.sprs spr_dsr) (dsr_mask range) ≡ 0
    → let overflow = not (fits (signed a -ℤ signed b)) in
      (m' : Machine) × IsWritten d ((a + 2 ^ 32 - b) % 2 ^ 32) overflow (ltb a b) m m'
      × Ends overflow m' (l_sub d a b m)
unfolding l_sub
l_sub_lem d a b m h k unmasked =
    let (m', out, e, w, ends) =
      sum_lem d ((a + 2 ^ 32 - b) % 2 ^ 32) m (sub_overflows-fits a b h k) refl unmasked in
    (m', w, rw e ends)

-- For 32-bit operands, and the range exception not masked by the debug unit, `l.addc` writes the
-- sum with the carry flag modulo 2 ^ 32, and 0 to register 0; the new carry flag says that the
-- unsigned sum does not fit, the overflow flag that the signed one does not; the rest of SR, the
-- other special purpose registers and the other general ones are as they were. The range exception
-- is delivered exactly if SR[OVE] is set and the sum overflows.
pub l_addc_lem :
    (d a b : ℕ) (m : Machine)
    → a < 2 ^ 32
    → b < 2 ^ 32
    → bit_and (m.sprs spr_dsr) (dsr_mask range) ≡ 0
    → let c = carried (test (m.sprs spr_sr) spr_sr_cy) in
      let value = (b + a + c) % 2 ^ 32 in
      let overflow = not (fits (signed a +ℤ signed b +ℤ pos c)) in
      (m' : Machine) × (out : Machine) × (l_addc d a b m ≡ count_byte value out)
      × IsWritten d value overflow (leb (2 ^ 32) (a + b + c)) m m'
      × Ends overflow m' out
unfolding l_addc
l_addc_lem d a b m h k unmasked =
    let c = test (m.sprs spr_sr) spr_sr_cy in
    let value = (b + a + carried c) % 2 ^ 32 in
    let (m', out, e, w, ends) =
      sum_lem d value m (addc_overflows-fits a b c h k) (addc-carry a b c h k) unmasked in
    (
      m',
      out,
      rw (single_bit-test 10 (m.sprs spr_sr), addc_value a b c) (ap (count_byte value) e),
      w,
      ends,
    )
