-- ===== src/Insn/Signed.antt =====
-- Signed products and quotients, and the search for a bit, of or1ksim/cpu/or32/insnset.c.
use openrisc_tools.Prelude.{
  ℕ, ◌+◌, ◌-◌, ◌*◌, ◌/◌, ◌%◌, ◌^◌, Bool, true, false, not, ◌&&◌, ◌||◌, ◌==◌, ltb, if◌then◌else◌,
  Option, none, some, bit_and, bit_or,
}
use openrisc_tools.Prelude.Int.{ℤ, pos, negsuc, ◌*ℤ◌, ltb_ℤ, to_u32}
use openrisc_tools.Machine.{Machine, spr_sr_ov, spr_sr_cy}
use openrisc_tools.Insn.Flags.{setsim_reg, put_flag, range_check, is_negative, signed}
use openrisc_tools.Insn.Arith.{write_sum}

-- `ltemp0 < INT32_MIN || ltemp0 > INT32_MAX`.
abbrev pub mul_overflows : ℤ → Bool
mul_overflows z = ltb_ℤ z (negsuc (2 ^ 31 - 1)) || ltb_ℤ (pos (2 ^ 31 - 1)) z

unfoldable pub l_mul : ℕ → ℕ → ℕ → Machine → Machine
unfolding write_sum range_check
l_mul d a b m =
    let product = signed a *ℤ signed b in
    let carry = ltb (2 ^ 32 - 1) (a * b) in
    range_check spr_sr_ov (write_sum d (to_u32 product) (mul_overflows product) carry m)

-- The magnitude of an `int32_t`, and a word with a sign.
abbrev pub magnitude : ℕ → ℕ
magnitude x = if is_negative x then 2 ^ 32 - x else x

abbrev pub with_sign : Bool → ℕ → ℕ
with_sign minus x = if minus then (2 ^ 32 - x) % 2 ^ 32 else x

-- The quotient of `int32_t`, to zero.
unfoldable pub quotient : ℕ → ℕ → ℕ
quotient a b =
    let minus = is_negative a && not (is_negative b) || not (is_negative a) && is_negative b in
    with_sign minus (magnitude a / magnitude b)

-- The quotient of the smallest number by -1 is not defined in C, and gives `none`.
unfoldable pub l_div : ℕ → ℕ → ℕ → Machine → Option Machine
unfolding setsim_reg put_flag range_check quotient
l_div d a b m =
    let divided =
      if b == 0
      then put_flag spr_sr_cy true m
      else put_flag spr_sr_cy false (setsim_reg d (quotient a b) m) in
    if a == 2 ^ 31 && b == 2 ^ 32 - 1
    then none
    else some (range_check spr_sr_cy (put_flag spr_sr_ov false divided))

-- `ffs` of the C library is an argument.
unfoldable pub l_ff1 : (ℕ → ℕ) → ℕ → ℕ → Machine → Machine
unfolding setsim_reg
l_ff1 ffs d a = setsim_reg d (ffs a)

-- The steps that reverse a word: `((t & high) >> by) | ((t & low) << by)`.
abbrev pub swap_bits : ℕ → ℕ → ℕ → ℕ → ℕ
swap_bits high low by t = bit_or (bit_and t high / 2 ^ by) (bit_and t low * 2 ^ by % 2 ^ 32)

-- `t` is signed when its halves are swapped.
unfoldable pub reversed : ℕ → ℕ
reversed t =
    let t1 = swap_bits 0xaaaa_aaaa 0x5555_5555 1 t in
    let t2 = swap_bits 0xcccc_cccc 0x3333_3333 2 t1 in
    let t3 = swap_bits 0xf0f0_f0f0 0x0f0f_0f0f 4 t2 in
    let t4 = swap_bits 0xff00_ff00 0x00ff_00ff 8 t3 in
    let high = if is_negative t4 then 0xffff_0000 + t4 / 2 ^ 16 else t4 / 2 ^ 16 in
    bit_or high (t4 * 2 ^ 16 % 2 ^ 32)

unfoldable pub l_fl1 : (ℕ → ℕ) → ℕ → ℕ → Machine → Machine
unfolding setsim_reg reversed
l_fl1 ffs d a = let t = ffs (reversed a) in setsim_reg d (if t == 0 then t else 33 - t)
