-- ===== src/Insn/Arith.antt =====
-- Sums, differences, unsigned products and quotients, logic and extensions.
use openrisc_tools.Prelude.{
  ℕ, ◌+◌, ◌-◌, ◌*◌, ◌/◌, ◌%◌, ◌^◌, Bool, true, false, not, ◌&&◌, ◌||◌, ◌==◌, leb, ltb,
  if◌then◌else◌, bit_and, bit_or, bit_xor,
}
use openrisc_tools.Machine.{Machine, spr_sr, spr_sr_ov, spr_sr_cy}
use openrisc_tools.Insn.Flags.{setsim_reg, put_flag, range_check, is_negative}

-- Two operands of one sign, and a sum of the other.
abbrev pub add_overflows : ℕ → ℕ → ℕ → Bool
add_overflows temp1 temp2 temp3 =
    is_negative temp2 && (is_negative temp3 && not (is_negative temp1))
    || not (is_negative temp2) && (not (is_negative temp3) && is_negative temp1)

-- A sum that fits the `int8_t` is counted.
unfoldable pub count_byte : ℕ → Machine → Machine
count_byte temp1 m =
    if ltb temp1 0x80 || leb (2 ^ 32 - 0x80) temp1 then record m { byteadd = m.byteadd + 1 } else m

-- The register, then the overflow flag, then the carry flag.
unfoldable pub write_sum : ℕ → ℕ → Bool → Bool → Machine → Machine
unfolding setsim_reg put_flag
write_sum d temp1 overflow carry m =
    put_flag spr_sr_cy carry (put_flag spr_sr_ov overflow (setsim_reg d temp1 m))

unfoldable pub l_add : ℕ → ℕ → ℕ → Machine → Machine
unfolding write_sum range_check count_byte
l_add d a b m =
    let temp1 = (b + a) % 2 ^ 32 in
    let m' = write_sum d temp1 (add_overflows temp1 b a) (ltb temp1 b) m in
    count_byte temp1 (range_check spr_sr_ov m')

unfoldable pub l_addc : ℕ → ℕ → ℕ → Machine → Machine
unfolding write_sum range_check count_byte
l_addc d a b m =
    let carry_in = bit_and (m.sprs spr_sr) spr_sr_cy == spr_sr_cy in
    let sum = (b + a) % 2 ^ 32 in
    let temp1 = if carry_in then (sum + 1) % 2 ^ 32 else sum in
    let carry = carry_in && leb temp1 b || ltb temp1 b in
    let m' = write_sum d temp1 (add_overflows temp1 b a) carry m in
    count_byte temp1 (range_check spr_sr_ov m')

-- Operands of different signs, and a difference of the sign of the second.
abbrev pub sub_overflows : ℕ → ℕ → ℕ → Bool
sub_overflows temp1 temp2 temp3 =
    is_negative temp2 && (not (is_negative temp3) && not (is_negative temp1))
    || not (is_negative temp2) && (is_negative temp3 && is_negative temp1)

unfoldable pub l_sub : ℕ → ℕ → ℕ → Machine → Machine
unfolding write_sum range_check
l_sub d a b m =
    let temp1 = (a + 2 ^ 32 - b) % 2 ^ 32 in
    range_check spr_sr_ov (write_sum d temp1 (sub_overflows temp1 a b) (ltb a b) m)

unfoldable pub l_mulu : ℕ → ℕ → ℕ → Machine → Machine
unfolding write_sum
l_mulu d a b m =
    let product = a * b in write_sum d (product % 2 ^ 32) false (ltb (2 ^ 32 - 1) product) m

-- A division by zero sets the carry flag, on which the exception depends.
unfoldable pub l_divu : ℕ → ℕ → ℕ → Machine → Machine
unfolding setsim_reg put_flag range_check
l_divu d a b m =
    let divided =
      if b == 0
      then put_flag spr_sr_cy true m
      else put_flag spr_sr_cy false (setsim_reg d (a / b) m) in
    range_check spr_sr_cy (put_flag spr_sr_ov false divided)

unfoldable pub l_and : ℕ → ℕ → ℕ → Machine → Machine
unfolding setsim_reg
l_and d a b = setsim_reg d (bit_and a b)

unfoldable pub l_or : ℕ → ℕ → ℕ → Machine → Machine
unfolding setsim_reg
l_or d a b = setsim_reg d (bit_or a b)

unfoldable pub l_xor : ℕ → ℕ → ℕ → Machine → Machine
unfolding setsim_reg
l_xor d a b = setsim_reg d (bit_xor a b)

unfoldable pub l_movhi : ℕ → ℕ → Machine → Machine
unfolding setsim_reg
l_movhi d a = setsim_reg d (a * 2 ^ 16 % 2 ^ 32)

-- The low `w` bits as a signed number, on 32 bits.
abbrev pub sign_extend : ℕ → ℕ → ℕ
sign_extend w a = let x = a % 2 ^ w in if leb (2 ^ (w - 1)) x then 2 ^ 32 - 2 ^ w + x else x

unfoldable pub l_extbs : ℕ → ℕ → Machine → Machine
unfolding setsim_reg
l_extbs d a = setsim_reg d (sign_extend 8 a)

unfoldable pub l_extbz : ℕ → ℕ → Machine → Machine
unfolding setsim_reg
l_extbz d a = setsim_reg d (a % 2 ^ 8)

unfoldable pub l_exths : ℕ → ℕ → Machine → Machine
unfolding setsim_reg
l_exths d a = setsim_reg d (sign_extend 16 a)

unfoldable pub l_exthz : ℕ → ℕ → Machine → Machine
unfolding setsim_reg
l_exthz d a = setsim_reg d (a % 2 ^ 16)
