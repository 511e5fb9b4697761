-- ===== src/Insn/Mac.antt =====
-- The multiply and accumulate unit, and the conditional move, of or1ksim/cpu/or32/insnset.c.
use openrisc_tools.Prelude.{ℕ, ◌+◌, ◌-◌, ◌*◌, ◌/◌, ◌%◌, ◌^◌, if◌then◌else◌}
use openrisc_tools.Machine.{Machine, test, set_spr, spr_sr, spr_sr_f, spr_maclo, spr_machi}
use openrisc_tools.Insn.Flags.{setsim_reg, is_negative}

-- `(ULONGEST) lo | ((LONGEST) hi << 32)`: the two parts share no bit.
abbrev pub accumulator : Machine → ℕ
accumulator m = m.sprs spr_maclo + m.sprs spr_machi * 2 ^ 32

-- The product on 32 bits, `orreg_t`, that wraps around, as a 64-bit number.
abbrev pub wide_product : ℕ → ℕ → ℕ
wide_product x y = let t = x * y % 2 ^ 32 in if is_negative t then 2 ^ 64 - 2 ^ 32 + t else t

abbrev pub set_accumulator : ℕ → Machine → Machine
set_accumulator l m = set_spr spr_machi (l / 2 ^ 32) (set_spr spr_maclo (l % 2 ^ 32) m)

unfoldable pub l_mac : ℕ → ℕ → Machine → Machine
l_mac x y m = set_accumulator ((accumulator m + wide_product x y) % 2 ^ 64) m

unfoldable pub l_msb : ℕ → ℕ → Machine → Machine
l_msb x y m = set_accumulator ((accumulator m + 2 ^ 64 - wide_product x y) % 2 ^ 64) m

unfoldable pub l_macrc : ℕ → Machine → Machine
unfolding setsim_reg
l_macrc d m = set_spr spr_machi 0 (set_spr spr_maclo 0 (setsim_reg d (m.sprs spr_maclo) m))

unfoldable pub l_cmov : ℕ → ℕ → ℕ → Machine → Machine
unfolding setsim_reg
l_cmov d a b m = setsim_reg d (if test (m.sprs spr_sr) spr_sr_f then a else b) m
