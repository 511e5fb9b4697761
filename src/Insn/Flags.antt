-- ===== src/Insn/Flags.antt =====
-- What the instructions share: the register that is written, a flag of SR, and the range exception.
use openrisc_tools.Prelude.{ℕ, ◌-◌, ◌^◌, Bool, ◌&&◌, ◌==◌, leb, if◌then◌else◌, bit_and, bit_or}
use openrisc_tools.Prelude.Int.{ℤ, pos, negsuc}
use openrisc_tools.Machine.{Machine, set_spr, set_reg, clear, spr_sr, spr_sr_ove}
use openrisc_tools.Except.{except_handle, range}

-- `setsim_reg`: register 0 is always zero.
unfoldable pub setsim_reg : ℕ → ℕ → Machine → Machine
setsim_reg regno value m = set_reg regno (if regno == 0 then 0 else value) m

-- `if (b) cpu_state.sprs[SPR_SR] |= flag; else cpu_state.sprs[SPR_SR] &= ~flag;`
unfoldable pub put_flag : ℕ → Bool → Machine → Machine
put_flag flag b m =
    set_spr spr_sr (if b then bit_or (m.sprs spr_sr) flag else clear (m.sprs spr_sr) flag) m

-- The range exception is raised if SR[OVE] and the flag are set.
unfoldable pub range_check : ℕ → Machine → Machine
range_check flag m =
    let sr = m.sprs spr_sr in
    if bit_and sr spr_sr_ove == spr_sr_ove && bit_and sr flag == flag
    then except_handle range m.pc m
    else m

-- `(long int) x < 0` for a 32-bit value.
abbrev pub is_negative : ℕ → Bool
is_negative x = leb (2 ^ 31) x

-- The conversion of a 32-bit word to `int32_t`.
abbrev pub signed : ℕ → ℤ
signed x = if is_negative x then negsuc (2 ^ 32 - 1 - x) else pos x
