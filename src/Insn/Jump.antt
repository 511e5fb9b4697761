-- ===== src/Insn/Jump.antt =====
-- Jumps through a register, the return from an exception, and the instructions that raise one or
-- reach the special purpose registers.
use openrisc_tools.Prelude.{
  ℕ, ◌+◌, ◌*◌, ◌%◌, ◌^◌, true, not, ◌&&◌, ◌||◌, ◌==◌, if◌then◌else◌, bit_or,
}
use openrisc_tools.Machine.{
  Machine, test, spr_sr, spr_epcr_base, spr_esr_base, spr_eear_base, spr_sr_sm, spr_sr_sumra,
}
use openrisc_tools.Except.{except_handle, illegal, align, syscall, trap}
use openrisc_tools.Sprs.{Caches, Outcome, ran, ended, mtspr, mfspr}
use openrisc_tools.Insn.Flags.{setsim_reg}

abbrev pub link_regno : ℕ
link_regno = 9

-- The operand is the distance in words.
unfoldable pub l_jal : ℕ → Machine → Machine
unfolding setsim_reg
l_jal a m = record (setsim_reg link_regno ((m.pc + 8) % 2 ^ 32) m) {
  pc_delay = (m.pc + a * 4) % 2 ^ 32;
  next_delay_insn = true;
}

-- The register that holds the destination `temp1` is `r`.
unfoldable pub l_jalr : ℕ → ℕ → Machine → Machine
unfolding setsim_reg
l_jalr r temp1 m =
    if r == link_regno
    then except_handle illegal m.pc m
    else if test temp1 3
    then except_handle align m.pc m
    else record (setsim_reg link_regno ((m.pc + 8) % 2 ^ 32) m) {
      pc_delay = temp1;
      next_delay_insn = true;
    }

unfoldable pub l_jr : ℕ → Machine → Machine
l_jr temp1 m =
    if test temp1 3
    then except_handle align m.pc m
    else record m { pc_delay = temp1; next_delay_insn = true }

unfoldable pub l_rfe : Caches → Machine → Outcome
l_rfe c m = mtspr c spr_sr (m.sprs spr_esr_base) (record m { pcnext = m.sprs spr_epcr_base })

-- The `uint16_t` of the register's number.
abbrev pub regno_of : ℕ → ℕ → ℕ
regno_of a k = bit_or a k % 2 ^ 16

-- A write outside supervisor mode ends the simulation.
unfoldable pub l_mtspr : Caches → ℕ → ℕ → ℕ → Machine → Outcome
l_mtspr c a value k m =
    if test (m.sprs spr_sr) spr_sr_sm then mtspr c (regno_of a k) value m else ended

unfoldable pub l_mfspr : ℕ → ℕ → ℕ → Machine → Outcome
unfolding setsim_reg
l_mfspr d a k m =
    let value = mfspr (regno_of a k) m in
    let supervisor = test (m.sprs spr_sr) spr_sr_sm in
    if supervisor || not supervisor && test (m.sprs spr_sr) spr_sr_sumra
    then ran (setsim_reg d value m)
    else ended

unfoldable pub l_sys : Machine → Machine
l_sys m = except_handle syscall (m.sprs spr_eear_base) m

unfoldable pub l_trap : Machine → Machine
l_trap m = except_handle trap (m.sprs spr_eear_base) m
