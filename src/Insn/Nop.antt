-- ===== src/Insn/Nop.antt =====
-- `l.nop` of or1ksim/cpu/or32/insnset.c, by which a program calls the simulator. What it prints is
-- left out.
use openrisc_tools.Prelude.{ℕ, ◌/◌, ◌%◌, ◌^◌, true, false, ◌==◌, if◌then◌else◌}
use openrisc_tools.Machine.{Machine, set_reg}
use openrisc_tools.Except.{set_stall_state}
use openrisc_tools.Sprs.{Outcome, ran, ended}

abbrev pub nop_exit : ℕ
nop_exit = 1

abbrev pub nop_cnt_reset : ℕ
nop_cnt_reset = 5

abbrev pub nop_get_ticks : ℕ
nop_get_ticks = 6

abbrev pub nop_get_ps : ℕ
nop_get_ps = 7

abbrev pub nop_trace_on : ℕ
nop_trace_on = 8

abbrev pub nop_trace_off : ℕ
nop_trace_off = 9

abbrev pub nop_random : ℕ
nop_random = 0xa

abbrev pub nop_or1ksim : ℕ
nop_or1ksim = 0xb

-- The end of the program: a library only stalls.
unfoldable pub exit_nop : Machine → Outcome
unfolding set_stall_state
exit_nop m =
    if m.config.is_library then ran (set_stall_state true (record m { halted = true })) else ended

-- `random` is the number that the C library gives.
unfoldable pub l_nop : ℕ → ℕ → Machine → Outcome
unfolding exit_nop
l_nop random k m =
    if k == nop_exit
    then exit_nop m
    else if k == nop_cnt_reset
    then ran (record m { reset_cycles = m.cycles; reset_instructions = m.instructions })
    else if k == nop_get_ticks
    then ran (set_reg 12 (m.cycles / 2 ^ 32 % 2 ^ 32) (set_reg 11 (m.cycles % 2 ^ 32) m))
    else if k == nop_get_ps
    then ran (set_reg 11 (m.config.clkcycle_ps % 2 ^ 32) m)
    else if k == nop_trace_on
    then ran (record m { hush = false })
    else if k == nop_trace_off
    then ran (record m { hush = true })
    else if k == nop_random
    then ran (set_reg 11 (random % 2 ^ 32) m)
    else if k == nop_or1ksim
    then ran (set_reg 11 1 m)
    else ran m
