-- ===== src/Except/Defs.antt =====
-- The vectors and the operations of or1ksim/cpu/or1k/except.c, and the filter of the debug unit.
use openrisc_tools.Prelude.{
  ℕ, ◌+◌, ◌-◌, ◌%◌, ◌^◌, Bool, true, false, ◌&&◌, Option, none, some, ◌==◌, if◌then◌else◌, bit_and,
  bit_or,
}
use openrisc_tools.Prelude.Update.{update}
use openrisc_tools.Machine.{
  Machine, set_spr, test, clear, spr_dsr, spr_drr, spr_sr, spr_eear_base, spr_esr_base,
  spr_epcr_base, spr_dsr_rste, spr_dsr_busee, spr_dsr_dpfe, spr_dsr_ipfe, spr_dsr_tte, spr_dsr_ae,
  spr_dsr_iie, spr_dsr_ie, spr_dsr_dme, spr_dsr_ime, spr_dsr_re, spr_dsr_sce, spr_dsr_te,
  spr_sr_eph, spr_sr_ove, spr_sr_sm, spr_sr_iee, spr_sr_tee, spr_sr_dme, spr_sr_ime,
}

-- The exceptions of except.h.
pub data Exception : Type 0 where
  reset buserr dpf ipf tick align illegal int dtlbmiss itlbmiss range syscall fpe trap : Exception

-- Their vectors.
unfoldable pub vector : Exception → ℕ
vector reset = 0x100
vector buserr = 0x200
vector dpf = 0x300
vector ipf = 0x400
vector tick = 0x500
vector align = 0x600
vector illegal = 0x700
vector int = 0x800
vector dtlbmiss = 0x900
vector itlbmiss = 0xa00
vector range = 0xb00
vector syscall = 0xc00
vector fpe = 0xd00
vector trap = 0xe00

-- The bit of DSR that masks each exception for the debugger; the floating point one has no case.
unfoldable pub dsr_mask : Exception → ℕ
dsr_mask reset = spr_dsr_rste
dsr_mask buserr = spr_dsr_busee
dsr_mask dpf = spr_dsr_dpfe
dsr_mask ipf = spr_dsr_ipfe
dsr_mask tick = spr_dsr_tte
dsr_mask align = spr_dsr_ae
dsr_mask illegal = spr_dsr_iie
dsr_mask int = spr_dsr_ie
dsr_mask dtlbmiss = spr_dsr_dme
dsr_mask itlbmiss = spr_dsr_ime
dsr_mask range = spr_dsr_re
dsr_mask syscall = spr_dsr_sce
dsr_mask fpe = 0
dsr_mask trap = spr_dsr_te

-- The signal that `rsp_exception` saves for the debugger, by the numbers of or1ksim/debug/gdb.h.
unfoldable pub rsp_signal : Exception → ℕ
rsp_signal reset = 32
rsp_signal buserr = 10
rsp_signal dpf = 11
rsp_signal ipf = 11
rsp_signal tick = 14
rsp_signal align = 10
rsp_signal illegal = 4
rsp_signal int = 2
rsp_signal dtlbmiss = 11
rsp_signal itlbmiss = 11
rsp_signal range = 8
rsp_signal syscall = 31
rsp_signal fpe = 8
rsp_signal trap = 5

abbrev pub riscop_stall : ℕ
riscop_stall = 1

unfoldable pub set_stall_state : Bool → Machine → Machine
set_stall_state state m = record m {
  riscop = bit_or (clear m.riscop riscop_stall) (if state then riscop_stall else 0);
  stalled = state;
  npc_not_valid = if state then m.npc_not_valid else false;
  halted = if state then m.halted else false;
}

-- The state, and whether the exception is to be ignored.
unfoldable pub debug_ignore_exception : Exception → Machine → Machine × Bool
unfolding dsr_mask rsp_signal set_stall_state
debug_ignore_exception e m =
    let result = bit_and (m.sprs spr_dsr) (dsr_mask e) in
    let hit = if result == 0 then false else true in
    let m' = set_stall_state hit (set_spr spr_drr (bit_or (m.sprs spr_drr) result) m) in
    let told = if m.config.rsp_enabled && hit then rsp_signal e else m'.sigval in
    (record m' { sigval = told }, hit)

-- SR of the handler, without the bit that is cleared last.
unfoldable pub handler_sr : ℕ → ℕ
handler_sr sr =
    let sr1 = clear sr spr_sr_ove in
    let sr2 = bit_or sr1 spr_sr_sm in
    let sr3 = clear sr2 (bit_or spr_sr_iee spr_sr_tee) in clear sr3 spr_sr_dme

-- `a - (cpu_state.delay_insn ? 4 : 0)` on 32 bits.
unfoldable pub before_delay : Machine → ℕ → ℕ
before_delay m a = if m.delay_insn then (a + 2 ^ 32 - 4) % 2 ^ 32 else a

-- The `switch`: what EPCR is loaded with. A reset, and the floating point exception, which has no
-- case, leave it.
unfoldable pub exception_pc : Exception → ℕ → Machine → Option ℕ
unfolding before_delay
exception_pc reset ea m = none
exception_pc itlbmiss ea m = some (before_delay m ea)
exception_pc ipf ea m = some (before_delay m ea)
exception_pc syscall ea m = some (before_delay m ((m.pc + 4) % 2 ^ 32))
exception_pc fpe ea m = none
exception_pc _ ea m = some (before_delay m m.pc)

-- The exceptions that happen between instructions move the pc at once.
unfoldable pub between_insns : Exception → Bool
between_insns tick = true
between_insns int = true
between_insns _ = false

unfoldable pub save_pc : Option ℕ → (ℕ → ℕ) → ℕ → ℕ
save_pc none sprs = sprs
save_pc (some a) sprs = update sprs spr_epcr_base a

-- `except_handle` once the exception is not ignored.
unfoldable pub deliver : Exception → ℕ → Machine → Machine
unfolding vector handler_sr exception_pc between_insns save_pc
deliver e ea m =
    let high = if test (m.sprs spr_sr) spr_sr_eph then 0xf000_0000 else 0 in
    let target = vector e + high in
    let m1 = record m { except_pending = true; pcnext = target } in
    let m2 = set_spr spr_esr_base (m1.sprs spr_sr) (set_spr spr_eear_base ea m1) in
    let m3 = set_spr spr_sr (handler_sr (m2.sprs spr_sr)) m2 in
    let m4 = record m3 { sprs = save_pc (exception_pc e ea m3) m3.sprs } in
    let m5 = record m4 {
      pc = if between_insns e then target else m4.pc;
      pcnext = if between_insns e then (target + 4) % 2 ^ 32 else target;
    } in
    let m6 = set_spr spr_sr (clear (m5.sprs spr_sr) spr_sr_ime) m5 in
    record m6 { delay_insn = false }

unfoldable pub except_handle : Exception → ℕ → Machine → Machine
unfolding debug_ignore_exception deliver
except_handle e ea m =
    let (m', ignored) = debug_ignore_exception e m in if ignored then m' else deliver e ea m'
