-- ===== src/Execute/Defs.antt =====
-- The clock of the processor: fetch, execution and the update of the pc. Statistics, histories and
-- logs are left out.
use openrisc_tools.Prelude.{
  ℕ, ◌+◌, ◌%◌, ◌^◌, Bool, false, not, ◌&&◌, ◌||◌, ◌==◌, ltb, if◌then◌else◌, Option, none, some,
  List, [], ◌∷◌,
}
use openrisc_tools.Prelude.Int.{pos}
use openrisc_tools.Machine.{Machine, test, set_spr, spr_sr, spr_sr_eph, spr_ppc, spr_eear_base}
use openrisc_tools.Except.{except_handle, illegal, trap, reset}
use openrisc_tools.Immu.{peek_into_itlb}
use openrisc_tools.Memory.{Bus}
use openrisc_tools.Access.{eval_insn}
use openrisc_tools.Sprs.{Outcome, ran, faulted, ended}

-- `or1ksim_insn_decode` and the functions of the table `or1ksim_or32_opcodes`, which take their
-- operands from the instruction in the queue. No index is a negative one.
pub record Decoder : Type 0 where
  pub insn_decode : ℕ → Option ℕ
  pub exec : ℕ → Machine → Outcome

unfoldable pub has_breakpoint : ℕ → List ℕ → Bool
has_breakpoint addr [] = false
has_breakpoint addr (b ∷ bs) = b == addr || has_breakpoint addr bs

-- The test of the list of breakpoints, and the state that remembers the last answer.
unfoldable pub at_breakpoint : Machine → Machine × Bool
unfolding has_breakpoint
at_breakpoint m =
    let hit = has_breakpoint (peek_into_itlb m.pc m) m.breakpoints && not m.break_just_hit in
    elim m.breakpoints [ [] ↦ (m, false) | b ∷ bs ↦ (record m { break_just_hit = hit }, hit) ]

-- `fetch` behind the breakpoints.
unfoldable pub fetch_insn : Bus → Machine → Machine
unfolding eval_insn
fetch_insn bus m =
    let m1 = record m { breakpoint = 0; insn_addr = m.pc } in
    let (m2, insn) = eval_insn bus m1.pc m1 in
    record m2 {
      insn = insn;
      instructions = if m2.except_pending then m2.instructions else m2.instructions + 1;
    }

unfoldable pub update_pc : Machine → Machine
update_pc m =
    let m1 = record (set_spr spr_ppc m.pc m) { delay_insn = m.next_delay_insn; pc = m.pcnext } in
    record m1 { pcnext = if m1.delay_insn then m1.pc_delay else (m1.pcnext + 4) % 2 ^ 32 }

unfoldable pub l_invalid : Machine → Machine
l_invalid m = except_handle illegal m.insn_addr m

unfoldable pub decode_execute : Decoder → Machine → Outcome
unfolding l_invalid
decode_execute d m = elim (d.insn_decode m.insn) [ none ↦ ran (l_invalid m) | some i ↦ d.exec i m ]

-- A watchpoint of the debug unit raises a trap behind the instruction.
unfoldable pub trapped : Outcome → Outcome
trapped (ran m) = ran (if m.breakpoint == 0 then m else except_handle trap (m.sprs spr_eear_base) m)
trapped faulted = faulted
trapped ended = ended

unfoldable pub decode_execute_wrapper : Decoder → Machine → Outcome
unfolding decode_execute trapped
decode_execute_wrapper d m = trapped (decode_execute d (record m { breakpoint = 0 }))

-- What a clock answers with: a breakpoint has been hit, or not; or the end of the simulation.
pub data Clock : Type 0 where
  clocked stopped : Machine → Clock
  crashed over : Clock

unfoldable pub advanced : Outcome → Clock
unfolding update_pc
advanced (ran m) = clocked (update_pc m)
advanced faulted = crashed
advanced ended = over

-- `cpu_clock` behind the fetch.
unfoldable pub execute : Decoder → Machine → Clock
unfolding decode_execute_wrapper advanced update_pc
execute d m =
    let raised = except_handle trap (m.sprs spr_eear_base) m in
    if m.except_pending
    then clocked (record (update_pc m) { except_pending = false })
    else if not (m.breakpoint == 0)
    then clocked (record (update_pc raised) { except_pending = false })
    else advanced (decode_execute_wrapper d m)

unfoldable pub cpu_clock : Decoder → Bus → Machine → Clock
unfolding at_breakpoint fetch_insn execute
cpu_clock d bus m =
    let (m1, hit) = at_breakpoint (record m { except_pending = false; next_delay_insn = false }) in
    if hit then stopped m1 else execute d (fetch_insn bus m1)

-- `SR[EPH]` chooses the prefix of the vectors.
abbrev pub prefix : Machine → ℕ
prefix m = if test (m.sprs spr_sr) spr_sr_eph then 0xf000_0000 else 0

abbrev pub max_gprs : ℕ
max_gprs = 32

unfoldable pub cpu_reset : Machine → Machine
unfolding update_pc
cpu_reset m =
    let m1 = record m {
      cycles = 0;
      instructions = 0;
      reg = λ i. if ltb i max_gprs then 0 else m.reg i;
      insn_addr = 0;
      insn = 0;
      sbuf = record m.sbuf { head = 0; tail = 0; count = 0; prev_cycles = pos 0 };
    } in
    let m2 = record m1 { pc = prefix m1; pcnext = prefix m1 + 4 } in
    let m3 = update_pc (except_handle reset 0 m2) in
    record m3 { except_pending = false; pc = prefix m3 + 0x100 }
