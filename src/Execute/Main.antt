-- ===== src/Execute/Main.antt =====
-- The jobs that the scheduler calls, and a round of the main loop.
use openrisc_tools.Prelude.{
  ℕ, zero, suc, ◌+◌, Bool, true, false, not, ◌&&◌, ◌||◌, ◌==◌, if◌then◌else◌, Option, none, some,
  List, [], ◌∷◌, bit_and, bit_or, ◌>>=◌,
}
use openrisc_tools.Prelude.Int.{ℤ, pos, ◌-ℤ◌, leb_ℤ}
use openrisc_tools.Sched.{Entry, take_job, sched_guard, sched_guard_fn}
use openrisc_tools.Machine.{
  Machine, test, with_sched, pic_rep_int_fn, tick_raise_except_fn, tick_restart_fn,
  tick_one_shot_fn, spr_pmr, spr_pmr_dme, spr_pmr_sme, spr_dmr1, spr_dmr1_st,
}
use openrisc_tools.Except.{set_stall_state, rsp_signal, trap}
use openrisc_tools.Pic.{pic_rep_int}
use openrisc_tools.Tick.{tick_raise_except, tick_restart, tick_one_shot}
use openrisc_tools.Memory.{Bus}
use openrisc_tools.Execute.Defs.{Decoder, Clock, clocked, stopped, crashed, over, cpu_clock}

-- `tmp->func (tmp->param)`: the functions of the modelled files by their numbers, and those of the
-- devices.
unfoldable pub call_job : (ℕ → ℕ → Machine → Option Machine) → ℕ → ℕ → Machine → Option Machine
unfolding pic_rep_int tick_raise_except tick_restart tick_one_shot
call_job devices func param m =
    if func == sched_guard_fn
    then with_sched (sched_guard param) m
    else if func == pic_rep_int_fn
    then some (pic_rep_int m)
    else if func == tick_raise_except_fn
    then tick_raise_except m
    else if func == tick_restart_fn
    then tick_restart m
    else if func == tick_one_shot_fn
    then some (tick_one_shot m)
    else devices func param m

-- The loop of the scheduler ends, reads through a null pointer, or is out of fuel.
pub data Run : Type 0 where
  finished running : Machine → Run
  null : Run

-- One round of `do_scheduler`.
unfoldable pub run_job : (ℕ → ℕ → Machine → Option Machine) → Machine → Option Machine
unfolding take_job
run_job call m = take_job m.sched >>= λ (tmp, s). call tmp.func tmp.param (record m { sched = s })

-- The test of the loop: nothing is due.
unfoldable pub head_is_due : List Entry → Option Bool
head_is_due [] = none
head_is_due (e ∷ es) = some (leb_ℤ e.time (pos 0))

unfoldable pub do_scheduler : (ℕ → ℕ → Machine → Option Machine) → ℕ → Machine → Run
unfolding run_job head_is_due
do_scheduler call zero m = running m
do_scheduler call (suc fuel) m = elim (run_job call m) [
  | none ↦ null
  | some m' ↦
      let rest = do_scheduler call fuel m' in
      elim (head_is_due m'.sched.job_queue) [
        | none ↦ null
        | some due ↦ if due then rest else finished m'
      ]
]

-- `scheduler.job_queue->time -= cycles`.
unfoldable pub spend : ℤ → List Entry → Option (List Entry)
spend cycles [] = none
spend cycles (e ∷ es) = some (record e { time = e.time -ℤ cycles } ∷ es)

-- `config.pm.enabled & (cpu_state.sprs[SPR_PMR] & (SPR_PMR_DME | SPR_PMR_SME))`, as a condition.
abbrev pub is_asleep : Machine → Bool
is_asleep m =
    let modes = bit_and (m.sprs spr_pmr) (bit_or spr_pmr_dme spr_pmr_sme) in
    if bit_and m.config.pm_enabled modes == 0 then false else true

-- A single-step trace stalls the processor.
unfoldable pub step_trace : Machine → Machine
unfolding set_stall_state rsp_signal
step_trace m =
    let stalled = set_stall_state true m in
    if m.config.debug_enabled && test (m.sprs spr_dmr1) spr_dmr1_st
    then record stalled { sigval = if m.config.rsp_enabled then rsp_signal trap else m.sigval }
    else m

-- The end of a round, which began at the cycle `start`.
unfoldable pub finish_round : (ℕ → ℕ → Machine → Option Machine) → ℕ → ℕ → Machine → Run
unfolding spend do_scheduler head_is_due
finish_round call fuel start m =
    let m1 = record m { cycles = m.cycles + m.mem_cycles } in
    elim (spend (pos m1.cycles -ℤ pos start) m1.sched.job_queue) [
      | none ↦ null
      | some jobs ↦
          let m2 = record m1 { sched = record m1.sched { job_queue = jobs } } in
          let called = do_scheduler call fuel m2 in
          elim (head_is_due jobs) [ none ↦ null | some due ↦ if due then called else finished m2 ]
    ]

-- A round of `exec_main` for a processor that is not stalled, up to the commands of the user:
-- a breakpoint that is hit, and the end of the program, leave the loop.
pub data Round : Type 0 where
  turned : Run → Round
  broke : Machine → Round
  quit crash : Round

unfoldable pub end_round : (ℕ → ℕ → Machine → Option Machine) → ℕ → ℕ → Clock → Round
unfolding step_trace finish_round
end_round call fuel start (clocked m) = turned (finish_round call fuel start (step_trace m))
end_round call fuel start (stopped m) = broke m
end_round call fuel start crashed = crash
end_round call fuel start over = quit

-- Without the trace of an instruction, which peeks into the instruction TLB when output is not
-- hushed.
unfoldable pub exec_round : Decoder → Bus → (ℕ → ℕ → Machine → Option Machine) → ℕ → Machine → Round
unfolding cpu_clock end_round
exec_round d bus call fuel m =
    let m1 = record m { mem_cycles = 0 } in
    end_round call fuel m.cycles
      (if m.config.pm_enabled == 0 || not (is_asleep m) then cpu_clock d bus m1 else clocked m1)
