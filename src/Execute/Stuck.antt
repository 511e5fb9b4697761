-- ===== src/Execute/Stuck.antt =====
-- A timer in restart mode with a period of 0: or1ksim/tick/tick.c under or1ksim/support/sched.c.
use openrisc_tools.Prelude.{
  ℕ, zero, suc, ◌≡◌, ◌∙◌, refl, ap, arith, Option, some, false, List, ◌∷◌, if_false, ◌>>=◌, bit_and,
}
use openrisc_tools.Prelude.Int.{pos, ◌+ℤ◌, ◌-ℤ◌, ◌≤ℤ◌, ◌<ℤ◌, ltb_ℤ, int_laws}
use openrisc_tools.Sched.{Entry, Scheduler, take_job, take_from, sched_add, add_to, insert}
use openrisc_tools.Machine.{Machine, set_spr, tick_restart_fn, spr_ttmr, spr_ttcr, spr_ttmr_tp}
use openrisc_tools.Tick.{tick_restart}
use openrisc_tools.Execute.Main.{running, call_job, run_job, do_scheduler}

-- The restart of the timer is due, its period is 0, and the job behind it is due later.
pub record IsStuck (m : Machine) : Type 0 where
  pub period : bit_and (m.sprs spr_ttmr) spr_ttmr_tp ≡ 0
  pub cur : Entry
  pub next : Entry
  pub rest : List Entry
  pub queue : m.sched.job_queue ≡ cur ∷ next ∷ rest
  pub restart : cur.func ≡ tick_restart_fn
  pub due : cur.time ≤ℤ pos 0
  pub later : pos 0 <ℤ next.time +ℤ cur.time

module _ (devices : ℕ → ℕ → Machine → Option Machine) where
  -- A round comes back to such a state.
  abbrev again : (m : Machine) → IsStuck m → Machine
  again m s = record (set_spr spr_ttcr 0 m) {
    cycle_count_at_tick_start = pos m.cycles;
    sched = record {
      free_job_queue = m.sched.free_job_queue;
      job_queue =
          record { time = pos 0; param = 0; func = tick_restart_fn }
          ∷ record s.next { time = s.next.time +ℤ s.cur.time -ℤ pos 0 }
          ∷ s.rest;
    };
  }

  again-IsStuck : (m : Machine) (s : IsStuck m) → IsStuck (again m s)
  again-IsStuck m s = record {
    period = s.period;
    cur = record { time = pos 0; param = 0; func = tick_restart_fn };
    next = record s.next { time = s.next.time +ℤ s.cur.time -ℤ pos 0 };
    rest = s.rest;
    queue = refl;
    restart = refl;
    due = omega arith;
    later = let l = s.later in omega int_laws;
  }

  -- The job behind, with the time passed on.
  abbrev behind : (m : Machine) → IsStuck m → Entry
  behind m s = record s.next { time = s.next.time +ℤ s.cur.time }

  filed :
      (m : Machine) (s : IsStuck m)
      → insert tick_restart_fn 0 (pos 0) (behind m s) s.rest ≡ (again m s).sched.job_queue
  unfolding insert
  filed m s =
      let l = s.later in
      let not_before : ltb_ℤ (s.next.time +ℤ s.cur.time) (pos 0) ≡ false = ground arith in
      if_false _ _ not_before

  abbrev taken : (m : Machine) → IsStuck m → Machine
  taken m s = record m {
    sched = record {
      free_job_queue = s.cur ∷ m.sched.free_job_queue;
      job_queue = behind m s ∷ s.rest;
    };
  }

  restarted : (m : Machine) (s : IsStuck m) → tick_restart (taken m s) ≡ some (again m s)
  unfolding tick_restart sched_add add_to
  restarted m s =
      let restart = λ (t : ℕ). record (set_spr spr_ttcr 0 m) {
        cycle_count_at_tick_start = pos m.cycles;
        sched = record {
          free_job_queue = m.sched.free_job_queue;
          job_queue = insert tick_restart_fn 0 (pos t) (behind m s) s.rest;
        };
      } in
      ap (λ t. some (restart t)) s.period
      ∙ ap
          (λ q. some (record (again m s) {
            sched = record { free_job_queue = m.sched.free_job_queue; job_queue = q };
          }))
          (filed m s)

  run_job-again : (m : Machine) (s : IsStuck m) → run_job (call_job devices) m ≡ some (again m s)
  unfolding run_job call_job take_job take_from
  run_job-again m s =
      ap
        (λ q. take_from q m.sched.free_job_queue >>= λ (x : Entry × Scheduler).
          call_job devices x.0.func x.0.param (record m { sched = x.1 }))
        s.queue
      ∙ ap (λ f. call_job devices f s.cur.param (taken m s)) s.restart
      ∙ restarted m s

  -- Where the restart of a timer with period 0 is due, and the job behind it is not, no number of
  -- rounds is enough for the loop of the scheduler: the restart is always due again.
  pub do_scheduler-IsStuck :
      (fuel : ℕ) (m : Machine)
      → IsStuck m
      → (m' : Machine) × (do_scheduler (call_job devices) fuel m ≡ running m') × IsStuck m'
  unfolding do_scheduler
  do_scheduler-IsStuck zero m s = (m, refl, s)
  do_scheduler-IsStuck (suc fuel) m s =
      let (m', e, s') = do_scheduler-IsStuck fuel (again m s) (again-IsStuck m s) in
      (m', rw (do_scheduler, run_job-again m s) e, s')
