-- ===== src/Execute/Jobs.antt =====
-- The jobs of the modelled files file nothing that is due at once, and the loop of `do_scheduler`,
-- or1ksim/support/sched.c, ends.
use mathlib.Core.Path.{subst}
use mathlib.Core.Option.{some_inj, none-ne-some}
use openrisc_tools.Prelude.{
  ℕ, ◌≤◌, ◌≡◌, ◌≢◌, ◌∙◌, sym, refl, arith, Option, some, Option-cases, Bool-cases, inl, inr, true,
  if◌then◌else◌, in_both, ◌==◌, bit_and, bit_or,
}
use openrisc_tools.Prelude.Bits.{mask_laws}
use openrisc_tools.Prelude.Int.{ℤ, pos, ◌<ℤ◌}
use openrisc_tools.Sched.{sched_add, sched_next_insn, sched_guard, sched_guard_fn}
use openrisc_tools.Sched.Overdue.{
  due_jobs, due_jobs-sched_add, due_jobs-sched_next_insn, due_jobs-sched_guard,
}
use openrisc_tools.Machine.{
  Machine, set_spr, test, with_sched, schedule_job, pic_rep_int_fn, tick_raise_except_fn,
  tick_restart_fn, tick_one_shot_fn, spr_ttmr, spr_ttcr, spr_ttmr_tp, spr_ttmr_ip, spr_picsr,
  spr_eear_base, spr_sr, spr_sr_tee,
}
use openrisc_tools.Except.{
  Exception, except_handle, debug_ignore_exception, set_stall_state, deliver,
}
use openrisc_tools.Except.Delivery.{deliver-Frame}
use openrisc_tools.Pic.{pic_rep_int}
use openrisc_tools.Tick.{tick_raise_except, tick_restart, tick_one_shot}
use openrisc_tools.Execute.Main.{call_job, do_scheduler, head_is_due}
use openrisc_tools.Execute.Rounds.{Ends, do_scheduler-Ends}

-- The period of the timer is not 0.
abbrev pub HasPeriod : Machine → Type 0
HasPeriod m = bit_and (m.sprs spr_ttmr) spr_ttmr_tp ≢ 0

-- What a job leaves: the period, and no more jobs that are due.
abbrev pub IsPatient : Machine → Machine → Type 0
IsPatient m m' = HasPeriod m' × (due_jobs m'.sched ≤ due_jobs m.sched)

-- The timer and the queue are as they were.
SameTimer : Machine → Machine → Type 0
SameTimer m m' = (m'.sprs spr_ttmr ≡ m.sprs spr_ttmr) × (m'.sched ≡ m.sched)

SameTimer-IsPatient : (m m' : Machine) → SameTimer m m' → HasPeriod m → IsPatient m m'
unfolding SameTimer
SameTimer-IsPatient m m' same h = (rw same.0 h, rw same.1 (omega arith))

deliver-SameTimer : (e : Exception) (ea : ℕ) (m : Machine) → SameTimer m (deliver e ea m)
unfolding deliver SameTimer
deliver-SameTimer e ea m = (deliver-Frame e ea m spr_ttmr, refl)

SameTimer-trans : (m m' m'' : Machine) → SameTimer m m' → SameTimer m' m'' → SameTimer m m''
unfolding SameTimer
SameTimer-trans m m' m'' s t = (t.0 ∙ s.0, t.1 ∙ s.1)

ignoring-SameTimer : (e : Exception) (m : Machine) → SameTimer m (debug_ignore_exception e m).0
unfolding debug_ignore_exception set_stall_state SameTimer
ignoring-SameTimer e m = (refl, refl)

except_handle-SameTimer :
    (e : Exception) (ea : ℕ) (m : Machine) → SameTimer m (except_handle e ea m)
unfolding except_handle
except_handle-SameTimer e ea m =
    let out = debug_ignore_exception e m in
    let seen = ignoring-SameTimer e m in
    in_both (SameTimer m) out.1 out.0 (deliver e ea out.0) seen
      (SameTimer-trans m out.0 (deliver e ea out.0) seen (deliver-SameTimer e ea out.0))

pic_rep_int-SameTimer : (m : Machine) → SameTimer m (pic_rep_int m)
unfolding pic_rep_int SameTimer
pic_rep_int-SameTimer m = elim (Bool-cases (m.sprs spr_picsr == 0)) [
  | inl clear ↦ rw clear (refl, refl)
  | inr raised ↦ rw raised (except_handle-SameTimer Exception.int (m.sprs spr_eear_base) m)
]

-- A job that is filed for later.
schedule_job-IsPatient :
    (f p : ℕ) (t : ℤ) (m m' : Machine)
    → pos 0 <ℤ t
    → HasPeriod m
    → schedule_job f p t m ≡ some m'
    → IsPatient m m'
schedule_job-IsPatient f p t m m' h period e = elim (Option-cases (sched_add f p t m.sched)) [
  | inl fault ↦ absurd (none-ne-some m' (sym (rw fault) ∙ e))
  | inr (s, added) ↦
      let same : record m { sched = s } ≡ m' = some_inj.0 (sym (rw added) ∙ e) in
      subst (IsPatient m) same (period, omega (arith, due_jobs-sched_add f p t m.sched s h added))
]

-- The interrupt of the timer.
pending_period : (x : ℕ) → bit_and (bit_or x spr_ttmr_ip) spr_ttmr_tp ≡ bit_and x spr_ttmr_tp
pending_period x = simp mask_laws

raise : Machine → Machine
raise m =
    if test (m.sprs spr_sr) spr_sr_tee
    then except_handle Exception.tick (m.sprs spr_eear_base) m
    else m

raise-SameTimer : (m : Machine) → SameTimer m (raise m)
unfolding raise
raise-SameTimer m =
    in_both (SameTimer m) (test (m.sprs spr_sr) spr_sr_tee) _ m
      (except_handle-SameTimer Exception.tick (m.sprs spr_eear_base) m)
      (unfold SameTimer in (refl, refl))

tick_raise_except-IsPatient :
    (m m' : Machine) → HasPeriod m → tick_raise_except m ≡ some m' → IsPatient m m'
unfolding tick_raise_except raise
tick_raise_except-IsPatient m m' period e =
    elim (Option-cases (sched_next_insn tick_raise_except_fn 0 m.sched)) [
      | inl fault ↦ absurd (none-ne-some m' (sym (rw fault) ∙ e))
      | inr (s, added) ↦
          let filed = record (set_spr spr_ttmr (bit_or (m.sprs spr_ttmr) spr_ttmr_ip) m) {
            sched = s;
          } in
          let same : raise filed ≡ m' = some_inj.0 (sym (rw added refl) ∙ e) in
          let after =
            SameTimer-IsPatient filed (raise filed) (raise-SameTimer filed)
              (rw (pending_period (m.sprs spr_ttmr)) period) in
          subst (IsPatient m) same (
            after.0,
            omega (arith, after.1, due_jobs-sched_next_insn tick_raise_except_fn 0 m.sched s added),
          )
    ]

tick_restart-IsPatient : (m m' : Machine) → HasPeriod m → tick_restart m ≡ some m' → IsPatient m m'
unfolding tick_restart
tick_restart-IsPatient m m' period e =
    let m0 = record (set_spr spr_ttcr 0 m) { cycle_count_at_tick_start = pos m.cycles } in
    schedule_job-IsPatient tick_restart_fn 0 (pos (bit_and (m.sprs spr_ttmr) spr_ttmr_tp)) m0 m'
      (ground (arith, period)) period e

tick_one_shot-SameTimer : (m : Machine) → SameTimer m (tick_one_shot m)
unfolding tick_one_shot SameTimer
tick_one_shot-SameTimer m = (refl, refl)

-- The guard files itself for the latest time.
guard-IsPatient :
    (p : ℕ) (m m' : Machine) → HasPeriod m → with_sched (sched_guard p) m ≡ some m' → IsPatient m m'
guard-IsPatient p m m' period e = elim (Option-cases (sched_guard p m.sched)) [
  | inl fault ↦ absurd (none-ne-some m' (sym (rw fault) ∙ e))
  | inr (s, added) ↦
      let same : record m { sched = s } ≡ m' = some_inj.0 (sym (rw added) ∙ e) in
      subst (IsPatient m) same (period, due_jobs-sched_guard p m.sched s added)
]

module _ (devices : ℕ → ℕ → Machine → Option Machine)
    (patient : (f p : ℕ) (m m' : Machine)
      → HasPeriod m
      → devices f p m ≡ some m'
      → IsPatient m m') where
  call_job-IsPatient :
      (f p : ℕ) (m m' : Machine) → HasPeriod m → call_job devices f p m ≡ some m' → IsPatient m m'
  unfolding call_job
  call_job-IsPatient f p m m' period =
      let Patient = λ (out : Option Machine). out ≡ some m' → IsPatient m m' in
      let unchanged = λ (m'' : Machine) (same : SameTimer m m'') (e : some m'' ≡ some m').
        subst (IsPatient m) (some_inj.0 e) (SameTimer-IsPatient m m'' same period) in
      in_both Patient (f == sched_guard_fn) (with_sched (sched_guard p) m) _
        (guard-IsPatient p m m' period)
        (in_both Patient (f == pic_rep_int_fn) (some (pic_rep_int m)) _
          (unchanged (pic_rep_int m) (pic_rep_int-SameTimer m))
          (in_both Patient (f == tick_raise_except_fn) (tick_raise_except m) _
            (tick_raise_except-IsPatient m m' period)
            (in_both Patient (f == tick_restart_fn) (tick_restart m) _
              (tick_restart-IsPatient m m' period)
              (in_both Patient (f == tick_one_shot_fn) (some (tick_one_shot m)) (devices f p m)
                (unchanged (tick_one_shot m) (tick_one_shot-SameTimer m))
                (patient f p m m' period)))))

  -- Where the timer has a period, and the jobs of the devices leave it one and file nothing that is
  -- due at once: as many rounds as jobs are due, however they come to be called, are enough for the
  -- loop of the scheduler, unless it meets a null pointer. Then no job is due, and the timer has a
  -- period.
  pub do_scheduler_lem :
      (fuel : ℕ) (m : Machine)
      → HasPeriod m
      → head_is_due m.sched.job_queue ≡ some true
      → due_jobs m.sched ≤ fuel
      → Ends HasPeriod (do_scheduler (call_job devices) fuel m)
  do_scheduler_lem fuel m period due k =
      do_scheduler-Ends (call_job devices) HasPeriod (λ m' s h. h) call_job-IsPatient fuel m period
        due k
