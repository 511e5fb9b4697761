-- ===== src/Sched/Overdue.antt =====
-- How many jobs are due, and the operations of or1ksim/support/sched.c that do not make it more.
use mathlib.Core.Path.{subst}
use mathlib.Core.Option.{some_inj, none-ne-some}
use openrisc_tools.Prelude.{
  ℕ, ◌+◌, ◌≤◌, ◌≡◌, ◌∙◌, sym, refl, ap, arith, List, [], ◌∷◌, ◌&&◌, ◌==◌, some, Bool-cases, inl,
  inr, if◌then◌else◌, false,
}
use openrisc_tools.Prelude.Int.{ℤ, pos, ◌+ℤ◌, ◌-ℤ◌, ◌<ℤ◌, ltb_ℤ, leb_ℤ, int_laws, ltb_ℤ→lt}
use openrisc_tools.Sched.Defs.{
  Entry, Scheduler, add_to, sched_add, sched_find_remove, take_job, take_from, overdue_cycles,
  sched_next_insn, insert, sched_guard, refill, sched_guard_fn, sched_time_max,
}
use openrisc_tools.Sched.Deadlines.{Due, deadlines, schedule, cancel}
use openrisc_tools.Sched.Add.{due_at, insert_lem}
use openrisc_tools.Sched.Remove.{take_job_lem, sched_find_remove_lem}

abbrev pub is_due : Due → ℕ
is_due d = if leb_ℤ d.due (pos 0) then 1 else 0

unfoldable pub overdue : List Due → ℕ
overdue [] = 0
overdue (d ∷ ds) = is_due d + overdue ds

abbrev pub due_jobs : Scheduler → ℕ
due_jobs s = overdue (deadlines (pos 0) s.job_queue)

overdue-schedule :
    (new : Due) (ds : List Due) → pos 0 <ℤ new.due → overdue (schedule new ds) ≡ overdue ds
unfolding overdue schedule
overdue-schedule new [] h = ground arith
overdue-schedule new (d ∷ ds) h = elim (Bool-cases (ltb_ℤ d.due new.due)) [
  | inl before ↦ rw before (omega (arith, overdue-schedule new ds h))
  | inr behind ↦
      let later : leb_ℤ new.due (pos 0) ≡ false = ground arith in rw (behind, later) (omega arith)
]

overdue-cancel : (f p : ℕ) (ds : List Due) → overdue (cancel f p ds) ≤ overdue ds
unfolding overdue cancel
overdue-cancel f p [] = omega arith
overdue-cancel f p (d ∷ ds) = elim (Bool-cases (d.job == f && d.arg == p)) [
  | inl hit ↦ rw hit (omega arith)
  | inr miss ↦ rw miss (omega (arith, overdue-cancel f p ds))
]

-- A job that is filed for later.
pub due_jobs-sched_add :
    (f p : ℕ) (t : ℤ) (s s' : Scheduler)
    → pos 0 <ℤ t
    → sched_add f p t s ≡ some s'
    → due_jobs s' ≡ due_jobs s
unfolding sched_add add_to
due_jobs-sched_add f p t s s' h e = cases s.job_queue s.free_job_queue refl e
  where
    cases :
        (jobs free : List Entry)
        → s.job_queue ≡ jobs
        → add_to jobs free f p t ≡ some s'
        → due_jobs s' ≡ due_jobs s
    cases [] free j e = absurd (none-ne-some s' e)
    cases (cur ∷ rest) [] j e = absurd (none-ne-some s' e)
    cases (cur ∷ rest) (new_job ∷ free) j e =
        let queue : s'.job_queue ≡ insert f p t cur rest =
          ap (λ (x : Scheduler). x.job_queue) (sym (some_inj.0 e)) in
        ap (λ es. overdue (deadlines (pos 0) es)) queue
        ∙ ap overdue (insert_lem f p t cur rest (inl (ground arith)))
        ∙ overdue-schedule (due_at t f p) (deadlines (pos 0) (cur ∷ rest)) h
        ∙ ap (λ es. overdue (deadlines (pos 0) es)) (sym j)

overdue_cycles-pos : (c : ℤ) (es : List Entry) → pos 0 <ℤ c → pos 0 <ℤ overdue_cycles c es
unfolding overdue_cycles
overdue_cycles-pos c [] h = h
overdue_cycles-pos c (cur ∷ rest) h = elim (Bool-cases (ltb_ℤ cur.time (pos 0))) [
  | inl late ↦
      let past = ltb_ℤ→lt cur.time (pos 0) late in
      rw late (overdue_cycles-pos (c -ℤ cur.time) rest (omega int_laws))
  | inr not_late ↦ rw not_late h
]

pub due_jobs-sched_next_insn :
    (f p : ℕ) (s s' : Scheduler) → sched_next_insn f p s ≡ some s' → due_jobs s' ≡ due_jobs s
unfolding sched_next_insn
due_jobs-sched_next_insn f p s s' e =
    due_jobs-sched_add f p (overdue_cycles (pos 1) s.job_queue) s s'
      (overdue_cycles-pos (pos 1) s.job_queue (omega arith)) e

pub due_jobs-sched_find_remove :
    (f p : ℕ) (s : Scheduler) → due_jobs (sched_find_remove f p s) ≤ due_jobs s
due_jobs-sched_find_remove f p s =
    rw (sched_find_remove_lem s f p) (overdue-cancel f p (deadlines (pos 0) s.job_queue))

-- The job that is taken off is no longer counted.
pub due_jobs-take_job :
    (s s' : Scheduler) (tmp : Entry)
    → take_job s ≡ some (tmp, s')
    → due_jobs s ≡ (if leb_ℤ tmp.time (pos 0) then 1 else 0) + due_jobs s'
unfolding take_job overdue
due_jobs-take_job s s' tmp e = cases s.job_queue s.free_job_queue refl e e
  where
    cases :
        (jobs free : List Entry)
        → s.job_queue ≡ jobs
        → take_from jobs free ≡ some (tmp, s')
        → take_job s ≡ some (tmp, s')
        → due_jobs s ≡ (if leb_ℤ tmp.time (pos 0) then 1 else 0) + due_jobs s'
    cases [] free j e taking = absurd (none-ne-some (tmp, s') e)
    cases (a ∷ []) free j e taking = absurd (none-ne-some (tmp, s') e)
    cases (a ∷ b ∷ r) free j e taking =
        let (s'', taken, queue, pool) = take_job_lem s a b r j in
        subst
          (λ (x : Entry × Scheduler).
            due_jobs s ≡ (if leb_ℤ x.0.time (pos 0) then 1 else 0) + due_jobs x.1)
          (some_inj.0 (sym taken ∙ taking)) (ap overdue queue)

refill-overdue : (free : List Entry) (s' : Scheduler) → refill free ≡ some s' → due_jobs s' ≡ 0
unfolding refill overdue deadlines
refill-overdue [] s' e = absurd (none-ne-some s' e)
refill-overdue (new_job ∷ free) s' e =
    subst (λ (s : Scheduler). due_jobs s ≡ 0) (some_inj.0 e)
      (let late : leb_ℤ (pos 0 +ℤ sched_time_max) (pos 0) ≡ false = unfold ◌+ℤ◌ in refl in rw late)

queued-overdue :
    (p : ℕ) (jobs free : List Entry) (s' : Scheduler)
    → let s : Scheduler = record { free_job_queue = free; job_queue = jobs } in
      sched_guard p s ≡ some s' → due_jobs s' ≤ due_jobs s
unfolding sched_guard
queued-overdue p [] free s' e = omega (arith, refill-overdue free s' e)
queued-overdue p (cur ∷ rest) free s' e = omega (
  arith,
  due_jobs-sched_add sched_guard_fn p sched_time_max
      (record { free_job_queue = free; job_queue = cur ∷ rest }) s' (omega arith) e,
)

-- The guard files itself for the latest time.
pub due_jobs-sched_guard :
    (p : ℕ) (s s' : Scheduler) → sched_guard p s ≡ some s' → due_jobs s' ≤ due_jobs s
due_jobs-sched_guard p s s' e = queued-overdue p s.job_queue s.free_job_queue s' e
