-- ===== src/Sched/Remove.antt =====
-- `sched_find_remove` and the start of a round of `do_scheduler`, or1ksim/support/sched.c, beside
-- the list of deadlines.
use openrisc_tools.Prelude.{
  ℕ, ◌≡◌, ◌≤◌, ◌↔◌, refl, ap, List, [], ◌∷◌, none, some, Bool-cases, inl, inr, arith, length,
}
use openrisc_tools.Prelude.Int.{ℤ, pos, ◌+ℤ◌, int_laws}
use openrisc_tools.Sched.Defs.{
  Entry, Scheduler, remove, is_job, pass_time, sched_find_remove, take_job, take_from,
}
use openrisc_tools.Sched.Deadlines.{deadlines, cancel}

deadlines-pass_time :
    (before : ℤ) (cur : Entry) (rest : List Entry)
    → deadlines before (pass_time cur rest) ≡ deadlines (before +ℤ cur.time) rest
unfolding deadlines
deadlines-pass_time before cur [] = refl
deadlines-pass_time before cur (next ∷ rest) =
    let same : before +ℤ (next.time +ℤ cur.time) ≡ before +ℤ cur.time +ℤ next.time =
      omega int_laws in
    rw same

remove_lem :
    (f p : ℕ) (before : ℤ) (es : List Entry)
    → deadlines before (remove f p es) ≡ cancel f p (deadlines before es)
unfolding remove deadlines cancel
remove_lem f p before [] = refl
remove_lem f p before (cur ∷ rest) = elim (Bool-cases (is_job f p cur)) [
  | inl hit ↦ rw hit (deadlines-pass_time before cur rest)
  | inr miss ↦ rw miss (
      ap (λ ds. record { due = before +ℤ cur.time; arg = cur.param; job = cur.func } ∷ ds)
        (remove_lem f p (before +ℤ cur.time) rest))
]

-- Removing a job cancels the first one of that function and argument, and changes no deadline.
pub sched_find_remove_lem :
    (s : Scheduler) (f p : ℕ)
    → deadlines (pos 0) (sched_find_remove f p s).job_queue
      ≡ cancel f p (deadlines (pos 0) s.job_queue)
unfolding sched_find_remove
sched_find_remove_lem s f p = remove_lem f p (pos 0) s.job_queue

-- With two jobs or more, the start of a round of the scheduler takes the job that is due first and
-- frees its structure, and the others keep their deadlines.
pub take_job_lem :
    (s : Scheduler) (tmp next : Entry) (rest : List Entry)
    → s.job_queue ≡ tmp ∷ next ∷ rest
    → (s' : Scheduler) × (take_job s ≡ some (tmp, s'))
      × (deadlines (pos 0) s.job_queue
          ≡ record { due = tmp.time; arg = tmp.param; job = tmp.func }
            ∷ deadlines (pos 0) s'.job_queue)
      × (s'.free_job_queue ≡ tmp ∷ s.free_job_queue)
unfolding take_job take_from deadlines
take_job_lem s tmp next rest jobs = (
  record {
    free_job_queue = tmp ∷ s.free_job_queue;
    job_queue = record next { time = next.time +ℤ tmp.time } ∷ rest;
  },
  rw jobs,
  rw jobs (rw (start, moved)),
  refl,
)
  where
    start : pos 0 +ℤ tmp.time ≡ tmp.time
    start = omega int_laws

    moved : pos 0 +ℤ (next.time +ℤ tmp.time) ≡ tmp.time +ℤ next.time
    moved = omega int_laws

-- The job behind is not tested for null: a round faults exactly when fewer than two jobs are queued,
-- so also when the guard is the only one.
pub take_job-none_iff : (s : Scheduler) → (take_job s ≡ none) ↔ (length s.job_queue ≤ 1)
unfolding take_job take_from
take_job-none_iff s = cases s.job_queue s.free_job_queue
  where
    cases : (jobs free : List Entry) → (take_from jobs free ≡ none) ↔ (length jobs ≤ 1)
    cases [] free = (λ _. omega arith, λ _. refl)
    cases (a ∷ []) free = (λ _. omega arith, λ _. refl)
    cases (a ∷ b ∷ r) free = (λ h. cc, λ h. absurd (omega arith))
