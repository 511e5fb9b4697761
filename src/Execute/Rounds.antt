-- ===== src/Execute/Rounds.antt =====
-- The loop of `do_scheduler`, or1ksim/support/sched.c, over the jobs of the modelled files.
use mathlib.Core.Path.{subst}
use mathlib.Core.Option.{some_inj, none-ne-some}
use openrisc_tools.Prelude.{
  ℕ, zero, suc, ◌+◌, ◌≤◌, ◌<◌, ◌≡◌, ◌∙◌, sym, refl, ap, arith, Option, some, Option-cases,
  Bool-cases, inl, inr, true, false, List, [], ◌∷◌, if◌then◌else◌,
}
use openrisc_tools.Prelude.Int.{pos, ◌+ℤ◌, leb_ℤ, int_laws}
use openrisc_tools.Sched.{Entry, Scheduler, take_job, take_from}
use openrisc_tools.Sched.Overdue.{overdue, due_jobs, due_jobs-take_job}
use openrisc_tools.Sched.Deadlines.{deadlines}
use openrisc_tools.Machine.{Machine}
use openrisc_tools.Execute.Main.{Run, finished, null, run_job, head_is_due, do_scheduler}

-- The loop ends: with no job due, or with a read through a null pointer.
pub data Ends (P : Machine → Type 0) (r : Run) : Type 0 where
  rests :
      (m : Machine) → r ≡ finished m → head_is_due m.sched.job_queue ≡ some false → P m → Ends P r
  faults : r ≡ null → Ends P r

take_job-head :
    (s s' : Scheduler) (tmp : Entry)
    → take_job s ≡ some (tmp, s')
    → head_is_due s.job_queue ≡ some (leb_ℤ tmp.time (pos 0))
unfolding take_job head_is_due
take_job-head s s' tmp e = cases s.job_queue s.free_job_queue refl e
  where
    cases :
        (jobs free : List Entry)
        → s.job_queue ≡ jobs
        → take_from jobs free ≡ some (tmp, s')
        → head_is_due s.job_queue ≡ some (leb_ℤ tmp.time (pos 0))
    cases [] free j e = absurd (none-ne-some (tmp, s') e)
    cases (a ∷ []) free j e = absurd (none-ne-some (tmp, s') e)
    cases (a ∷ b ∷ r) free j e =
        ap head_is_due j
        ∙ ap (λ (x : Entry × Scheduler). some (leb_ℤ x.0.time (pos 0))) (some_inj.0 e)

head-overdue : (es : List Entry) → head_is_due es ≡ some true → 0 < overdue (deadlines (pos 0) es)
unfolding head_is_due overdue deadlines
head-overdue [] h = absurd (none-ne-some true h)
head-overdue (e ∷ es) h =
    let start : pos 0 +ℤ e.time ≡ e.time = omega int_laws in rw (start, some_inj.0 h) (omega arith)

module _ (call : ℕ → ℕ → Machine → Option Machine) (P : Machine → Type 0)
    (kept : (m : Machine) (s : Scheduler) → P m → P (record m { sched = s }))
    (patient : (f p : ℕ) (m m' : Machine)
      → P m
      → call f p m ≡ some m'
      → P m' × (due_jobs m'.sched ≤ due_jobs m.sched)) where
  -- A round takes the first job, and its call adds none that is due.
  run_job_lem :
      (m m' : Machine)
      → P m
      → head_is_due m.sched.job_queue ≡ some true
      → run_job call m ≡ some m'
      → P m' × (suc (due_jobs m'.sched) ≤ due_jobs m.sched)
  unfolding run_job
  run_job_lem m m' h due e = elim (Option-cases (take_job m.sched)) [
    | inl nothing ↦ absurd (none-ne-some m' (sym (rw nothing) ∙ e))
    | inr ((tmp, s), taken) ↦
        let first : leb_ℤ tmp.time (pos 0) ≡ true =
          some_inj.0 (sym (take_job-head m.sched s tmp taken) ∙ due) in
        let called : call tmp.func tmp.param (record m { sched = s }) ≡ some m' =
          sym (rw taken) ∙ e in
        let (h', fewer) =
          patient tmp.func tmp.param (record m { sched = s }) m' (kept m s h) called in
        let counted = due_jobs-take_job m.sched s tmp taken in
        (h', omega (arith, counted ∙ ap (λ b. (if b then 1 else 0) + due_jobs s) first))
  ]

  pub do_scheduler-Ends :
      (fuel : ℕ) (m : Machine)
      → P m
      → head_is_due m.sched.job_queue ≡ some true
      → due_jobs m.sched ≤ fuel
      → Ends P (do_scheduler call fuel m)
  unfolding do_scheduler
  do_scheduler-Ends zero m h due k = absurd (omega (arith, head-overdue m.sched.job_queue due))
  do_scheduler-Ends (suc fuel) m h due k = elim (Option-cases (run_job call m)) [
    | inl fault ↦ faults (rw (do_scheduler, fault) refl)
    | inr (m', went) ↦
        let (h', fewer) = run_job_lem m m' h due went in
        elim (Option-cases (head_is_due m'.sched.job_queue)) [
          | inl empty ↦ faults (rw (do_scheduler, went, empty) refl)
          | inr (b, next) ↦ elim (Bool-cases b) [
            | inl more ↦
                subst (Ends P) (sym (rw (do_scheduler, went, next, more) refl))
                  (do_scheduler-Ends fuel m' h' (next ∙ ap some more) (omega arith))
            | inr done ↦
                rests m' (rw (do_scheduler, went, next, done) refl) (next ∙ ap some done) h'
          ]
        ]
  ]
