-- ===== src/Sched/Add.antt =====
-- `sched_add` of or1ksim/support/sched.c beside the list of deadlines.
use openrisc_tools.Prelude.{
  ℕ, ◌≡◌, refl, sym, ap, ◌∙◌, true, false, List, [], ◌∷◌, some, Bool-cases, ◌⊎◌, inl, inr, arith,
}
use openrisc_tools.Prelude.Int.{ℤ, pos, ◌+ℤ◌, ◌-ℤ◌, ◌≤ℤ◌, ◌<ℤ◌, ltb_ℤ, leb_ℤ, int_laws}
use openrisc_tools.Sched.Defs.{Entry, Scheduler, advance, insert_after, insert, add_to, sched_add}
use openrisc_tools.Sched.Deadlines.{Due, deadlines, schedule}

-- The sums of the search come back to the deadline that was asked for.
due_behind : (t before all c : ℤ) → all ≡ before +ℤ c → before +ℤ (t -ℤ (all -ℤ c)) ≡ t
due_behind t before all c h = rw h (omega int_laws)

due_kept : (t before c : ℤ) → before +ℤ t +ℤ (c -ℤ t) ≡ before +ℤ c
due_kept t before c = omega int_laws

abbrev pub due_at : ℤ → ℕ → ℕ → Due
due_at t f p = record { due = t; arg = p; job = f }

place :
    (f p : ℕ) (t d before : ℤ) (cur : Entry) (rest : List Entry)
    → before +ℤ d ≡ t
    → deadlines before
        (record { time = d; param = p; func = f } ∷ record cur { time = cur.time -ℤ d } ∷ rest)
      ≡ due_at t f p ∷ deadlines before (cur ∷ rest)
unfolding deadlines
place f p t d before cur rest h = rw (due_kept d before cur.time, h)

insert_after_lem :
    (f p : ℕ) (t before : ℤ) (es : List Entry)
    → deadlines before (insert_after f p t (advance before es) es)
      ≡ schedule (due_at t f p) (deadlines before es)
unfolding insert_after deadlines schedule
insert_after_lem f p t before [] =
    ap (λ x. due_at x f p ∷ []) (due_behind t before before (pos 0) (omega int_laws))
insert_after_lem f p t before (cur ∷ rest) = elim (Bool-cases (ltb_ℤ (before +ℤ cur.time) t)) [
  | inl later ↦ rw later (
      ap (λ ds. due_at (before +ℤ cur.time) cur.func cur.param ∷ ds)
        (insert_after_lem f p t (before +ℤ cur.time) rest))
  | inr here ↦ rw here (place f p t _ before cur rest (due_behind t before _ cur.time refl))
]

-- At the head the code stores the time as it is, which is what the sums would give.
insert-insert_after :
    (f p : ℕ) (t : ℤ) (cur : Entry) (rest : List Entry)
    → (pos 0 ≤ℤ t) ⊎ (cur.time <ℤ t)
    → insert f p t cur rest ≡ insert_after f p t cur.time (cur ∷ rest)
unfolding insert insert_after
insert-insert_after f p t cur rest h = elim (Bool-cases (ltb_ℤ cur.time t)) [
  | inl later ↦ rw later
  | inr here ↦
      let stored : t -ℤ (cur.time -ℤ cur.time) ≡ t = omega int_laws in
      let test : leb_ℤ (pos 0) t ≡ true = ground arith in rw (here, stored, test)
]

pub insert_lem :
    (f p : ℕ) (t : ℤ) (cur : Entry) (rest : List Entry)
    → (pos 0 ≤ℤ t) ⊎ (cur.time <ℤ t)
    → deadlines (pos 0) (insert f p t cur rest)
      ≡ schedule (due_at t f p) (deadlines (pos 0) (cur ∷ rest))
insert_lem f p t cur rest h =
    let start : pos 0 +ℤ cur.time ≡ cur.time = omega int_laws in
    ap (deadlines (pos 0)) (insert-insert_after f p t cur rest h)
    ∙ ap (λ a. deadlines (pos 0) (insert_after f p t a (cur ∷ rest))) (sym start)
    ∙ insert_after_lem f p t (pos 0) (cur ∷ rest)

-- A job whose time is negative is filed at the deadline of the first job.
pub insert_past :
    (f p : ℕ) (t : ℤ) (cur : Entry) (rest : List Entry)
    → t <ℤ pos 0
    → t ≤ℤ cur.time
    → deadlines (pos 0) (insert f p t cur rest)
      ≡ due_at cur.time f p ∷ deadlines (pos 0) (cur ∷ rest)
unfolding insert
insert_past f p t cur rest h k =
    let test : leb_ℤ (pos 0) t ≡ false = ground arith in
    let here : ltb_ℤ cur.time t ≡ false = ground arith in
    rw (test, here) (place f p cur.time cur.time (pos 0) cur rest (omega int_laws))

-- A job with a time of at least 0 is filed in front of the first job that is due no earlier, at its
-- own deadline; every other job keeps its deadline and its place, and one free structure is used.
pub sched_add_lem :
    (s : Scheduler) (f p : ℕ) (t : ℤ) (cur new_job : Entry) (rest free : List Entry)
    → pos 0 ≤ℤ t
    → s.job_queue ≡ cur ∷ rest
    → s.free_job_queue ≡ new_job ∷ free
    → (s' : Scheduler) × (sched_add f p t s ≡ some s')
      × (deadlines (pos 0) s'.job_queue ≡ schedule (due_at t f p) (deadlines (pos 0) s.job_queue))
      × (s'.free_job_queue ≡ free)
unfolding sched_add
sched_add_lem s f p t cur new_job rest free h jobs pool = (
  record { free_job_queue = free; job_queue = insert f p t cur rest },
  rw (jobs, pool, add_to),
  rw jobs (insert_lem f p t cur rest (inl h)),
  refl,
)
