-- ===== src/Sched/Room.antt =====
-- The states of the scheduler in which a number of jobs can be added. The clients of the scheduler
-- use these laws and never its lists.
use openrisc_tools.Prelude.{
  ℕ, suc, ◌≤◌, ◌≡◌, ◌≢◌, refl, List, [], ◌∷◌, some, true, ◌⊎◌, inl, inr, Bool-cases, length, arith,
}
use openrisc_tools.Prelude.Int.{ℤ, pos, ◌≤ℤ◌, ltb_ℤ}
use openrisc_tools.Sched.Defs.{
  Entry, Scheduler, insert_after, insert, advance, add_to, sched_add, sched_find_remove, remove,
  freed, is_job, pass_time, sched_guard_fn, sched_next_insn, overdue_cycles,
}
use openrisc_tools.Sched.Deadlines.{deadlines, schedule}
use openrisc_tools.Sched.Add.{insert_lem, due_at}

abbrev pub IsGuarded : List Entry → Type 0
IsGuarded [] = ⊥
IsGuarded (e ∷ es) = (e.func ≡ sched_guard_fn) ⊎ IsGuarded es

-- The guard is queued and at least `n` jobs can be added.
pub record HasRoom (n : ℕ) (s : Scheduler) : Type 0 where
  pub guarded : IsGuarded s.job_queue
  pub spare : n ≤ length s.free_job_queue

insert_after-IsGuarded :
    (f p : ℕ) (t all : ℤ) (es : List Entry) → IsGuarded es → IsGuarded (insert_after f p t all es)
unfolding insert_after
insert_after-IsGuarded f p t all [] g = absurd g
insert_after-IsGuarded f p t all (cur ∷ rest) g = elim (Bool-cases (ltb_ℤ all t)) [
  | inl later ↦ rw later (ground (arith, g, insert_after-IsGuarded f p t (advance all rest) rest))
  | inr here ↦ rw here (inr g)
]

insert-IsGuarded :
    (f p : ℕ) (t : ℤ) (cur : Entry) (rest : List Entry)
    → IsGuarded (cur ∷ rest)
    → IsGuarded (insert f p t cur rest)
unfolding insert
insert-IsGuarded f p t cur rest g = elim (Bool-cases (ltb_ℤ cur.time t)) [
  | inl later ↦
      rw later (ground (arith, g, insert_after-IsGuarded f p t (advance cur.time rest) rest))
  | inr here ↦ rw here (inr g)
]

-- A job can be added, after which there is room for one less.
pub sched_add-HasRoom :
    (s : Scheduler) (f p n : ℕ) (t : ℤ)
    → HasRoom (suc n) s
    → (s' : Scheduler) × (sched_add f p t s ≡ some s')
      × HasRoom n s'
      × (pos 0 ≤ℤ t
          → deadlines (pos 0) s'.job_queue
            ≡ schedule (due_at t f p) (deadlines (pos 0) s.job_queue))
unfolding sched_add
sched_add-HasRoom s f p n t r = cases s.job_queue s.free_job_queue r.guarded r.spare
  where
    cases :
        (jobs free : List Entry)
        → IsGuarded jobs
        → suc n ≤ length free
        → (s' : Scheduler) × (add_to jobs free f p t ≡ some s')
          × HasRoom n s'
          × (pos 0 ≤ℤ t
              → deadlines (pos 0) s'.job_queue ≡ schedule (due_at t f p) (deadlines (pos 0) jobs))
    cases [] free g h = absurd g
    cases (cur ∷ rest) [] g h = absurd (omega arith)
    cases (cur ∷ rest) (new_job ∷ free) g h = (
      record { free_job_queue = free; job_queue = insert f p t cur rest },
      refl,
      record { guarded = insert-IsGuarded f p t cur rest g; spare = omega arith },
      λ k. insert_lem f p t cur rest (inl k),
    )

pass_time-IsGuarded :
    (cur : Entry) (rest : List Entry) → IsGuarded rest → IsGuarded (pass_time cur rest)
pass_time-IsGuarded cur [] g = g
pass_time-IsGuarded cur (next ∷ rest) g = g

remove-IsGuarded :
    (f p : ℕ) (es : List Entry) → f ≢ sched_guard_fn → IsGuarded es → IsGuarded (remove f p es)
unfolding remove
remove-IsGuarded f p [] ne g = g
remove-IsGuarded f p (cur ∷ rest) ne g = elim (Bool-cases (is_job f p cur)) [
  | inl hit ↦ rw hit (pass_time-IsGuarded cur rest (behind g hit))
  | inr miss ↦ rw miss (ground (arith, g, remove-IsGuarded f p rest ne))
]
  where
    behind : IsGuarded (cur ∷ rest) → is_job f p cur ≡ true → IsGuarded rest
    behind (inl e) hit = absurd (ground arith)
    behind (inr r) hit = r

length-le-freed : (f p : ℕ) (es free : List Entry) → length free ≤ length (freed f p es free)
unfolding freed
length-le-freed f p [] free = omega arith
length-le-freed f p (cur ∷ rest) free = ground (arith, length-le-freed f p rest free)

-- Removing a job other than the guard takes no room.
pub sched_find_remove-HasRoom :
    (s : Scheduler) (f p n : ℕ)
    → f ≢ sched_guard_fn
    → HasRoom n s
    → HasRoom n (sched_find_remove f p s)
unfolding sched_find_remove
sched_find_remove-HasRoom s f p n ne r = record {
  guarded = remove-IsGuarded f p s.job_queue ne r.guarded;
  spare = omega (arith, r.spare, length-le-freed f p s.job_queue s.free_job_queue);
}

-- So can the job that is to run behind the next instruction.
pub sched_next_insn-HasRoom :
    (s : Scheduler) (f p n : ℕ)
    → HasRoom (suc n) s
    → (s' : Scheduler) × (sched_next_insn f p s ≡ some s') × HasRoom n s'
unfolding sched_next_insn
sched_next_insn-HasRoom s f p n r =
    let (s', e, h, d) = sched_add-HasRoom s f p n (overdue_cycles (pos 1) s.job_queue) r in
    (s', e, h)
