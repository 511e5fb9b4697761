-- ===== src/Sched/Pool.antt =====
-- The well-formed states of the scheduler, or1ksim/support/sched.c, and the operations on them.
use openrisc_tools.Prelude.{
  All, ℕ, zero, suc, ◌+◌, ◌≡◌, refl, ap, ◌∙◌, List, [], ◌∷◌, Option, none, some, arith, inl, inr,
  ◌≢◌, Option-cases, length,
}
use mathlib.Core.Option.{some_inj}
use mathlib.Core.Path.{subst}
use openrisc_tools.Prelude.Int.{pos, ◌+ℤ◌, ◌≤ℤ◌, int_laws}
use openrisc_tools.Sched.Defs.{
  Entry, Scheduler, take_job, take_from, sched_find_remove, sched_heap_size, sched_time_max,
  allocate, sched_init, sched_guard, refill, release_all, sched_reset, sched_guard_fn,
}
use openrisc_tools.Sched.Deadlines.{Due, deadlines, IsOrdered}
use openrisc_tools.Sched.Bounds.{All-cancel, remove-IsOrdered, length-freed}
use openrisc_tools.Sched.Remove.{sched_find_remove_lem}

abbrev pub Fits : Due → Type 0
Fits d = d.due ≤ℤ sched_time_max

pub record IsWellFormed (s : Scheduler) : Type 0 where
  pub pooled : length s.free_job_queue + length s.job_queue ≡ sched_heap_size
  pub ordered : IsOrdered s.job_queue
  pub fits : All Fits (deadlines (pos 0) s.job_queue)

rest-Fits :
    (a b : Entry) (r : List Entry)
    → All Fits (deadlines (pos 0) (a ∷ b ∷ r))
    → All Fits (deadlines (pos 0) (record b { time = b.time +ℤ a.time } ∷ r))
unfolding deadlines
rest-Fits a b r h =
    let moved : pos 0 +ℤ (b.time +ℤ a.time) ≡ pos 0 +ℤ a.time +ℤ b.time = omega int_laws in
    rw moved h.1

-- A round of the scheduler that takes a job off a well-formed queue leaves it well formed.
pub take_job-IsWellFormed :
    (s s' : Scheduler) (tmp : Entry)
    → IsWellFormed s
    → take_job s ≡ some (tmp, s')
    → IsWellFormed s'
unfolding take_job take_from
take_job-IsWellFormed s s' tmp w e = cases s.job_queue s.free_job_queue refl refl e
  where
    cases :
        (jobs free : List Entry)
        → s.job_queue ≡ jobs
        → s.free_job_queue ≡ free
        → take_from jobs free ≡ some (tmp, s')
        → IsWellFormed s'
    cases [] free j k e = cc
    cases (a ∷ []) free j k e = cc
    cases (a ∷ b ∷ r) free j k e =
        subst IsWellFormed (ap (λ (x : Entry × Scheduler). x.1) (some_inj.0 e)) (record {
          pooled = omega (arith, rw (j, k) at w.pooled);
          ordered = (rw j at w.ordered).1;
          fits = rest-Fits a b r (rw j at w.fits);
        })

-- The removal of a job from a well-formed queue leaves it well formed, whether or not the job is
-- there.
pub sched_find_remove-IsWellFormed :
    (s : Scheduler) (f p : ℕ) → IsWellFormed s → IsWellFormed (sched_find_remove f p s)
sched_find_remove-IsWellFormed s f p w = record {
  pooled = unfold sched_find_remove in length-freed f p s.job_queue s.free_job_queue ∙ w.pooled;
  ordered = unfold sched_find_remove in remove-IsOrdered f p s.job_queue w.ordered;
  fits =
      rw (sched_find_remove_lem s f p) (All-cancel Fits f p (deadlines (pos 0) s.job_queue) w.fits);
}

-- With one structure or more, the emptied scheduler is refilled with the guard alone.
sched_guard-empty :
    (free : List Entry) (dat n : ℕ)
    → length free ≡ suc n
    → (s : Scheduler) × (sched_guard dat (record { free_job_queue = free; job_queue = [] })
        ≡ some s)
      × (length s.free_job_queue ≡ n)
      × (e : Entry) × (s.job_queue ≡ e ∷ [])
      × (e.time ≡ sched_time_max)
      × (e.func ≡ sched_guard_fn)
unfolding sched_guard refill
sched_guard-empty [] dat n h = absurd (omega arith)
sched_guard-empty (e ∷ es) dat n h = (
  record {
    free_job_queue = es;
    job_queue = record e { time = sched_time_max; func = sched_guard_fn } ∷ [];
  },
  refl,
  omega arith,
  record e { time = sched_time_max; func = sched_guard_fn },
  refl,
  refl,
  refl,
)

-- The guard alone in the queue, with every other structure free.
pub record IsGuardOnly (s : Scheduler) : Type 0 where
  pub guard : Entry
  pub alone : s.job_queue ≡ guard ∷ []
  pub at_max : guard.time ≡ sched_time_max
  pub func_guard : guard.func ≡ sched_guard_fn
  pub others_free : length s.free_job_queue + 1 ≡ sched_heap_size

refilled :
    (free : List Entry)
    → length free ≡ sched_heap_size
    → (s : Scheduler) × (sched_guard 0 (record { free_job_queue = free; job_queue = [] }) ≡ some s)
      × IsGuardOnly s
refilled free h =
    let (s, e, n, g, alone, at_max, func_guard) = sched_guard-empty free 0 127 h in
    (
      s,
      e,
      record {
        guard = g;
        alone = alone;
        at_max = at_max;
        func_guard = func_guard;
        others_free = omega arith;
      },
    )

length-release_all :
    (jobs free : List Entry) → length (release_all jobs free) ≡ length jobs + length free
unfolding release_all
length-release_all [] free = omega arith
length-release_all (cur ∷ rest) free = omega (arith, length-release_all rest (cur ∷ free))

-- A reset of a scheduler that has lost no structure leaves the guard alone, whatever was queued.
pub sched_reset-IsGuardOnly :
    (s : Scheduler)
    → length s.free_job_queue + length s.job_queue ≡ sched_heap_size
    → (s' : Scheduler) × (sched_reset s ≡ some s') × IsGuardOnly s'
unfolding sched_reset
sched_reset-IsGuardOnly s h =
    refilled (release_all s.job_queue s.free_job_queue)
      (omega (arith, length-release_all s.job_queue s.free_job_queue))

length-allocate :
    (malloc : ℕ → Option Entry) (n : ℕ) (free : List Entry)
    → ((i : ℕ) → malloc i ≢ none)
    → (es : List Entry) × (allocate malloc n free ≡ some es) × (length es ≡ n + length free)
unfolding allocate
length-allocate malloc zero free h = (free, refl, omega arith)
length-allocate malloc (suc i) free h = elim (Option-cases (malloc i)) [
  | inl bad ↦ absurd (h i bad)
  | inr found ↦
      let (es, e, n) = length-allocate malloc i (found.0 ∷ free) h in
      (es, rw found.1 e, omega arith)
]

-- Where every allocation succeeds, the initial scheduler holds the guard alone.
pub sched_init-IsGuardOnly :
    (malloc : ℕ → Option Entry)
    → ((i : ℕ) → malloc i ≢ none)
    → (s : Scheduler) × (sched_init malloc ≡ some s) × IsGuardOnly s
unfolding sched_init
sched_init-IsGuardOnly malloc h =
    let (es, e, n) = length-allocate malloc sched_heap_size [] h in
    let (s, made, only) = refilled es (omega arith) in (s, rw e made, only)

-- The initial state satisfies the invariant.
pub IsGuardOnly-IsWellFormed : (s : Scheduler) → IsGuardOnly s → IsWellFormed s
IsGuardOnly-IsWellFormed s g = record {
  pooled = rw g.alone (g.others_free);
  ordered = rw g.alone tt;
  fits = unfold deadlines in rw (g.alone, g.at_max) (omega int_laws, tt);
}
