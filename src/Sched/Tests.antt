-- ===== src/Sched/Tests.antt =====
-- Runs of the scheduler, and its theorems at concrete queues.
use openrisc_tools.Prelude.{◌+◌, ◌^◌, ℕ, zero, suc, ◌≡◌, refl, List, [], ◌∷◌, some, arith}
use openrisc_tools.Prelude.Int.{pos, negsuc, ◌+ℤ◌, ◌-ℤ◌}
use openrisc_tools.Sched.Defs.{
  Entry, Scheduler, sched_time_max, sched_add, insert, insert_after, sched_find_remove,
}
use openrisc_tools.Sched.Deadlines.{deadlines, schedule, cancel}
use openrisc_tools.Sched.Add.{due_at, sched_add_lem}
use openrisc_tools.Sched.Remove.{sched_find_remove_lem}
use openrisc_tools.Sched.Pool.{IsWellFormed}

abbrev empty_entry : Entry
empty_entry = record { time = pos 0; param = 0; func = 0 }

abbrev uart : Entry
uart = record { time = pos 7; param = 4; func = 9 }

abbrev guard_later : Entry
guard_later = record { time = pos 100; param = 0; func = 1 }

abbrev busy : Scheduler
busy = record {
  free_job_queue = empty_entry ∷ empty_entry ∷ [];
  job_queue = uart ∷ guard_later ∷ [];
}

-- A job at 10 goes between those at 7 and 107.
added_between :
    sched_add 5 0 (pos 10) busy
    ≡ some (record {
      free_job_queue = empty_entry ∷ [];
      job_queue =
          uart
          ∷ record { time = pos 3; param = 0; func = 5 }
          ∷ record guard_later { time = pos 97 }
          ∷ [];
    })
unfolding sched_add insert insert_after ◌+ℤ◌ ◌-ℤ◌
added_between = refl

sched_add_lem_example :
    (s' : Scheduler) × (sched_add 5 0 (pos 10) busy ≡ some s')
    × (deadlines (pos 0) s'.job_queue
        ≡ schedule (due_at (pos 10) 5 0) (deadlines (pos 0) busy.job_queue))
    × (s'.free_job_queue ≡ empty_entry ∷ [])
sched_add_lem_example =
    sched_add_lem busy 5 0 (pos 10) uart empty_entry (guard_later ∷ []) (empty_entry ∷ [])
      (omega arith) refl refl

sched_find_remove_lem_example :
    deadlines (pos 0) (sched_find_remove 9 4 busy).job_queue
    ≡ cancel 9 4 (deadlines (pos 0) busy.job_queue)
sched_find_remove_lem_example = sched_find_remove_lem busy 9 4

abbrev guard_alone : Scheduler
guard_alone = record busy { job_queue = guard_later ∷ [] }

-- The first job is three cycles late.
abbrev late : Scheduler
late = record busy { job_queue = record uart { time = negsuc 2 } ∷ guard_later ∷ [] }

fill : ℕ → List Entry
fill zero = []
fill (suc n) = empty_entry ∷ fill n

abbrev whole : Scheduler
whole = record { free_job_queue = fill 126; job_queue = uart ∷ guard_later ∷ [] }

whole-IsWellFormed : IsWellFormed whole
unfolding fill deadlines ◌+ℤ◌
whole-IsWellFormed = record { pooled = refl; ordered = omega arith; fits = omega arith }

-- The first job is three cycles late.
abbrev whole_late : Scheduler
whole_late = record whole { job_queue = record uart { time = negsuc 2 } ∷ guard_later ∷ [] }

-- The guard's own time behind that job would be stored as INT32_MAX + 3.
too_late :
    insert_after 1 0 sched_time_max (negsuc 2) []
    ≡ record { time = pos (2 ^ 31 + 2); param = 0; func = 1 } ∷ []
unfolding insert_after ◌-ℤ◌
too_late = refl
