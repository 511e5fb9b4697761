-- ===== src/Sched/Defs.antt =====
-- The state and the operations of the scheduler.
use openrisc_tools.Prelude.{
  ℕ, zero, suc, ◌-◌, ◌^◌, Bool, ◌&&◌, Option, none, some, List, [], ◌∷◌, ◌==◌, if◌then◌else◌, ◌>>=◌,
}
use openrisc_tools.Prelude.Int.{ℤ, pos, ◌+ℤ◌, ◌-ℤ◌, ltb_ℤ, leb_ℤ}

pub record Entry : Type 0 where
  pub time : ℤ
  pub param : ℕ
  pub func : ℕ

pub record Scheduler : Type 0 where
  pub free_job_queue : List Entry
  pub job_queue : List Entry

abbrev pub sched_heap_size : ℕ
sched_heap_size = 128

abbrev pub sched_time_max : ℤ
sched_time_max = pos (2 ^ 31 - 1)

-- The addresses of the job functions of the modelled files; a device's are above these.
abbrev pub sched_guard_fn : ℕ
sched_guard_fn = 1

-- `if (cur) alltime += cur->time`.
abbrev pub advance : ℤ → List Entry → ℤ
advance alltime [] = alltime
advance alltime (cur ∷ rest) = alltime +ℤ cur.time

-- The sums of `int32_t` times are those of integers here and below, which they agree with where
-- none overflows.
--
-- The search of `sched_add` once `prev` is set, and the insertion behind `prev`. The jobs that are
-- passed stay in place.
unfoldable pub insert_after : ℕ → ℕ → ℤ → ℤ → List Entry → List Entry
insert_after f p job_time alltime [] =
    record { time = job_time -ℤ (alltime -ℤ pos 0); param = p; func = f } ∷ []
insert_after f p job_time alltime (cur ∷ rest) =
    let t = job_time -ℤ (alltime -ℤ cur.time) in
    if ltb_ℤ alltime job_time
    then cur ∷ insert_after f p job_time (advance alltime rest) rest
    else record { time = t; param = p; func = f } ∷ record cur { time = cur.time -ℤ t } ∷ rest

-- The queue after `sched_add`, for a queue that begins with `cur`.
unfoldable pub insert : ℕ → ℕ → ℤ → Entry → List Entry → List Entry
insert f p job_time cur rest =
    let t = if leb_ℤ (pos 0) job_time then job_time else cur.time in
    if ltb_ℤ cur.time job_time
    then cur ∷ insert_after f p job_time (advance cur.time rest) rest
    else record { time = t; param = p; func = f } ∷ record cur { time = cur.time -ℤ t } ∷ rest

-- Both lists are read with no test: an empty one is a null pointer.
unfoldable pub add_to : List Entry → List Entry → ℕ → ℕ → ℤ → Option Scheduler
add_to [] free f p job_time = none
add_to (cur ∷ rest) [] f p job_time = none
add_to (cur ∷ rest) (new_job ∷ free) f p job_time =
    some (record { free_job_queue = free; job_queue = insert f p job_time cur rest })

unfoldable pub sched_add : ℕ → ℕ → ℤ → Scheduler → Option Scheduler
unfolding add_to
sched_add f p job_time s = add_to s.job_queue s.free_job_queue f p job_time

-- The `else` branch leaves the argument that the free structure held.
unfoldable pub refill : List Entry → Option Scheduler
refill [] = none
refill (new_job ∷ free) = some (record {
  free_job_queue = free;
  job_queue = record new_job { func = sched_guard_fn; time = sched_time_max } ∷ [];
})

unfoldable pub sched_guard : ℕ → Scheduler → Option Scheduler
unfolding refill
sched_guard dat s = elim s.job_queue [
  | [] ↦ refill s.free_job_queue
  | _ ↦ sched_add sched_guard_fn dat sched_time_max s
]

-- The loop of `sched_reset`: each job goes to the front of the free list.
unfoldable pub release_all : List Entry → List Entry → List Entry
release_all [] free = free
release_all (cur ∷ rest) free = release_all rest (cur ∷ free)

unfoldable pub sched_reset : Scheduler → Option Scheduler
unfolding release_all
sched_reset s =
    sched_guard 0
      (record { free_job_queue = release_all s.job_queue s.free_job_queue; job_queue = [] })

-- `malloc` answers with some structure for each of the rounds; a null answer ends the program.
unfoldable pub allocate : (ℕ → Option Entry) → ℕ → List Entry → Option (List Entry)
allocate malloc zero free = some free
allocate malloc (suc i) free = malloc i >>= λ new. allocate malloc i (new ∷ free)

unfoldable pub sched_init : (ℕ → Option Entry) → Option Scheduler
unfolding allocate
sched_init malloc = allocate malloc sched_heap_size [] >>= λ free.
    sched_guard 0 (record { free_job_queue = free; job_queue = [] })

-- The part of a round of `do_scheduler` before the call of the job's function: the first job is
-- taken off, and its time is added to the job behind it, which is not tested for null.
unfoldable pub take_from : List Entry → List Entry → Option (Entry × Scheduler)
take_from [] free = none
take_from (tmp ∷ []) free = none
take_from (tmp ∷ next ∷ rest) free = some (
  tmp,
  record {
    free_job_queue = tmp ∷ free;
    job_queue = record next { time = next.time +ℤ tmp.time } ∷ rest;
  },
)

unfoldable pub take_job : Scheduler → Option (Entry × Scheduler)
unfolding take_from
take_job s = take_from s.job_queue s.free_job_queue

abbrev pub is_job : ℕ → ℕ → Entry → Bool
is_job f p cur = cur.func == f && cur.param == p

-- `if (cur->next) cur->next->time += cur->time`.
abbrev pub pass_time : Entry → List Entry → List Entry
pass_time cur [] = []
pass_time cur (next ∷ rest) = record next { time = next.time +ℤ cur.time } ∷ rest

-- The queue without the first job of this function and argument, and the structure that it frees.
unfoldable pub remove : ℕ → ℕ → List Entry → List Entry
remove f p [] = []
remove f p (cur ∷ rest) = if is_job f p cur then pass_time cur rest else cur ∷ remove f p rest

unfoldable pub freed : ℕ → ℕ → List Entry → List Entry → List Entry
freed f p [] free = free
freed f p (cur ∷ rest) free = if is_job f p cur then cur ∷ free else freed f p rest free

unfoldable pub sched_find_remove : ℕ → ℕ → Scheduler → Scheduler
unfolding remove freed
sched_find_remove f p s = record {
  free_job_queue = freed f p s.job_queue s.free_job_queue;
  job_queue = remove f p s.job_queue;
}

-- `while (cur && cur->time < 0) cycles -= cur->time`.
unfoldable pub overdue_cycles : ℤ → List Entry → ℤ
overdue_cycles cycles [] = cycles
overdue_cycles cycles (cur ∷ rest) =
    if ltb_ℤ cur.time (pos 0) then overdue_cycles (cycles -ℤ cur.time) rest else cycles

unfoldable pub sched_next_insn : ℕ → ℕ → Scheduler → Option Scheduler
unfolding overdue_cycles
sched_next_insn f p s = sched_add f p (overdue_cycles (pos 1) s.job_queue) s
