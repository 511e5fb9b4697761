-- ===== src/Tick/Jobs.antt =====
-- The jobs of the timer, or1ksim/tick/tick.c, in the scheduler's list of deadlines.
use openrisc_tools.Prelude.{
  ℕ, suc, ◌≡◌, ◌≢◌, refl, ap, ◌∙◌, not, ◌&&◌, List, [], ◌∷◌, ◌++◌, Option, some, ◌>>=◌, ◌==◌,
  if◌then◌else◌, bit_and, arith, Bool-cases, inl, inr,
}
use openrisc_tools.Prelude.Int.{pos}
use openrisc_tools.Sched.{Scheduler}
use openrisc_tools.Sched.Deadlines.{Due, deadlines, schedule, cancel}
use openrisc_tools.Sched.Add.{due_at}
use openrisc_tools.Sched.Remove.{sched_find_remove_lem}
use openrisc_tools.Sched.Room.{HasRoom, sched_add-HasRoom, sched_find_remove-HasRoom}
use openrisc_tools.Machine.{
  Machine, test, schedule_job, tick_raise_except_fn, tick_restart_fn, tick_one_shot_fn, spr_ttmr,
  spr_ttmr_tp, spr_ttmr_ip, spr_ttmr_ie, spr_ttmr_m, spr_ttmr_rt, spr_ttmr_sr, spr_ttmr_cr,
}
use openrisc_tools.Tick.Defs.{
  spr_read_ttcr, cycles_until_except, drop_timer_jobs, add_timer_jobs, add_raise, sched_timer_job,
  unschedule,
}

abbrev pub queue : Machine → List Due
queue m = deadlines (pos 0) m.sched.job_queue

-- The jobs of a timer in this mode whose next match is `t` cycles away, in the order of the calls.
unfoldable pub raise_plan : ℕ → ℕ → List Due
raise_plan ttmr t =
    if test ttmr spr_ttmr_ie && not (test ttmr spr_ttmr_ip)
    then due_at (pos t) tick_raise_except_fn 0 ∷ []
    else []

unfoldable pub timer_plan : ℕ → ℕ → ℕ → List Due
unfolding raise_plan
timer_plan counting ttmr t =
    let mode = bit_and ttmr spr_ttmr_m in
    if mode == 0
    then if t == 0 then raise_plan ttmr 0 else []
    else if mode == spr_ttmr_rt
    then due_at (pos t) tick_restart_fn 0 ∷ raise_plan ttmr t
    else if mode == spr_ttmr_sr
    then if counting == 0 then [] else due_at (pos t) tick_one_shot_fn 0 ∷ raise_plan ttmr t
    else if mode == spr_ttmr_cr
    then raise_plan ttmr t
    else []

unfoldable pub schedule_all : List Due → List Due → List Due
schedule_all [] ds = ds
schedule_all (p ∷ ps) ds = schedule_all ps (schedule p ds)

-- `f` changes nothing but the scheduler, and adds this plan to it.
abbrev Adds : List Due → Machine → Option Machine → Type 0
Adds plan m r =
    (s : Scheduler) × (r ≡ some (record m { sched = s }))
    × (deadlines (pos 0) s.job_queue ≡ schedule_all plan (queue m))

schedule_job-Adds :
    (f t n : ℕ) (m : Machine)
    → HasRoom (suc n) m.sched
    → (s : Scheduler) × (schedule_job f 0 (pos t) m ≡ some (record m { sched = s }))
      × (deadlines (pos 0) s.job_queue ≡ schedule (due_at (pos t) f 0) (queue m))
      × HasRoom n s
schedule_job-Adds f t n m r =
    let (s, e, h, d) = sched_add-HasRoom m.sched f 0 n (pos t) r in (s, rw e, d (omega arith), h)

add_raise-Adds :
    (ttmr t n : ℕ) (m : Machine)
    → HasRoom (suc n) m.sched
    → Adds (raise_plan ttmr t) m (add_raise ttmr t m)
unfolding add_raise raise_plan schedule_all
add_raise-Adds ttmr t n m r =
    elim (Bool-cases (test ttmr spr_ttmr_ie && not (test ttmr spr_ttmr_ip))) [
      | inl on ↦
          let (s, e, d, h) = schedule_job-Adds tick_raise_except_fn t n m r in rw on (s, e, d)
      | inr off ↦ rw off (m.sched, refl, refl)
    ]

-- A job of the timer and then the exception.
two-Adds :
    (f ttmr t : ℕ) (m : Machine)
    → HasRoom 2 m.sched
    → Adds
        (due_at (pos t) f 0 ∷ raise_plan ttmr t)
        m
        (schedule_job f 0 (pos t) m >>= add_raise ttmr t)
unfolding schedule_all
two-Adds f ttmr t m r =
    let (s, e, d, h) = schedule_job-Adds f t 1 m r in
    let (s', e', d') = add_raise-Adds ttmr t 0 (record m { sched = s }) h in
    (s', rw e e', d' ∙ ap (schedule_all (raise_plan ttmr t)) d)

none-Adds : (m : Machine) → Adds [] m (some m)
unfolding schedule_all
none-Adds m = (m.sched, refl, refl)

add_timer_jobs-Adds :
    (ttmr t : ℕ) (m : Machine)
    → HasRoom 2 m.sched
    → Adds (timer_plan m.tick_counting ttmr t) m (add_timer_jobs ttmr t m)
unfolding add_timer_jobs timer_plan
add_timer_jobs-Adds ttmr t m r = elim (Bool-cases (bit_and ttmr spr_ttmr_m == 0)) [
  | inl off ↦ elim (Bool-cases (t == 0)) [
    | inl now ↦ rw (off, now) (add_raise-Adds ttmr 0 1 m r)
    | inr later ↦ rw (off, later) (none-Adds m)
  ]
  | inr on ↦ elim (Bool-cases (bit_and ttmr spr_ttmr_m == spr_ttmr_rt)) [
    | inl restart ↦ rw (on, restart) (two-Adds tick_restart_fn ttmr t m r)
    | inr not_rt ↦ elim (Bool-cases (bit_and ttmr spr_ttmr_m == spr_ttmr_sr)) [
      | inl single ↦ elim (Bool-cases (m.tick_counting == 0)) [
        | inl stopped ↦ rw (on, not_rt, single, stopped) (none-Adds m)
        | inr counting ↦ rw (on, not_rt, single, counting) (two-Adds tick_one_shot_fn ttmr t m r)
      ]
      | inr not_sr ↦ elim (Bool-cases (bit_and ttmr spr_ttmr_m == spr_ttmr_cr)) [
        | inl continuous ↦ rw (on, not_rt, not_sr, continuous) (add_raise-Adds ttmr t 1 m r)
        | inr other ↦ rw (on, not_rt, not_sr, other) (none-Adds m)
      ]
    ]
  ]
]

-- The job functions whose jobs are taken off, by the previous and the new TTMR.
unfoldable pub stale_jobs : ℕ → ℕ → List ℕ
stale_jobs prev_ttmr ttmr =
    let mode = bit_and prev_ttmr spr_ttmr_m in
    (if test prev_ttmr spr_ttmr_ie && not (test ttmr spr_ttmr_ip)
      then tick_raise_except_fn ∷ []
      else [])
    ++ (if mode == spr_ttmr_rt
        then tick_restart_fn ∷ []
        else if mode == spr_ttmr_sr
        then tick_one_shot_fn ∷ []
        else [])

unfoldable pub cancel_all : List ℕ → List Due → List Due
cancel_all [] ds = ds
cancel_all (f ∷ fs) ds = cancel_all fs (cancel f 0 ds)

abbrev Drops : List ℕ → Machine → Machine → Type 0
Drops fs m m' =
    (s : Scheduler) × (m' ≡ record m { sched = s })
    × (deadlines (pos 0) s.job_queue ≡ cancel_all fs (queue m))
    × HasRoom 2 s

drop-nil : (m : Machine) → HasRoom 2 m.sched → Drops [] m m
unfolding cancel_all
drop-nil m r = (m.sched, refl, refl, r)

drop-cons :
    (f : ℕ) (fs : List ℕ) (m m' : Machine)
    → f ≢ 1
    → HasRoom 2 m.sched
    → (HasRoom 2 (unschedule f m).sched → Drops fs (unschedule f m) m')
    → Drops (f ∷ fs) m m'
unfolding cancel_all
drop-cons f fs m m' ne r rest =
    let (s, e, d, h) = rest (sched_find_remove-HasRoom m.sched f 0 2 ne r) in
    (s, e, d ∙ ap (cancel_all fs) (sched_find_remove_lem m.sched f 0), h)

drop_mode-Drops :
    (mode : ℕ) (m : Machine)
    → HasRoom 2 m.sched
    → Drops
        (if mode == spr_ttmr_rt
          then tick_restart_fn ∷ []
          else if mode == spr_ttmr_sr
          then tick_one_shot_fn ∷ []
          else [])
        m
        (if mode == spr_ttmr_rt
          then unschedule tick_restart_fn m
          else if mode == spr_ttmr_sr
          then unschedule tick_one_shot_fn m
          else m)
drop_mode-Drops mode m r = elim (Bool-cases (mode == spr_ttmr_rt)) [
  | inl restart ↦ rw restart (drop-cons tick_restart_fn [] m _ (omega arith) r (drop-nil _))
  | inr not_rt ↦ elim (Bool-cases (mode == spr_ttmr_sr)) [
    | inl single ↦
        rw (not_rt, single) (drop-cons tick_one_shot_fn [] m _ (omega arith) r (drop-nil _))
    | inr other ↦ rw (not_rt, other) (drop-nil m r)
  ]
]

drop_timer_jobs-Drops :
    (prev_ttmr : ℕ) (m : Machine)
    → HasRoom 2 m.sched
    → Drops (stale_jobs prev_ttmr (m.sprs spr_ttmr)) m (drop_timer_jobs prev_ttmr m)
unfolding drop_timer_jobs stale_jobs
drop_timer_jobs-Drops prev_ttmr m r =
    elim (Bool-cases (test prev_ttmr spr_ttmr_ie && not (test (m.sprs spr_ttmr) spr_ttmr_ip))) [
      | inl raised ↦ rw raised (
          drop-cons tick_raise_except_fn _ m _ (omega arith) r
            (drop_mode-Drops (bit_and prev_ttmr spr_ttmr_m) (unschedule tick_raise_except_fn m)))
      | inr quiet ↦ rw quiet (drop_mode-Drops (bit_and prev_ttmr spr_ttmr_m) m r)
    ]

-- The cycles from now until the timer matches.
unfoldable pub until_match : Machine → ℕ
until_match m =
    cycles_until_except (bit_and (m.sprs spr_ttmr) spr_ttmr_tp)
      (bit_and (spr_read_ttcr m) spr_ttmr_tp)

-- With the guard queued and two free job structures the timer does not fault: it cancels the jobs
-- of the previous mode, then adds those of the new one at the next match, and changes nothing else.
pub sched_timer_job_lem :
    (prev_ttmr : ℕ) (m : Machine)
    → HasRoom 2 m.sched
    → (s : Scheduler) × (sched_timer_job prev_ttmr m ≡ some (record m { sched = s }))
      × (deadlines (pos 0) s.job_queue
          ≡ schedule_all
              (timer_plan m.tick_counting (m.sprs spr_ttmr) (until_match m))
              (cancel_all (stale_jobs prev_ttmr (m.sprs spr_ttmr)) (queue m)))
unfolding sched_timer_job until_match
sched_timer_job_lem prev_ttmr m r =
    let (s, e, d, h) = drop_timer_jobs-Drops prev_ttmr m r in
    let (s', e', d') =
      add_timer_jobs-Adds (m.sprs spr_ttmr) (until_match m) (record m { sched = s }) h in
    (s', rw e e', d' ∙ ap (schedule_all _) d)
