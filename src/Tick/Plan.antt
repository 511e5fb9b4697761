-- ===== src/Tick/Plan.antt =====
-- What a write of TTMR means for the jobs of the timer, or1ksim/tick/tick.c, read from the bits of
-- the register: bits 0 to 27 are the period, 28 the pending interrupt, 29 its enable bit, 30 and 31
-- the mode (0 off, 1 restart, 2 single run, 3 continuous).
use openrisc_tools.Prelude.{
  ℕ, ◌+◌, ◌*◌, ◌/◌, ◌%◌, ◌^◌, ◌<◌, ◌≡◌, ◌∙◌, refl, Bool, not, ◌&&◌, ◌||◌, ◌==◌, ◌⊎◌, inl, inr,
  Bool-cases, List, [], ◌∷◌, ◌++◌, some, if◌then◌else◌, bit_and, arith,
}
use openrisc_tools.Prelude.Int.{pos}
use openrisc_tools.Memory.Masks.{bit_and-low, bit_and-high}
use openrisc_tools.Machine.Masks.{test-pow}
use openrisc_tools.Sched.{Scheduler}
use openrisc_tools.Sched.Deadlines.{Due, deadlines}
use openrisc_tools.Sched.Add.{due_at}
use openrisc_tools.Sched.Room.{HasRoom}
use openrisc_tools.Machine.{
  Machine, tick_raise_except_fn, tick_restart_fn, tick_one_shot_fn, spr_ttmr, spr_ttmr_m,
  spr_ttmr_ie, spr_ttmr_ip, test,
}
use openrisc_tools.Tick.Defs.{spr_read_ttcr, sched_timer_job}
use openrisc_tools.Tick.Count.{cycles_until_except_lem}
use openrisc_tools.Tick.Jobs.{
  sched_timer_job_lem, schedule_all, cancel_all, queue, raise_plan, timer_plan, stale_jobs,
  until_match,
}

abbrev pub mode_of : ℕ → ℕ
mode_of ttmr = ttmr / 2 ^ 30 % 4

-- One job, where it is wanted.
abbrev pub only_if : {A : Type 0} → Bool → A → List A
only_if wanted job = if wanted then job ∷ [] else []

-- The interrupt is enabled and not pending.
abbrev pub wants_raise : ℕ → ℕ → Bool
wants_raise enabling ttmr = (enabling / 2 ^ 29 % 2 == 1) && (ttmr / 2 ^ 28 % 2 == 0)

-- The timer meets its period after `t` cycles: a stopped one only if it is there.
abbrev pub will_match : ℕ → ℕ → ℕ → Bool
will_match counting ttmr t =
    (not (mode_of ttmr == 0) || (t == 0)) && (not (mode_of ttmr == 2) || not (counting == 0))

-- The jobs of a timer that meets its period after `t` cycles.
abbrev pub wanted_jobs : ℕ → ℕ → ℕ → List Due
wanted_jobs counting ttmr t =
    only_if (mode_of ttmr == 1) (due_at (pos t) tick_restart_fn 0)
    ++ (only_if ((mode_of ttmr == 2) && not (counting == 0)) (due_at (pos t) tick_one_shot_fn 0)
        ++ only_if (will_match counting ttmr t && wants_raise ttmr ttmr)
            (due_at (pos t) tick_raise_except_fn 0))

-- The jobs that the previous value of TTMR had filed.
abbrev pub filed_jobs : ℕ → ℕ → List ℕ
filed_jobs prev_ttmr ttmr =
    only_if (wants_raise prev_ttmr ttmr) tick_raise_except_fn
    ++ (only_if (mode_of prev_ttmr == 1) tick_restart_fn
        ++ only_if (mode_of prev_ttmr == 2) tick_one_shot_fn)

modes : (q : ℕ) → q < 4 → (q ≡ 0) ⊎ (q ≡ 1) ⊎ (q ≡ 2) ⊎ (q ≡ 3)
modes q h = omega (arith, h)

mode_bits : (x : ℕ) → x < 2 ^ 32 → bit_and x spr_ttmr_m ≡ x / 2 ^ 30 * 2 ^ 30
mode_bits x h = bit_and-high 30 2 x h

mode_small : (x : ℕ) → x < 2 ^ 32 → x / 2 ^ 30 % 4 ≡ x / 2 ^ 30
mode_small x h = omega (arith, h)

raise_bits :
    (enabling ttmr : ℕ)
    → (test enabling spr_ttmr_ie && not (test ttmr spr_ttmr_ip)) ≡ wants_raise enabling ttmr
raise_bits enabling ttmr =
    let even : not (ttmr / 2 ^ 28 % 2 == 1) ≡ (ttmr / 2 ^ 28 % 2 == 0) = ground arith in
    rw (test-pow 29 enabling, test-pow 28 ttmr, even) refl

stale_jobs-filed_jobs :
    (prev_ttmr ttmr : ℕ)
    → prev_ttmr < 2 ^ 32
    → stale_jobs prev_ttmr ttmr ≡ filed_jobs prev_ttmr ttmr
unfolding stale_jobs
stale_jobs-filed_jobs prev_ttmr ttmr h = elim (modes (prev_ttmr / 2 ^ 30) (omega (arith, h))) [
  | inl off ↦ rw (mode_bits prev_ttmr h, raise_bits prev_ttmr ttmr, off) refl
  | inr (inl restart) ↦ rw (mode_bits prev_ttmr h, raise_bits prev_ttmr ttmr, restart) refl
  | inr (inr (inl single)) ↦ rw (mode_bits prev_ttmr h, raise_bits prev_ttmr ttmr, single) refl
  | inr (inr (inr continuous)) ↦
      rw (mode_bits prev_ttmr h, raise_bits prev_ttmr ttmr, continuous) refl
]

timer_plan-wanted_jobs :
    (counting ttmr t : ℕ) → ttmr < 2 ^ 32 → timer_plan counting ttmr t ≡ wanted_jobs counting ttmr t
unfolding timer_plan raise_plan
timer_plan-wanted_jobs counting ttmr t h = elim (modes (ttmr / 2 ^ 30) (omega (arith, h))) [
  | inl off ↦ elim (Bool-cases (t == 0)) [
    | inl now ↦
        let here : t ≡ 0 = ground (arith, now) in
        rw (mode_bits ttmr h, raise_bits ttmr ttmr, off, here) refl
    | inr later ↦ rw (mode_bits ttmr h, raise_bits ttmr ttmr, off, later) refl
  ]
  | inr (inl restart) ↦ rw (mode_bits ttmr h, raise_bits ttmr ttmr, restart) refl
  | inr (inr (inl single)) ↦ elim (Bool-cases (counting == 0)) [
    | inl stopped ↦ rw (mode_bits ttmr h, raise_bits ttmr ttmr, single, stopped) refl
    | inr running ↦ rw (mode_bits ttmr h, raise_bits ttmr ttmr, single, running) refl
  ]
  | inr (inr (inr continuous)) ↦ rw (mode_bits ttmr h, raise_bits ttmr ttmr, continuous) refl
]

until_match_lem :
    (m : Machine)
    → (until_match m < 2 ^ 28)
      × ((spr_read_ttcr m + until_match m) % 2 ^ 28 ≡ m.sprs spr_ttmr % 2 ^ 28)
unfolding until_match
until_match_lem m =
    let count = spr_read_ttcr m in
    let period = m.sprs spr_ttmr in
    let (below, meets) =
      cycles_until_except_lem (period % 2 ^ 28) (count % 2 ^ 28) (omega arith) (omega arith) in
    rw (bit_and-low 28 period, bit_and-low 28 count) (below, omega (arith, meets))

-- With the guard queued, two free job structures and TTMR before and after of 32 bits, the timer
-- does not fault and changes the scheduler alone. It takes off the jobs that the previous TTMR had
-- filed: that of the interrupt, if it was enabled and TTMR has none pending, and that of its mode.
-- Then it files, at the t below 2^28 after which the low 28 bits of the count are those of TTMR,
-- first the job of the mode: restart, or the end of a single run that is counting; then that of the
-- interrupt, if it is enabled and not pending, unless the timer is off and t is not 0, or it is in
-- single-run mode and does not count.
pub sched_timer_job-plan :
    (prev_ttmr : ℕ) (m : Machine)
    → HasRoom 2 m.sched
    → prev_ttmr < 2 ^ 32
    → m.sprs spr_ttmr < 2 ^ 32
    → (t : ℕ) × (t < 2 ^ 28)
      × ((spr_read_ttcr m + t) % 2 ^ 28 ≡ m.sprs spr_ttmr % 2 ^ 28)
      × (s : Scheduler) × (sched_timer_job prev_ttmr m ≡ some (record m { sched = s }))
      × (deadlines (pos 0) s.job_queue
          ≡ schedule_all
              (wanted_jobs m.tick_counting (m.sprs spr_ttmr) t)
              (cancel_all (filed_jobs prev_ttmr (m.sprs spr_ttmr)) (queue m)))
sched_timer_job-plan prev_ttmr m r h k =
    let (s, e, d) = sched_timer_job_lem prev_ttmr m r in
    let (below, meets) = until_match_lem m in
    (
      until_match m,
      below,
      meets,
      s,
      e,
      d
          ∙ rw
              (
                timer_plan-wanted_jobs m.tick_counting (m.sprs spr_ttmr) (until_match m) k,
                stale_jobs-filed_jobs prev_ttmr (m.sprs spr_ttmr) h,
              )
              refl,
    )
