-- ===== src/Tick/Tests.antt =====
-- Runs of the tick timer, and its theorems at a concrete processor.
use openrisc_tools.Prelude.{
  ℕ, ◌+◌, ◌%◌, ◌^◌, ◌<◌, [], ◌∷◌, ◌≡◌, refl, some, inl, inr, bit_and, arith,
}
use openrisc_tools.Prelude.Int.{pos}
use openrisc_tools.Sched.{Scheduler}
use openrisc_tools.Sched.Deadlines.{deadlines}
use openrisc_tools.Sched.Room.{HasRoom}
use openrisc_tools.Machine.{
  Machine, set_spr, spr_ttmr, spr_ttmr_ip, tick_restart_fn, tick_raise_except_fn,
}
use openrisc_tools.Sample.{sample, two_jobs}
use openrisc_tools.Tick.Defs.{sched_timer_job, spr_read_ttcr, spr_write_ttmr, start_timer}
use openrisc_tools.Tick.Count.{read-start_timer}
use openrisc_tools.Tick.Jobs.{schedule_all, cancel_all, queue}
use openrisc_tools.Tick.Plan.{wanted_jobs, filed_jobs, sched_timer_job-plan}
use openrisc_tools.Sched.Add.{due_at}
use openrisc_tools.Tick.Laws.{spr_write_ttmr_lem}

roomy : HasRoom 2 two_jobs
roomy = record { guarded = inr (inl refl); spare = omega arith }

roomy_for_one : HasRoom 1 two_jobs
roomy_for_one = record { guarded = inr (inl refl); spare = omega arith }

-- The timer restarts every 100 cycles and raises its exception.
abbrev ticking : Machine
ticking = record (set_spr spr_ttmr 0x6000_0064 sample) { tick_counting = 0x4000_0000 }

read-start_timer_example : spr_read_ttcr (start_timer ticking) ≡ spr_read_ttcr ticking
read-start_timer_example = read-start_timer ticking (omega arith)

sched_timer_job-plan_example :
    (t : ℕ) × (t < 2 ^ 28)
    × ((spr_read_ttcr ticking + t) % 2 ^ 28 ≡ ticking.sprs spr_ttmr % 2 ^ 28)
    × (s : Scheduler) × (sched_timer_job 0 ticking ≡ some (record ticking { sched = s }))
    × (deadlines (pos 0) s.job_queue
        ≡ schedule_all
            (wanted_jobs ticking.tick_counting (ticking.sprs spr_ttmr) t)
            (cancel_all (filed_jobs 0 (ticking.sprs spr_ttmr)) (queue ticking)))
sched_timer_job-plan_example = sched_timer_job-plan 0 ticking roomy (omega arith) (omega arith)

-- The restart and then the interrupt, both after 100 cycles.
planned :
    wanted_jobs 0x4000_0000 0x6000_0064 100
    ≡ due_at (pos 100) tick_restart_fn 0 ∷ due_at (pos 100) tick_raise_except_fn 0 ∷ []
planned = refl

spr_write_ttmr_lem_example :
    (m' : Machine) × (spr_write_ttmr 0 ticking ≡ some m')
    × (spr_read_ttcr m' ≡ spr_read_ttcr ticking)
    × (bit_and (m'.sprs spr_ttmr) spr_ttmr_ip ≡ 0)
spr_write_ttmr_lem_example = spr_write_ttmr_lem 0 ticking roomy (omega arith)
