-- ===== src/Sprs/Tests.antt =====
-- Writes and reads at a concrete processor.
use openrisc_tools.Prelude.{◌≡◌, refl, [], ◌∷◌, if◌then◌else◌, bit_or, inl, inr, arith}
use openrisc_tools.Prelude.Int.{pos}
use openrisc_tools.Prelude.Update.{Frame}
use openrisc_tools.Sched.Deadlines.{deadlines, schedule}
use openrisc_tools.Sched.Add.{due_at}
use openrisc_tools.Sched.Room.{HasRoom}
use openrisc_tools.Machine.{
  Machine, set_spr, pic_rep_int_fn, spr_sr, spr_picmr, spr_picsr, spr_sr_fo,
}
use openrisc_tools.Sample.{sample, two_jobs}
use openrisc_tools.Sprs.Defs.{Caches, ran, mtspr}
use openrisc_tools.Sprs.Status.{is_waiting, mtspr_sr_lem}

-- Caches that are switched off.
abbrev no_caches : Caches
no_caches = record {
  dc_simulate_read = λ a b c m. m;
  dc_inv = λ a m. m;
  ic_simulate_fetch = λ a b m. m;
  ic_inv = λ a m. m;
}

roomy : HasRoom 2 two_jobs
roomy = record { guarded = inr (inl refl); spare = omega arith }

roomy_for_one : HasRoom 1 two_jobs
roomy_for_one = record { guarded = inr (inl refl); spare = omega arith }

-- Interrupts are off, and line 2 waits.
abbrev waiting : Machine
waiting = set_spr spr_picsr 4 (set_spr spr_picmr 4 (set_spr spr_sr 0x8001 sample))

mtspr_sr_lem_example :
    (m' : Machine) × (mtspr no_caches spr_sr 5 waiting ≡ ran m')
    × (m'.sprs spr_sr ≡ bit_or 5 spr_sr_fo)
    × Frame (spr_sr ∷ []) waiting.sprs m'.sprs
    × (m'.pcnext ≡ waiting.pcnext)
    × (deadlines (pos 0) m'.sched.job_queue ≡ (
        if is_waiting 5 waiting
        then schedule (due_at (pos 0) pic_rep_int_fn 0) (deadlines (pos 0) waiting.sched.job_queue)
        else deadlines (pos 0) waiting.sched.job_queue))
mtspr_sr_lem_example = mtspr_sr_lem no_caches 5 waiting roomy_for_one
