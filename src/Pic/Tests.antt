-- ===== src/Pic/Tests.antt =====
-- Runs of the interrupt controller, and its theorems at a concrete processor.
use openrisc_tools.Prelude.{◌≡◌, refl, some, false, inl, inr, arith}
use openrisc_tools.Sched.Room.{HasRoom}
use openrisc_tools.Machine.{Machine, set_spr, spr_picmr, spr_picsr}
use openrisc_tools.Sample.{sample, two_jobs, usual_config}
use openrisc_tools.Pic.Defs.{line_mask, report_interrupt}
use openrisc_tools.Pic.Lines.{IsReported, report_interrupt-IsReported}

roomy : HasRoom 1 two_jobs
roomy = record { guarded = inr (inl refl); spare = omega arith }

-- Line 2 is let through, and line 3 is pending.
abbrev listening : Machine
listening = set_spr spr_picsr 8 (set_spr spr_picmr 0xc sample)

report_interrupt-IsReported_example :
    (m' : Machine) × (report_interrupt 2 listening ≡ some m')
    × IsReported (line_mask 2) listening m'
report_interrupt-IsReported_example = report_interrupt-IsReported 2 listening refl roomy

abbrev without_pic : Machine
without_pic = record sample { config = record usual_config { pic_enabled = false } }
