-- ===== src/Sprs/Status.antt =====
-- A write of SR, or1ksim/cpu/or1k/sprs.c.
use openrisc_tools.Prelude.{
  ℕ, ◌≡◌, refl, ap, Bool, not, ◌&&◌, [], ◌∷◌, if◌then◌else◌, bit_or, arith, Bool-cases, inl, inr,
}
use openrisc_tools.Prelude.Int.{pos}
use openrisc_tools.Prelude.Update.{Frame}
use openrisc_tools.Machine.{
  Machine, set_spr, test, pic_rep_int_fn, spr_sr, spr_picmr, spr_picsr, spr_sr_fo, spr_sr_iee,
}
use openrisc_tools.Sched.Deadlines.{deadlines, schedule}
use openrisc_tools.Sched.Add.{due_at}
use openrisc_tools.Sched.Room.{HasRoom}
use openrisc_tools.Pic.{pic_ints_en}
use openrisc_tools.Pic.Lines.{schedule_int}
use openrisc_tools.Sprs.Defs.{Caches, ran, mtspr, run_hooks, write_sr, after}

-- A write that enables the interrupts finds a line pending that PICMR lets pass.
abbrev pub is_waiting : ℕ → Machine → Bool
is_waiting value m =
    (test value spr_sr_iee && not (test (m.sprs spr_sr) spr_sr_iee))
    && test (m.sprs spr_picmr) (m.sprs spr_picsr)

-- With the guard queued and a free job structure, a write of SR stores the value with the fixed bit
-- set, changes no other special purpose register and not the pc of the next instruction, and adds
-- the interrupt job, due at once, exactly when SR[IEE] goes from 0 to 1 while a line that PICMR
-- lets pass is pending.
pub mtspr_sr_lem :
    (c : Caches) (value : ℕ) (m : Machine)
    → HasRoom 1 m.sched
    → (m' : Machine) × (mtspr c spr_sr value m ≡ ran m')
      × (m'.sprs spr_sr ≡ bit_or value spr_sr_fo)
      × Frame (spr_sr ∷ []) m.sprs m'.sprs
      × (m'.pcnext ≡ m.pcnext)
      × (deadlines (pos 0) m'.sched.job_queue ≡ (
          if is_waiting value m
          then schedule (due_at (pos 0) pic_rep_int_fn 0) (deadlines (pos 0) m.sched.job_queue)
          else deadlines (pos 0) m.sched.job_queue))
unfolding mtspr run_hooks write_sr after pic_ints_en
mtspr_sr_lem c value m r =
    elim (Bool-cases (test value spr_sr_iee && not (test (m.sprs spr_sr) spr_sr_iee))) [
      | inl enabled ↦ elim (Bool-cases (test (m.sprs spr_picmr) (m.sprs spr_picsr))) [
        | inl waiting ↦
            let (s, e, d) = schedule_int stored r in
            (
              record stored { sched = s },
              rw (enabled, waiting) (ap after e),
              refl,
              λ n. ground arith,
              refl,
              rw (enabled, waiting) d,
            )
        | inr quiet ↦
            (stored, rw (enabled, quiet), refl, λ n. ground arith, refl, rw (enabled, quiet))
      ]
      | inr kept ↦ (stored, rw kept, refl, λ n. ground arith, refl, rw kept)
    ]
  where
    stored : Machine
    stored = set_spr spr_sr (bit_or value spr_sr_fo) (set_spr spr_sr value m)
