-- ===== src/Tick/Laws.antt =====
-- Writes of the timer's registers, and the job that raises its exception.
use openrisc_tools.Prelude.{
  ℕ, ◌+◌, ◌%◌, ◌^◌, ◌<◌, ◌≡◌, ◌≢◌, refl, ◌∙◌, some, ◌==◌, bit_and, bit_or, arith, Bool-cases, inl,
  inr, IfOr,
}
use openrisc_tools.Prelude.Int.{pos, ◌-ℤ◌}
use openrisc_tools.Prelude.Update.{Frame-at}
use openrisc_tools.Sched.{Scheduler, sched_next_insn}
use openrisc_tools.Sched.Room.{HasRoom, sched_next_insn-HasRoom}
use openrisc_tools.Machine.{
  Machine, set_spr, test, spr_ttmr, spr_ttcr, spr_sr, spr_dsr, spr_eear_base, spr_sr_tee,
  spr_ttmr_ip, tick_raise_except_fn,
}
use openrisc_tools.Machine.Masks.{clear-bit_and, bit_or-bit_and}
use openrisc_tools.Except.{Exception, dsr_mask, except_handle}
use openrisc_tools.Except.Delivery.{IsDelivered, written_sprs, except_handle-IsDelivered}
use openrisc_tools.Tick.Defs.{
  latch_count, resume_count, start_timer, spr_read_ttcr, spr_write_ttcr, spr_write_ttmr,
  tick_raise_except,
}
use openrisc_tools.Tick.Count.{pass, read-restart, read-start_timer}
use openrisc_tools.Tick.Jobs.{sched_timer_job_lem}

-- With the guard queued and two free job structures, a value written to TTCR of a running timer is
-- counted up from: `k` cycles later TTCR reads that value and `k` more, on 32 bits.
pub spr_write_ttcr_lem :
    (m : Machine) (v k : ℕ)
    → HasRoom 2 m.sched
    → m.tick_counting ≢ 0
    → (m' : Machine) × (spr_write_ttcr v m ≡ some m')
      × (spr_read_ttcr (pass k m') ≡ (v + k) % 2 ^ 32)
unfolding spr_write_ttcr
spr_write_ttcr_lem m v k r on =
    let m1 = record m { cycle_count_at_tick_start = pos m.cycles -ℤ pos v } in
    let (s, e, d) = sched_timer_job_lem (m.sprs spr_ttmr) m1 r in
    (record m1 { sched = s }, e, read-restart (record m1 { sched = s }) k v on refl)

start_timer-ip : (m : Machine) → bit_and ((start_timer m).sprs spr_ttmr) spr_ttmr_ip ≡ 0
unfolding start_timer latch_count resume_count
start_timer-ip m = elim (Bool-cases (m.tick_counting == 0)) [
  | inl off ↦ rw off (clear-bit_and (m.sprs spr_ttmr) spr_ttmr_ip (omega arith))
  | inr on ↦ rw on (clear-bit_and (m.sprs spr_ttmr) spr_ttmr_ip (omega arith))
]

start_timer-sched : (m : Machine) → (start_timer m).sched ≡ m.sched
unfolding start_timer latch_count resume_count
start_timer-sched m = ground arith

-- With the guard queued, two free job structures and a TTCR of 32 bits, a write of TTMR, whatever
-- mode it leaves and enters, does not fault, keeps the count that TTCR reads and clears the pending
-- bit of TTMR.
pub spr_write_ttmr_lem :
    (prev_val : ℕ) (m : Machine)
    → HasRoom 2 m.sched
    → m.sprs spr_ttcr < 2 ^ 32
    → (m' : Machine) × (spr_write_ttmr prev_val m ≡ some m')
      × (spr_read_ttcr m' ≡ spr_read_ttcr m)
      × (bit_and (m'.sprs spr_ttmr) spr_ttmr_ip ≡ 0)
unfolding spr_write_ttmr
spr_write_ttmr_lem prev_val m r h =
    let (s, e, d) = sched_timer_job_lem prev_val (start_timer m) (rw (start_timer-sched m) r) in
    (
      record (start_timer m) { sched = s },
      e,
      (unfold spr_read_ttcr in refl) ∙ read-start_timer m h,
      start_timer-ip m,
    )

-- The state in which the timer's exception is raised.
abbrev pub marked : Machine → Scheduler → Machine
marked m s = record (set_spr spr_ttmr (bit_or (m.sprs spr_ttmr) spr_ttmr_ip) m) { sched = s }

-- With the guard queued, a free job structure, and the exception not masked by the debug unit, the
-- timer's exception job is queued again, marks the interrupt in TTMR, and delivers the exception
-- exactly when SR[TEE] is set.
pub tick_raise_except_lem :
    (m : Machine)
    → HasRoom 1 m.sched
    → bit_and (m.sprs spr_dsr) (dsr_mask Exception.tick) ≡ 0
    → (s : Scheduler) × (sched_next_insn tick_raise_except_fn 0 m.sched ≡ some s)
      × (m' : Machine) × (tick_raise_except m ≡ some m')
      × IfOr
          (test (m.sprs spr_sr) spr_sr_tee)
          (IsDelivered Exception.tick (m.sprs spr_eear_base) (marked m s) m')
          (m' ≡ marked m s)
      × (bit_and (m'.sprs spr_ttmr) spr_ttmr_ip ≡ spr_ttmr_ip)
unfolding tick_raise_except
tick_raise_except_lem m r unmasked =
    let (s, e, h) = sched_next_insn-HasRoom m.sched tick_raise_except_fn 0 0 r in
    let told =
      except_handle-IsDelivered Exception.tick (m.sprs spr_eear_base) (marked m s) unmasked in
    let ip = bit_or-bit_and (m.sprs spr_ttmr) spr_ttmr_ip in
    elim (Bool-cases (test (m.sprs spr_sr) spr_sr_tee)) [
      | inl on ↦ (
        s,
        e,
        except_handle Exception.tick (m.sprs spr_eear_base) (marked m s),
        rw (e, on),
        inl (on, told),
        rw (Frame-at written_sprs (marked m s).sprs _ spr_ttmr told.others refl) ip,
      )
      | inr off ↦ (s, e, marked m s, rw (e, off), inr (off, refl), ip)
    ]
