-- ===== src/Pic/Lines.antt =====
-- The interrupt lines of or1ksim/pic/pic.c: reports, clears, and the job that raises the
-- interrupt.
use openrisc_tools.Prelude.{
  ℕ, ◌≡◌, refl, Bool, true, false, not, ◌&&◌, [], ◌∷◌, some, ◌==◌, if◌then◌else◌, bit_and, bit_or,
  arith, Bool-cases, inl, inr, IfOr,
}
use openrisc_tools.Prelude.Int.{pos}
use openrisc_tools.Sched.{Scheduler}
use openrisc_tools.Sched.Deadlines.{deadlines, schedule}
use openrisc_tools.Sched.Add.{due_at}
use openrisc_tools.Sched.Room.{HasRoom, sched_add-HasRoom}
use openrisc_tools.Prelude.Update.{Frame, Frame-at}
use openrisc_tools.Except.{int, dsr_mask, except_handle}
use openrisc_tools.Except.Delivery.{IsDelivered, except_handle-IsDelivered}
use openrisc_tools.Machine.{
  spr_dsr, spr_eear_base, Machine, set_spr, test, clear, schedule_job, pic_rep_int_fn, spr_picmr,
  spr_picsr, spr_pmr, spr_sr, spr_sr_iee,
}
use openrisc_tools.Machine.Masks.{clear-bit_and, clear-clear}
use openrisc_tools.Pic.Defs.{line_mask, signal_line, report_interrupt, clear_interrupt, pic_rep_int}

-- The processor will take the interrupt at once.
abbrev pub IntDue : Scheduler → Scheduler → Type 0
IntDue s s' =
    deadlines (pos 0) s'.job_queue
    ≡ schedule (due_at (pos 0) pic_rep_int_fn 0) (deadlines (pos 0) s.job_queue)

pub schedule_int :
    (m : Machine)
    → HasRoom 1 m.sched
    → (s : Scheduler) × (schedule_job pic_rep_int_fn 0 (pos 0) m ≡ some (record m { sched = s }))
      × IntDue m.sched s
schedule_int m r =
    let (s, e, h, d) = sched_add-HasRoom m.sched pic_rep_int_fn 0 0 (pos 0) r in
    (s, rw e, d (omega arith))

-- The processor is told of a line that was not pending and that PICMR and SR[IEE] allow.
abbrev pub is_told : ℕ → Machine → Bool
is_told lmask m =
    not (test (m.sprs spr_picsr) lmask)
    && (test (m.sprs spr_picmr) lmask && test (m.sprs spr_sr) spr_sr_iee)

-- What a report of the line leaves, against the state before it.
pub record IsSignalled (lmask : ℕ) (m m' : Machine) : Type 0 where
  pub marked : m'.sprs spr_picsr ≡ (
      if test (m.sprs spr_picsr) lmask then m.sprs spr_picsr else bit_or (m.sprs spr_picsr) lmask)
  pub others : Frame (spr_picsr ∷ []) m.sprs m'.sprs
  pub told : deadlines (pos 0) m'.sched.job_queue ≡ (
      if is_told lmask m
      then schedule (due_at (pos 0) pic_rep_int_fn 0) (deadlines (pos 0) m.sched.job_queue)
      else deadlines (pos 0) m.sched.job_queue)

signal_line-IsSignalled :
    (lmask : ℕ) (m : Machine)
    → HasRoom 1 m.sched
    → (m' : Machine) × (signal_line lmask m ≡ some m') × IsSignalled lmask m m'
unfolding signal_line
signal_line-IsSignalled lmask m r = elim (Bool-cases (test (m.sprs spr_picsr) lmask)) [
  | inl old ↦ (m, rw old, record { marked = rw old; others = λ n. ground arith; told = rw old })
  | inr new ↦ elim (Bool-cases (test (m.sprs spr_picmr) lmask && test (m.sprs spr_sr) spr_sr_iee)) [
    | inl open_line ↦
        let (s, e, d) = schedule_int marked r in
        (
          record marked { sched = s },
          rw (new, open_line) e,
          record { marked = rw new; others = λ n. ground arith; told = rw (new, open_line) d },
        )
    | inr masked ↦ (
      marked,
      rw (new, masked),
      record { marked = rw new; others = λ n. ground arith; told = rw (new, masked) },
    )
  ]
]
  where
    marked : Machine
    marked = set_spr spr_picsr (bit_or (m.sprs spr_picsr) lmask) m

-- The doze and sleep bits of PMR.
abbrev pub sleep_bits : ℕ
sleep_bits = 0x30

abbrev pub awake : Machine → Machine
awake m = set_spr spr_pmr (clear (m.sprs spr_pmr) sleep_bits) m

pub record IsReported (lmask : ℕ) (m m' : Machine) : Type 0 where
  pub signalled : IsSignalled lmask (awake m) m'
  pub woken : bit_and (m'.sprs spr_pmr) sleep_bits ≡ 0
  pub kept : Frame (spr_picsr ∷ spr_pmr ∷ []) m.sprs m'.sprs

-- With the controller enabled, the guard queued and a free job structure, a report wakes the
-- processor, marks the line in PICSR unless it is pending, and adds the interrupt job, due at once,
-- exactly when the line was not pending, PICMR lets it pass and SR[IEE] is set. No other special
-- purpose register changes.
pub report_interrupt-IsReported :
    (line : ℕ) (m : Machine)
    → m.config.pic_enabled ≡ true
    → HasRoom 1 m.sched
    → (m' : Machine) × (report_interrupt line m ≡ some m') × IsReported (line_mask line) m m'
unfolding report_interrupt
report_interrupt-IsReported line m on r =
    let (m', e, s) = signal_line-IsSignalled (line_mask line) (awake m) r in
    (
      m',
      simp on e,
      record {
        signalled = s;
        woken =
            rw (Frame-at (spr_picsr ∷ []) (awake m).sprs m'.sprs spr_pmr s.others refl)
              (clear-bit_and (m.sprs spr_pmr) sleep_bits (omega arith));
        kept = λ n. ground (arith, s.others n);
      },
    )

-- With the controller disabled a report that the debug unit does not mask delivers the interrupt
-- exception if SR[IEE] is set, and otherwise only wakes the processor.
pub report_interrupt_disabled :
    (line : ℕ) (m : Machine)
    → m.config.pic_enabled ≡ false
    → bit_and (m.sprs spr_dsr) (dsr_mask int) ≡ 0
    → (m' : Machine) × (report_interrupt line m ≡ some m')
      × (IfOr
          (test (m.sprs spr_sr) spr_sr_iee)
          (IsDelivered int (m.sprs spr_eear_base) (awake m) m')
          (m' ≡ awake m))
unfolding report_interrupt
report_interrupt_disabled line m off unmasked = (
  if test (m.sprs spr_sr) spr_sr_iee
      then except_handle int (m.sprs spr_eear_base) (awake m)
      else awake m,
  rw off,
  elim (Bool-cases (test (m.sprs spr_sr) spr_sr_iee)) [
    | inl on ↦
        inl (on, rw on (except_handle-IsDelivered int (m.sprs spr_eear_base) (awake m) unmasked))
    | inr quiet ↦ inr (quiet, rw quiet)
  ],
)

-- Where the debug unit does not mask the interrupt, its job delivers the interrupt exception if any
-- line is pending, let pass by PICMR or not, and does nothing otherwise.
pub pic_rep_int_lem :
    (m : Machine)
    → bit_and (m.sprs spr_dsr) (dsr_mask int) ≡ 0
    → IfOr
        (m.sprs spr_picsr == 0)
        (pic_rep_int m ≡ m)
        (IsDelivered int (m.sprs spr_eear_base) m (pic_rep_int m))
unfolding pic_rep_int
pic_rep_int_lem m unmasked = elim (Bool-cases (m.sprs spr_picsr == 0)) [
  | inl quiet ↦ inl (quiet, rw quiet)
  | inr some_line ↦
      inr
        (some_line, rw some_line (except_handle-IsDelivered int (m.sprs spr_eear_base) m unmasked))
]

-- Clearing a line clears its bit of PICSR, and leaves every other bit and register.
pub clear_interrupt_lem :
    (line other : ℕ) (m : Machine)
    → let m' = clear_interrupt line m in
      let lmask = line_mask line in
      (bit_and (m'.sprs spr_picsr) lmask ≡ 0)
      × (bit_and (m'.sprs spr_picsr) (clear other lmask)
          ≡ bit_and (m.sprs spr_picsr) (clear other lmask))
      × Frame (spr_picsr ∷ []) m.sprs m'.sprs
unfolding clear_interrupt
clear_interrupt_lem line other m = (
  clear-bit_and (m.sprs spr_picsr) (line_mask line) (omega arith),
  clear-clear (m.sprs spr_picsr) other (line_mask line),
  λ n. ground arith,
)
