-- ===== src/Insn/Exceptions.antt =====
-- A system call and the return from it.
use openrisc_tools.Prelude.{◌+◌, ◌%◌, ◌^◌, ◌≡◌, ap, ◌∙◌, bit_and, bit_or}
use openrisc_tools.Machine.{
  Machine, spr_sr, spr_dsr, spr_esr_base, spr_epcr_base, spr_eear_base, spr_sr_fo,
}
use openrisc_tools.Sched.Room.{HasRoom}
use openrisc_tools.Except.{dsr_mask, syscall, before_delay, exception_pc, save_pc}
use openrisc_tools.Except.Delivery.{except_handle-IsDelivered}
use openrisc_tools.Sprs.{Caches, ran}
use openrisc_tools.Sprs.Status.{mtspr_sr_lem}
use openrisc_tools.Insn.Jump.{l_rfe, l_sys}

-- A system call that the debug unit does not mask, made with the fixed bit of SR set, is followed
-- by `l.rfe` in any state that still has the ESR and EPCR it left, and in which a job structure is
-- free: SR is as it was, and execution goes on behind the system call, or at the system call itself
-- if it stood in a delay slot.
pub l_rfe-l_sys :
    (c : Caches) (m handled : Machine)
    → bit_and (m.sprs spr_dsr) (dsr_mask syscall) ≡ 0
    → bit_or (m.sprs spr_sr) spr_sr_fo ≡ m.sprs spr_sr
    → handled.sprs spr_esr_base ≡ (l_sys m).sprs spr_esr_base
    → handled.sprs spr_epcr_base ≡ (l_sys m).sprs spr_epcr_base
    → HasRoom 1 handled.sched
    → (m' : Machine) × (l_rfe c handled ≡ ran m')
      × (m'.sprs spr_sr ≡ m.sprs spr_sr)
      × (m'.pcnext ≡ before_delay m ((m.pc + 4) % 2 ^ 32))
unfolding l_rfe l_sys exception_pc save_pc
l_rfe-l_sys c m handled unmasked fixed esr epcr r =
    let told = except_handle-IsDelivered syscall (m.sprs spr_eear_base) m unmasked in
    let returning = record handled { pcnext = handled.sprs spr_epcr_base } in
    let (m', e, sr, others, pcnext, due) = mtspr_sr_lem c (handled.sprs spr_esr_base) returning r in
    (
      m',
      e,
      sr ∙ ap (λ x. bit_or x spr_sr_fo) (esr ∙ told.saved_status) ∙ fixed,
      pcnext ∙ epcr ∙ told.saved_pc,
    )
