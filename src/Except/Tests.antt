-- ===== src/Except/Tests.antt =====
-- Runs of the exception entry, and its theorems at a concrete processor.
use openrisc_tools.Prelude.{◌≡◌, refl, [], ◌∷◌, true, bit_and, bit_or, arith}
use openrisc_tools.Prelude.Update.{Frame}
use openrisc_tools.Machine.{
  Machine, set_spr, clear, bit_not, spr_dsr, spr_drr, spr_sr_sm, spr_sr_ime,
}
use openrisc_tools.Sample.{sample}
use openrisc_tools.Except.Defs.{Exception, except_handle, handler_sr, dsr_mask, deliver}
use openrisc_tools.Except.Delivery.{
  IsDelivered, handler_bits, handler_sr_lem, except_handle-IsDelivered, except_handle_masked,
}

-- A system call leaves for 0xc00.
syscall_vector : (deliver Exception.syscall 0x2000 sample).pcnext ≡ 0xc00
unfolding deliver
syscall_vector = refl

handler_sr_lem_example :
    let r = clear (handler_sr 0x8067) spr_sr_ime in
    (bit_and r handler_bits ≡ spr_sr_sm)
    × (bit_and r (bit_not handler_bits) ≡ bit_and 0x8067 (bit_not handler_bits))
handler_sr_lem_example = handler_sr_lem 0x8067

except_handle-IsDelivered_example :
    IsDelivered Exception.syscall 0x2000 sample (except_handle Exception.syscall 0x2000 sample)
unfolding dsr_mask
except_handle-IsDelivered_example = except_handle-IsDelivered Exception.syscall 0x2000 sample refl

-- The debugger has masked the system call.
abbrev debugged : Machine
debugged = set_spr spr_dsr 0x800 sample

except_handle_masked_example :
    let m' = except_handle Exception.syscall 0x2000 debugged in
    (m'.stalled ≡ true)
    × (m'.pc ≡ debugged.pc)
    × (m'.pcnext ≡ debugged.pcnext)
    × (m'.except_pending ≡ debugged.except_pending)
    × (m'.sprs spr_drr
        ≡ bit_or
            (debugged.sprs spr_drr)
            (bit_and (debugged.sprs spr_dsr) (dsr_mask Exception.syscall)))
    × Frame (spr_drr ∷ []) debugged.sprs m'.sprs
unfolding dsr_mask
except_handle_masked_example = except_handle_masked Exception.syscall 0x2000 debugged (omega arith)
