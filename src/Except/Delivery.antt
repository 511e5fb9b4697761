-- ===== src/Except/Delivery.antt =====
-- The state after `except_handle` of or1ksim/cpu/or1k/except.c.
use openrisc_tools.Prelude.{
  ℕ, ◌+◌, ◌≡◌, refl, ap, fun_ext, List, [], ◌∷◌, ◌∙◌, true, false, if◌then◌else◌, bit_and, bit_or,
  arith, Bool-cases, inl, inr, ◌≢◌, ==_ne,
}
use mathlib.Core.Path.{subst}
use openrisc_tools.Prelude.Bits.{mask_laws, bit_or-zero}
use openrisc_tools.Prelude.Update.{Frame}
use openrisc_tools.Machine.{
  Machine, set_spr, test, clear, bit_not, spr_sr, spr_drr, spr_dsr, spr_eear_base, spr_esr_base,
  spr_epcr_base, spr_sr_eph, spr_sr_sm, spr_sr_ime,
}
use openrisc_tools.Except.Defs.{
  exception_pc, save_pc, Exception, vector, deliver, except_handle, handler_sr,
  debug_ignore_exception, dsr_mask, set_stall_state,
}

-- The bits of SR that an exception writes.
abbrev pub handler_bits : ℕ
handler_bits = 0x1067

-- SR of the handler: supervisor mode, no interrupt, no translation, no overflow exception, and
-- every other bit as it was.
pub handler_sr_lem :
    (sr : ℕ)
    → let r = clear (handler_sr sr) spr_sr_ime in
      (bit_and r handler_bits ≡ spr_sr_sm)
      × (bit_and r (bit_not handler_bits) ≡ bit_and sr (bit_not handler_bits))
unfolding handler_sr
handler_sr_lem sr = (simp mask_laws, simp mask_laws)

-- The registers in which an exception leaves its account.
abbrev pub written_sprs : List ℕ
written_sprs = spr_sr ∷ spr_esr_base ∷ spr_eear_base ∷ spr_epcr_base ∷ []

module _ (e : Exception) (ea : ℕ) (m : Machine) where
  deliver-sr : (deliver e ea m).sprs spr_sr ≡ clear (handler_sr (m.sprs spr_sr)) spr_sr_ime
  unfolding deliver
  deliver-sr = ground arith

  deliver-esr : (deliver e ea m).sprs spr_esr_base ≡ m.sprs spr_sr
  unfolding deliver
  deliver-esr = ground arith

  deliver-eear : (deliver e ea m).sprs spr_eear_base ≡ ea
  unfolding deliver
  deliver-eear = ground arith

  pub deliver-Frame : Frame written_sprs m.sprs (deliver e ea m).sprs
  unfolding deliver
  deliver-Frame n = ground arith

-- The address at which execution goes on: an exception between instructions has moved the pc.
unfoldable pub entered : Exception → Machine → ℕ
entered Exception.tick m = m.pc
entered Exception.int m = m.pc
entered _ m = m.pcnext

pub record IsDelivered (e : Exception) (ea : ℕ) (m m' : Machine) : Type 0 where
  pub supervisor : bit_and (m'.sprs spr_sr) handler_bits ≡ spr_sr_sm
  pub status_kept :
      bit_and (m'.sprs spr_sr) (bit_not handler_bits)
      ≡ bit_and (m.sprs spr_sr) (bit_not handler_bits)
  pub saved_status : m'.sprs spr_esr_base ≡ m.sprs spr_sr
  pub saved_address : m'.sprs spr_eear_base ≡ ea
  pub saved_pc : m'.sprs spr_epcr_base ≡ save_pc (exception_pc e ea m) m.sprs spr_epcr_base
  pub others : Frame written_sprs m.sprs m'.sprs
  pub enters :
      entered e m' ≡ vector e + (if test (m.sprs spr_sr) spr_sr_eph then 0xf000_0000 else 0)
  pub no_delay : m'.delay_insn ≡ false
  pub pending : m'.except_pending ≡ true
  pub running : m'.stalled ≡ false

deliver-epcr :
    (e : Exception) (ea : ℕ) (m : Machine)
    → (deliver e ea m).sprs spr_epcr_base ≡ save_pc (exception_pc e ea m) m.sprs spr_epcr_base
unfolding deliver exception_pc save_pc
deliver-epcr Exception.reset ea m = refl
deliver-epcr _ ea m = refl

deliver-enters :
    (e : Exception) (ea : ℕ) (m : Machine)
    → entered e (deliver e ea m)
      ≡ vector e + (if test (m.sprs spr_sr) spr_sr_eph then 0xf000_0000 else 0)
unfolding deliver entered
deliver-enters Exception.reset ea m = refl
deliver-enters _ ea m = refl

-- The state in which an exception that the debugger does not mask is delivered.
abbrev unmasked : Machine → Machine
unmasked m = set_stall_state false (set_spr spr_drr (bit_or (m.sprs spr_drr) 0) m)

except_handle-unmasked :
    (e : Exception) (ea : ℕ) (m : Machine)
    → bit_and (m.sprs spr_dsr) (dsr_mask e) ≡ 0
    → except_handle e ea m ≡ deliver e ea (unmasked m)
unfolding except_handle debug_ignore_exception set_stall_state
except_handle-unmasked e ea m h = elim (Bool-cases m.config.rsp_enabled) [
  | inl on ↦ rw (h, on)
  | inr off ↦ rw (h, off)
]

unmasked-sprs : (m : Machine) (n : ℕ) → (unmasked m).sprs n ≡ m.sprs n
unfolding set_stall_state
unmasked-sprs m n = ground (arith, bit_or-zero (m.sprs spr_drr))

unmasked-saved :
    (e : Exception) (ea : ℕ) (m : Machine)
    → save_pc (exception_pc e ea (unmasked m)) (unmasked m).sprs spr_epcr_base
      ≡ save_pc (exception_pc e ea m) m.sprs spr_epcr_base
unfolding exception_pc save_pc set_stall_state
unmasked-saved Exception.reset ea m = unmasked-sprs m spr_epcr_base
unmasked-saved Exception.fpe ea m = unmasked-sprs m spr_epcr_base
unmasked-saved _ ea m = refl

-- An exception that the debug unit does not mask is delivered: the handler runs in supervisor mode
-- with interrupts, translation and overflow exceptions off, at the vector that SR[EPH] chooses,
-- outside a delay slot and not stalled; ESR, EEAR and EPCR hold the status, the effective address
-- and the pc that belong to the exception, and every other special purpose register is as it was.
pub except_handle-IsDelivered :
    (e : Exception) (ea : ℕ) (m : Machine)
    → bit_and (m.sprs spr_dsr) (dsr_mask e) ≡ 0
    → IsDelivered e ea m (except_handle e ea m)
except_handle-IsDelivered e ea m h = rw (except_handle-unmasked e ea m h) record {
  supervisor = rw (deliver-sr e ea (unmasked m)) (handler_sr_lem ((unmasked m).sprs spr_sr)).0;
  status_kept =
      rw (deliver-sr e ea (unmasked m), unmasked-sprs m spr_sr) (handler_sr_lem (m.sprs spr_sr)).1;
  saved_status = deliver-esr e ea (unmasked m) ∙ unmasked-sprs m spr_sr;
  saved_address = deliver-eear e ea (unmasked m);
  saved_pc = deliver-epcr e ea (unmasked m) ∙ unmasked-saved e ea m;
  others =
      subst (λ f. Frame written_sprs f (deliver e ea (unmasked m)).sprs) (fun_ext (unmasked-sprs m))
        (deliver-Frame e ea (unmasked m));
  enters = deliver-enters e ea (unmasked m) ∙ ap prefixed (unmasked-sprs m spr_sr);
  no_delay = unfold deliver in refl;
  pending = unfold deliver in refl;
  running = unfold deliver set_stall_state in refl;
}
  where
    prefixed : ℕ → ℕ
    prefixed sr = vector e + (if test sr spr_sr_eph then 0xf000_0000 else 0)

-- An exception that the debug unit masks stalls the processor and is recorded in DRR; neither the
-- program counters, nor the pending flag, nor any other special purpose register changes.
pub except_handle_masked :
    (e : Exception) (ea : ℕ) (m : Machine)
    → bit_and (m.sprs spr_dsr) (dsr_mask e) ≢ 0
    → let m' = except_handle e ea m in
      (m'.stalled ≡ true)
      × (m'.pc ≡ m.pc)
      × (m'.pcnext ≡ m.pcnext)
      × (m'.except_pending ≡ m.except_pending)
      × (m'.sprs spr_drr ≡ bit_or (m.sprs spr_drr) (bit_and (m.sprs spr_dsr) (dsr_mask e)))
      × Frame (spr_drr ∷ []) m.sprs m'.sprs
unfolding except_handle debug_ignore_exception set_stall_state
except_handle_masked e ea m h =
    let hit = ==_ne (bit_and (m.sprs spr_dsr) (dsr_mask e)) 0 h in
    (rw hit, rw hit, rw hit, rw hit, rw hit, rw hit (λ n. ground arith))
