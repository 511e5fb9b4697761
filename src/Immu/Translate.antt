-- ===== src/Immu/Translate.antt =====
-- The branches of the translation of or1ksim/mmu/immu.c.
use openrisc_tools.Prelude.{
  ℕ, ◌+◌, ◌*◌, ◌<◌, ◌≡◌, ap, sym, ◌∙◌, Bool, true, false, none, some, inl, inr, Bool-cases, arith,
  if◌then◌else◌, IfOr, bit_and,
}
use openrisc_tools.Immu.Search.{found_at}
use mathlib.Core.Path.{subst}
use openrisc_tools.Prelude.Update.{Frame-at}
use openrisc_tools.Machine.{Machine, spr_dsr, spr_pcmr_itlbm}
use openrisc_tools.Except.{dsr_mask, ipf, itlbmiss, except_handle}
use openrisc_tools.Except.Delivery.{IsDelivered, written_sprs, except_handle-IsDelivered}
use openrisc_tools.Pcu.{pcu_count_event}
use openrisc_tools.Immu.Defs.{
  first_way, immu_find_tlbmr, touch, is_denied, is_off, hit, miss, uncached, immu_translate,
}
use openrisc_tools.Tlb.{physical, IsConfigured}
use openrisc_tools.Immu.Touch.{touch-tr, touch-high, denied_after}

-- With translation switched off, or with no instruction MMU, an address is its own translation; the fetch
-- goes round the cache from 0x80000000 on, and nothing else changes.
pub immu_translate_off :
    (virtaddr : ℕ) (m : Machine)
    → is_off m ≡ true
    → immu_translate virtaddr m ≡ (record m { insn_ci = uncached virtaddr }, virtaddr)
unfolding immu_translate
immu_translate_off virtaddr m off = rw off

-- What a translation leaves on a hit of the register `r`.
pub record IsHit (virtaddr r : ℕ) (m : Machine) (out : Machine × ℕ) : Type 0 where
  pub address : out.1 ≡ physical m.immu (m.sprs (r + 128)) virtaddr
  pub fault :
      IfOr
        (is_denied m (m.sprs (r + 128)))
        (IsDelivered ipf virtaddr (touch virtaddr r m) out.0)
        (out.0 ≡ touch virtaddr r m)

hit-IsHit :
    (virtaddr w : ℕ) (m : Machine)
    → IsConfigured m.immu
    → w < m.immu.nways
    → bit_and (m.sprs spr_dsr) (dsr_mask ipf) ≡ 0
    → let r = first_way m.immu virtaddr + w * 256 in IsHit virtaddr r m (hit virtaddr r m)
hit-IsHit virtaddr w m c lt unmasked = elim (Bool-cases (is_denied m (m.sprs (r + 128)))) [
  | inl denied ↦ record {
    address =
        unfold hit in
        rw (test denied) (ap (λ tr. physical m.immu tr virtaddr) (kept ∙ touch-tr virtaddr w m));
    fault = inl (denied, unfold hit in rw (test denied) faults);
  }
  | inr allowed ↦ record {
    address =
        unfold hit in
        rw (test allowed) (ap (λ tr. physical m.immu tr virtaddr) (touch-tr virtaddr w m));
    fault = inr (allowed, unfold hit in rw (test allowed));
  }
]
  where
    r : ℕ
    r = first_way m.immu virtaddr + w * 256

    touched : Machine
    touched = touch virtaddr r m

    test :
        {b : Bool}
        → is_denied m (m.sprs (r + 128)) ≡ b
        → is_denied touched (touched.sprs (r + 128)) ≡ b
    test e = denied_after virtaddr w m ∙ e

    faults : IsDelivered ipf virtaddr touched (except_handle ipf virtaddr touched)
    faults = except_handle-IsDelivered ipf virtaddr touched (
        ap (λ d. bit_and d (dsr_mask ipf)) (touch-high virtaddr w spr_dsr m c lt (omega arith))
        ∙ unmasked)

    kept : (except_handle ipf virtaddr touched).sprs (r + 128) ≡ touched.sprs (r + 128)
    kept = Frame-at written_sprs touched.sprs _ (r + 128) faults.others (ground arith)

-- With translation switched on, at most four ways of at most 128 sets, and the page fault not
-- masked by the debug unit, a page that the TLB holds is translated by its translation register and
-- the offset of the address. A fetch that the protection bits deny in the mode of SR delivers the
-- instruction page fault with that address; any other leaves only what the hit itself does.
pub immu_translate-IsHit :
    (virtaddr r : ℕ) (m : Machine)
    → IsConfigured m.immu
    → bit_and (m.sprs spr_dsr) (dsr_mask ipf) ≡ 0
    → is_off m ≡ false
    → immu_find_tlbmr virtaddr m ≡ some r
    → IsHit virtaddr r m (immu_translate virtaddr m)
unfolding immu_translate
immu_translate-IsHit virtaddr r m c unmasked on e =
    let (w, lt, at) = found_at virtaddr r m e in
    rw (on, e)
      (subst (λ r. IsHit virtaddr r m (hit virtaddr r m)) (sym at)
        (hit-IsHit virtaddr w m c lt unmasked))

-- The state in which a miss raises its exception.
abbrev pub missed : Machine → Machine
missed m = record m {
  fetch_tlbmiss = m.fetch_tlbmiss + 1;
  mem_cycles = m.mem_cycles + m.immu.missdelay;
}

-- With translation switched on and the TLB miss not masked by the debug unit, a page that no way
-- holds delivers the instruction TLB miss with the address, is counted where the performance
-- counters are enabled, and answers 0.
pub immu_translate_miss :
    (virtaddr : ℕ) (m : Machine)
    → bit_and (m.sprs spr_dsr) (dsr_mask itlbmiss) ≡ 0
    → is_off m ≡ false
    → immu_find_tlbmr virtaddr m ≡ none
    → let out = immu_translate virtaddr m in
      (out.1 ≡ 0)
      × (m' : Machine) × IsDelivered itlbmiss virtaddr (missed m) m'
      × (out.0 ≡ (if m'.config.pcu_enabled then pcu_count_event spr_pcmr_itlbm m' else m'))
unfolding immu_translate miss
immu_translate_miss virtaddr m unmasked on e = (
  rw (on, e),
  except_handle itlbmiss virtaddr (missed m),
  except_handle-IsDelivered itlbmiss virtaddr (missed m) unmasked,
  rw (on, e),
)
