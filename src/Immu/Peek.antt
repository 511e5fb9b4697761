-- ===== src/Immu/Peek.antt =====
-- The peek of or1ksim/mmu/immu.c beside the translation.
use openrisc_tools.Prelude.{
  ℕ, ◌+◌, ◌≡◌, Bool, true, false, none, some, inl, inr, Bool-cases, Option-cases, if◌then◌else◌,
  bit_and,
}
use openrisc_tools.Machine.{Machine, spr_dsr}
use openrisc_tools.Except.{dsr_mask, ipf}
use openrisc_tools.Immu.Defs.{
  immu_find_tlbmr, is_denied, is_off, miss, immu_translate, peek_into_itlb, peek_hit,
}
use openrisc_tools.Tlb.{IsConfigured}
use openrisc_tools.Immu.Translate.{immu_translate_off, immu_translate-IsHit}

-- Whether a translation would raise the page fault.
unfoldable pub page_fault : ℕ → Machine → Bool
page_fault virtaddr m = if is_off m then false else elim (immu_find_tlbmr virtaddr m) [
  | none ↦ false
  | some r ↦ is_denied m (m.sprs (r + 128))
]

page_fault_off : (virtaddr : ℕ) (m : Machine) → is_off m ≡ true → page_fault virtaddr m ≡ false
unfolding page_fault
page_fault_off virtaddr m off = rw off

peek-on :
    (virtaddr : ℕ) (m : Machine)
    → IsConfigured m.immu
    → bit_and (m.sprs spr_dsr) (dsr_mask ipf) ≡ 0
    → is_off m ≡ false
    → peek_into_itlb virtaddr m
      ≡ (if page_fault virtaddr m then 0 else (immu_translate virtaddr m).1)
peek-on virtaddr m c unmasked on = elim (Option-cases (immu_find_tlbmr virtaddr m)) [
  | inl e ↦ unfold peek_into_itlb page_fault immu_translate miss in rw (on, e)
  | inr p ↦
      let translated = (immu_translate-IsHit virtaddr p.0 m c unmasked on p.1).address in
      elim (Bool-cases (is_denied m (m.sprs (p.0 + 128)))) [
        | inl denied ↦
            rw translated (unfold peek_into_itlb page_fault peek_hit in rw (on, p.1, denied))
        | inr allowed ↦
            rw translated (unfold peek_into_itlb page_fault peek_hit in rw (on, p.1, allowed))
      ]
]

-- With at most four ways of at most 128 sets, and the page fault not masked by the debug unit, the
-- peek answers what the translation would, or 0 where that would raise a page fault.
pub peek_into_itlb_lem :
    (virtaddr : ℕ) (m : Machine)
    → IsConfigured m.immu
    → bit_and (m.sprs spr_dsr) (dsr_mask ipf) ≡ 0
    → peek_into_itlb virtaddr m
      ≡ (if page_fault virtaddr m then 0 else (immu_translate virtaddr m).1)
peek_into_itlb_lem virtaddr m c unmasked = elim (Bool-cases (is_off m)) [
  | inl off ↦
      rw (page_fault_off virtaddr m off, immu_translate_off virtaddr m off)
        (unfold peek_into_itlb in rw off)
  | inr on ↦ peek-on virtaddr m c unmasked on
]
