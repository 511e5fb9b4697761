-- ===== src/Dmmu/Peek.antt =====
-- The peek of or1ksim/mmu/dmmu.c beside the translation.
use openrisc_tools.Prelude.{
  ℕ, ◌+◌, ◌≡◌, Bool, true, false, none, some, inl, inr, Bool-cases, Option-cases, arith,
  if◌then◌else◌, bit_and,
}
use openrisc_tools.Machine.{Machine, spr_dsr}
use openrisc_tools.Except.{dsr_mask, dpf}
use openrisc_tools.Dmmu.Defs.{
  dmmu_find_tlbmr, is_denied, is_off, miss, dmmu_translate, peek_into_dtlb, peek_hit,
}
use openrisc_tools.Tlb.{IsConfigured}
use openrisc_tools.Dmmu.Translate.{dmmu_translate_off, dmmu_translate-IsHit}

-- Whether a translation would raise the page fault.
unfoldable pub page_fault : ℕ → Bool → Machine → Bool
page_fault virtaddr write_access m = if is_off m then false else elim (dmmu_find_tlbmr virtaddr m) [
  | none ↦ false
  | some r ↦ is_denied m write_access (m.sprs (r + 128))
]

peek-keeps :
    (virtaddr : ℕ) (write_access through_dc : Bool) (m : Machine)
    → let out = peek_into_dtlb virtaddr write_access through_dc m in
      (out.0.sprs ≡ m.sprs) × (out.0.except_pending ≡ m.except_pending)
unfolding peek_into_dtlb peek_hit
peek-keeps virtaddr write_access through_dc m = (ground arith, ground arith)

page_fault_off :
    (virtaddr : ℕ) (write_access : Bool) (m : Machine)
    → is_off m ≡ true
    → page_fault virtaddr write_access m ≡ false
unfolding page_fault
page_fault_off virtaddr write_access m off = rw off

peek-on :
    (virtaddr : ℕ) (write_access through_dc : Bool) (m : Machine)
    → IsConfigured m.dmmu
    → bit_and (m.sprs spr_dsr) (dsr_mask dpf) ≡ 0
    → is_off m ≡ false
    → (peek_into_dtlb virtaddr write_access through_dc m).1 ≡ (
        if page_fault virtaddr write_access m
        then 0
        else (dmmu_translate virtaddr write_access m).1)
peek-on virtaddr write_access through_dc m c unmasked on =
    elim (Option-cases (dmmu_find_tlbmr virtaddr m)) [
      | inl e ↦ unfold peek_into_dtlb page_fault dmmu_translate miss in rw (on, e)
      | inr p ↦
          let translated =
            (dmmu_translate-IsHit virtaddr p.0 write_access m c unmasked on p.1).address in
          elim (Bool-cases (is_denied m write_access (m.sprs (p.0 + 128)))) [
            | inl denied ↦
                rw translated (unfold peek_into_dtlb page_fault peek_hit in rw (on, p.1, denied))
            | inr allowed ↦
                rw translated (unfold peek_into_dtlb page_fault peek_hit in rw (on, p.1, allowed))
          ]
    ]

-- With at most four ways of at most 128 sets, and the page fault not masked by the debug unit, the
-- peek answers what the translation would, or 0 where that would raise a page fault; it writes no
-- special purpose register and leaves the pending flag.
pub peek-translate :
    (virtaddr : ℕ) (write_access through_dc : Bool) (m : Machine)
    → IsConfigured m.dmmu
    → bit_and (m.sprs spr_dsr) (dsr_mask dpf) ≡ 0
    → let out = peek_into_dtlb virtaddr write_access through_dc m in
      (out.1 ≡ (
        if page_fault virtaddr write_access m
        then 0
        else (dmmu_translate virtaddr write_access m).1))
      × (out.0.sprs ≡ m.sprs)
      × (out.0.except_pending ≡ m.except_pending)
peek-translate virtaddr write_access through_dc m c unmasked = (
  elim (Bool-cases (is_off m)) [
    | inl off ↦
        rw
          (
            page_fault_off virtaddr write_access m off,
            dmmu_translate_off virtaddr write_access m off,
          )
          (unfold peek_into_dtlb in rw off)
    | inr on ↦ peek-on virtaddr write_access through_dc m c unmasked on
  ],
  (peek-keeps virtaddr write_access through_dc m).0,
  (peek-keeps virtaddr write_access through_dc m).1,
)
