-- ===== src/Immu/Defs.antt =====
-- The lookup and the translation of or1ksim/mmu/immu.c. A pointer to a TLB register is its number.
use openrisc_tools.Prelude.{
  ℕ, ◌+◌, ◌*◌, Bool, not, ◌||◌, Option, none, some, leb, if◌then◌else◌, bit_and, bit_or,
}
use openrisc_tools.Machine.{
  Machine, Mmu, set_spr, test, spr_sr, spr_upr, spr_sr_ime, spr_sr_sm, spr_upr_imp, spr_itlbtr_ci,
  spr_itlbtr_sxe, spr_itlbtr_uxe, spr_pcmr_itlbm,
}
use openrisc_tools.Tlb.{set_of, find_way, age_ways, physical}
use openrisc_tools.Except.{except_handle, ipf, itlbmiss}
use openrisc_tools.Pcu.{pcu_count_event}

abbrev pub spr_itlbmr_base : ℕ → ℕ
spr_itlbmr_base way = 0x1000 + 0x200 + way * 0x100

abbrev pub spr_itlbtr_base : ℕ → ℕ
spr_itlbtr_base way = 0x1000 + 0x280 + way * 0x100

-- The first register of the set, which the source returns through `itlbmr_lru`.
abbrev pub first_way : Mmu → ℕ → ℕ
first_way mmu virtaddr = spr_itlbmr_base 0 + set_of mmu virtaddr

unfoldable pub immu_find_tlbmr : ℕ → Machine → Option ℕ
unfolding set_of find_way
immu_find_tlbmr virtaddr m =
    find_way m.immu m.sprs virtaddr m.immu.nways (first_way m.immu virtaddr)

-- A fetch that the protection bits of the translation register do not allow.
unfoldable pub is_denied : Machine → ℕ → Bool
is_denied m itlbtr =
    if test (m.sprs spr_sr) spr_sr_sm
    then not (test itlbtr spr_itlbtr_sxe)
    else not (test itlbtr spr_itlbtr_uxe)

abbrev pub is_off : Machine → Bool
is_off m = not (test (m.sprs spr_sr) spr_sr_ime) || not (test (m.sprs spr_upr) spr_upr_imp)

-- The fetch goes round the cache from 0x80000000 on.
abbrev pub uncached : ℕ → ℕ
uncached virtaddr = if leb 0x8000_0000 virtaddr then 1 else 0

-- A hit on the register `itlbmr`, up to the test for a page fault.
unfoldable pub touch : ℕ → ℕ → Machine → Machine
unfolding age_ways set_of
touch virtaddr itlbmr m =
    let m1 = record m { fetch_tlbhit = m.fetch_tlbhit + 1 } in
    let m2 = age_ways m.immu.nways (first_way m.immu virtaddr) m1 in
    let m3 = set_spr itlbmr (bit_or (m2.sprs itlbmr) m.immu.lru_reload) m2 in
    record m3 {
      insn_ci = bit_and (m3.sprs (itlbmr + 128)) spr_itlbtr_ci;
      mem_cycles = m3.mem_cycles + m.immu.hitdelay;
    }

-- The state after a hit, and the physical address.
unfoldable pub hit : ℕ → ℕ → Machine → Machine × ℕ
unfolding touch is_denied
hit virtaddr itlbmr m =
    let m4 = touch virtaddr itlbmr m in
    let m5 = if is_denied m4 (m4.sprs (itlbmr + 128)) then except_handle ipf virtaddr m4 else m4 in
    (m5, physical m.immu (m5.sprs (itlbmr + 128)) virtaddr)

unfoldable pub miss : ℕ → Machine → Machine × ℕ
miss virtaddr m =
    let m1 = record m {
      fetch_tlbmiss = m.fetch_tlbmiss + 1;
      mem_cycles = m.mem_cycles + m.immu.missdelay;
    } in
    let m2 = except_handle itlbmiss virtaddr m1 in
    (if m2.config.pcu_enabled then pcu_count_event spr_pcmr_itlbm m2 else m2, 0)

unfoldable pub immu_translate : ℕ → Machine → Machine × ℕ
unfolding hit miss immu_find_tlbmr
immu_translate virtaddr m =
    if is_off m
    then (record m { insn_ci = uncached virtaddr }, virtaddr)
    else elim (immu_find_tlbmr virtaddr m) [
      | none ↦ miss virtaddr m
      | some itlbmr ↦ hit virtaddr itlbmr m
    ]

-- `peek_into_itlb` on a hit.
unfoldable pub peek_hit : ℕ → ℕ → Machine → ℕ
unfolding is_denied
peek_hit virtaddr itlbmr m =
    let itlbtr = m.sprs (itlbmr + 128) in
    if is_denied m itlbtr then 0 else physical m.immu itlbtr virtaddr

unfoldable pub peek_into_itlb : ℕ → Machine → ℕ
unfolding peek_hit immu_find_tlbmr
peek_into_itlb virtaddr m =
    if is_off m
    then virtaddr
    else elim (immu_find_tlbmr virtaddr m) [ none ↦ 0 | some itlbmr ↦ peek_hit virtaddr itlbmr m ]
