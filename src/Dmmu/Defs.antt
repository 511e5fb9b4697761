-- ===== src/Dmmu/Defs.antt =====
-- The lookup and the translation of or1ksim/mmu/dmmu.c. A pointer to a TLB register is its number.
use openrisc_tools.Prelude.{
  ℕ, ◌+◌, ◌*◌, Bool, not, ◌&&◌, ◌||◌, Option, none, some, leb, if◌then◌else◌, bit_and, bit_or,
}
use openrisc_tools.Machine.{
  Machine, Mmu, set_spr, test, spr_sr, spr_upr, spr_sr_dme, spr_sr_sm, spr_upr_dmp, spr_dtlbtr_ci,
  spr_dtlbtr_swe, spr_dtlbtr_sre, spr_dtlbtr_uwe, spr_dtlbtr_ure, spr_pcmr_dtlbm,
}
use openrisc_tools.Tlb.{set_of, find_way, age_ways, physical}
use openrisc_tools.Except.{except_handle, dpf, dtlbmiss}
use openrisc_tools.Pcu.{pcu_count_event}

abbrev pub spr_dtlbmr_base : ℕ → ℕ
spr_dtlbmr_base way = 0x800 + 0x200 + way * 0x100

abbrev pub spr_dtlbtr_base : ℕ → ℕ
spr_dtlbtr_base way = 0x800 + 0x280 + way * 0x100

-- The first register of the set, which the source returns through `dtlbmr_lru`.
abbrev pub first_way : Mmu → ℕ → ℕ
first_way mmu virtaddr = spr_dtlbmr_base 0 + set_of mmu virtaddr

unfoldable pub dmmu_find_tlbmr : ℕ → Machine → Option ℕ
unfolding set_of find_way
dmmu_find_tlbmr virtaddr m =
    find_way m.dmmu m.sprs virtaddr m.dmmu.nways (first_way m.dmmu virtaddr)

-- The access that the protection bits of the translation register do not allow.
unfoldable pub is_denied : Machine → Bool → ℕ → Bool
is_denied m write_access dtlbtr =
    if test (m.sprs spr_sr) spr_sr_sm
    then write_access && not (test dtlbtr spr_dtlbtr_swe)
      || not write_access && not (test dtlbtr spr_dtlbtr_sre)
    else write_access && not (test dtlbtr spr_dtlbtr_uwe)
      || not write_access && not (test dtlbtr spr_dtlbtr_ure)

abbrev pub is_off : Machine → Bool
is_off m = not (test (m.sprs spr_sr) spr_sr_dme) || not (test (m.sprs spr_upr) spr_upr_dmp)

-- The access goes round the cache from 0x80000000 on.
abbrev pub uncached : ℕ → ℕ
uncached virtaddr = if leb 0x8000_0000 virtaddr then 1 else 0

-- A hit on the register `dtlbmr`, up to the test for a page fault.
unfoldable pub touch : ℕ → ℕ → Machine → Machine
unfolding age_ways set_of
touch virtaddr dtlbmr m =
    let m1 = record m { loads_tlbhit = m.loads_tlbhit + 1 } in
    let m2 = age_ways m.dmmu.nways (first_way m.dmmu virtaddr) m1 in
    let m3 = set_spr dtlbmr (bit_or (m2.sprs dtlbmr) m.dmmu.lru_reload) m2 in
    record m3 {
      data_ci = bit_and (m3.sprs (dtlbmr + 128)) spr_dtlbtr_ci;
      mem_cycles = m3.mem_cycles + m.dmmu.hitdelay;
    }

-- The state after a hit, and the physical address.
unfoldable pub hit : ℕ → Bool → ℕ → Machine → Machine × ℕ
unfolding touch is_denied
hit virtaddr write_access dtlbmr m =
    let m4 = touch virtaddr dtlbmr m in
    let m5 =
      if is_denied m4 write_access (m4.sprs (dtlbmr + 128))
      then except_handle dpf virtaddr m4
      else m4 in
    (m5, physical m.dmmu (m5.sprs (dtlbmr + 128)) virtaddr)

unfoldable pub miss : ℕ → Machine → Machine × ℕ
miss virtaddr m =
    let m1 = record m {
      loads_tlbmiss = m.loads_tlbmiss + 1;
      mem_cycles = m.mem_cycles + m.dmmu.missdelay;
    } in
    let m2 = except_handle dtlbmiss virtaddr m1 in
    (if m2.config.pcu_enabled then pcu_count_event spr_pcmr_dtlbm m2 else m2, 0)

unfoldable pub dmmu_translate : ℕ → Bool → Machine → Machine × ℕ
unfolding hit miss dmmu_find_tlbmr
dmmu_translate virtaddr write_access m =
    if is_off m
    then (record m { data_ci = uncached virtaddr }, virtaddr)
    else elim (dmmu_find_tlbmr virtaddr m) [
      | none ↦ miss virtaddr m
      | some dtlbmr ↦ hit virtaddr write_access dtlbmr m
    ]

-- `peek_into_dtlb` on a hit.
unfoldable pub peek_hit : ℕ → Bool → Bool → ℕ → Machine → Machine × ℕ
unfolding is_denied
peek_hit virtaddr write_access through_dc dtlbmr m =
    let m1 = record m { loads_tlbhit = m.loads_tlbhit + 1 } in
    let dtlbtr = m1.sprs (dtlbmr + 128) in
    if is_denied m1 write_access dtlbtr then (m1, 0) else (
      if through_dc then record m1 { data_ci = bit_and dtlbtr spr_dtlbtr_ci } else m1,
      physical m.dmmu dtlbtr virtaddr,
    )

unfoldable pub peek_into_dtlb : ℕ → Bool → Bool → Machine → Machine × ℕ
unfolding peek_hit dmmu_find_tlbmr
peek_into_dtlb virtaddr write_access through_dc m =
    if is_off m
    then (if through_dc then record m { data_ci = uncached virtaddr } else m, virtaddr)
    else elim (dmmu_find_tlbmr virtaddr m) [
      | none ↦ (m, 0)
      | some dtlbmr ↦ peek_hit virtaddr write_access through_dc dtlbmr m
    ]
