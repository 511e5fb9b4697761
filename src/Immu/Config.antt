-- ===== src/Immu/Config.antt =====
-- The configuration section of or1ksim/mmu/immu.c. A value that the configuration file gives is
-- taken not to be negative; a value that is refused is ignored.
use openrisc_tools.Prelude.{
  ℕ, ◌+◌, ◌-◌, ◌*◌, ◌%◌, ◌^◌, ◌&&◌, ◌==◌, leb, if◌then◌else◌, bit_and, bit_or,
}
use openrisc_tools.Support.{is_power2, log2_int}
use openrisc_tools.Machine.{
  Machine, Mmu, set_spr, clear, bit_not, spr_upr, spr_upr_imp, spr_immucfgr, spr_immucfgr_nts,
  spr_immucfgr_nts_off, spr_immucfgr_ntw, spr_immucfgr_ntw_off, spr_itlbmr_lru,
}

-- UPR says whether the unit is there.
unfoldable pub show_imp : ℕ → Machine → Machine
show_imp enabled m =
    let upr = m.sprs spr_upr in
    set_spr spr_upr (if enabled == 0 then clear upr spr_upr_imp else bit_or upr spr_upr_imp) m

unfoldable pub immu_enabled : ℕ → Machine → Machine
unfolding show_imp
immu_enabled val m = record (show_imp val m) { immu = record m.immu { enabled = val } }

-- `cpu_state.sprs[n] &= ~field; cpu_state.sprs[n] |= v << off;`
abbrev pub set_field : ℕ → ℕ → ℕ → Machine → Machine
set_field field v off m =
    let m' = set_spr spr_immucfgr (clear (m.sprs spr_immucfgr) field) m in
    set_spr spr_immucfgr (bit_or (m'.sprs spr_immucfgr) (v * 2 ^ off)) m'

unfoldable pub immu_nsets : ℕ → Machine → Machine
immu_nsets val m =
    if is_power2 val && leb val 128
    then set_field spr_immucfgr_nts (log2_int val) spr_immucfgr_nts_off
        (record m { immu = record m.immu { nsets = val } })
    else m

unfoldable pub immu_nways : ℕ → Machine → Machine
immu_nways val m =
    if leb 1 val && leb val 4
    then set_field spr_immucfgr_ntw (val - 1) spr_immucfgr_ntw_off
        (record m { immu = record m.immu { nways = val } })
    else m

unfoldable pub immu_pagesize : ℕ → Machine → Machine
immu_pagesize val m =
    if is_power2 val then record m { immu = record m.immu { pagesize = val } } else m

unfoldable pub immu_entrysize : ℕ → Machine → Machine
immu_entrysize val m =
    if is_power2 val then record m { immu = record m.immu { entrysize = val } } else m

unfoldable pub immu_ustates : ℕ → Machine → Machine
immu_ustates val m =
    if leb 2 val && leb val 4 then record m { immu = record m.immu { ustates = val } } else m

unfoldable pub immu_missdelay : ℕ → Machine → Machine
immu_missdelay val m = record m { immu = record m.immu { missdelay = val } }

unfoldable pub immu_hitdelay : ℕ → Machine → Machine
immu_hitdelay val m = record m { immu = record m.immu { hitdelay = val } }

-- The section's start: every value is set to its default. The fields that `immu_end_sec` computes
-- are whatever the new structure holds.
unfoldable pub immu_start_sec : Mmu → Machine → Machine
unfolding show_imp
immu_start_sec fresh m =
    let immu = record fresh {
      enabled = 0;
      nsets = 1;
      nways = 1;
      pagesize = 8192;
      entrysize = 1;
      ustates = 2;
      hitdelay = 1;
      missdelay = 1;
    } in
    let m1 = show_imp 0 m in
    let m2 = set_field spr_immucfgr_nts (log2_int 1) spr_immucfgr_nts_off m1 in
    let m3 = set_field spr_immucfgr_ntw (1 - 1) spr_immucfgr_ntw_off m2 in record m3 { immu = immu }

-- The section's end: the values that the translation uses are computed. The product of the sizes
-- wraps as an `int` is stored in a 32-bit address.
unfoldable pub immu_end_sec : Machine → Machine
immu_end_sec m =
    let offset = (m.immu.pagesize + 2 ^ 32 - 1) % 2 ^ 32 in
    let sets = (m.immu.nsets + 2 ^ 32 - 1) % 2 ^ 32 in
    record m {
      immu = record m.immu {
        pagesize_log2 = log2_int m.immu.pagesize;
        page_offset_mask = offset;
        page_mask = bit_not offset;
        vpn_mask = bit_not ((m.immu.pagesize * m.immu.nsets + 2 ^ 32 - 1) % 2 ^ 32);
        set_mask = sets;
        lru_reload = bit_and (sets * 2 ^ 6 % 2 ^ 32) spr_itlbmr_lru;
      };
    }
