-- ===== src/Dmmu/Config.antt =====
-- The configuration section of or1ksim/mmu/dmmu.c. A value that the configuration file gives is
-- taken not to be negative; a value that is refused is ignored.
use openrisc_tools.Prelude.{
  ℕ, ◌+◌, ◌-◌, ◌*◌, ◌%◌, ◌^◌, ◌&&◌, ◌==◌, leb, if◌then◌else◌, bit_and, bit_or,
}
use openrisc_tools.Support.{is_power2, log2_int}
use openrisc_tools.Machine.{
  Machine, Mmu, set_spr, clear, bit_not, spr_upr, spr_upr_dmp, spr_dmmucfgr, spr_dmmucfgr_nts,
  spr_dmmucfgr_nts_off, spr_dmmucfgr_ntw, spr_dmmucfgr_ntw_off, spr_dtlbmr_lru,
}

-- UPR says whether the unit is there.
unfoldable pub show_dmp : ℕ → Machine → Machine
show_dmp enabled m =
    let upr = m.sprs spr_upr in
    set_spr spr_upr (if enabled == 0 then clear upr spr_upr_dmp else bit_or upr spr_upr_dmp) m

unfoldable pub dmmu_enabled : ℕ → Machine → Machine
unfolding show_dmp
dmmu_enabled val m = record (show_dmp val m) { dmmu = record m.dmmu { enabled = val } }

-- `cpu_state.sprs[n] &= ~field; cpu_state.sprs[n] |= v << off;`
abbrev pub set_field : ℕ → ℕ → ℕ → Machine → Machine
set_field field v off m =
    let m' = set_spr spr_dmmucfgr (clear (m.sprs spr_dmmucfgr) field) m in
    set_spr spr_dmmucfgr (bit_or (m'.sprs spr_dmmucfgr) (v * 2 ^ off)) m'

unfoldable pub dmmu_nsets : ℕ → Machine → Machine
dmmu_nsets val m =
    if is_power2 val && leb val 128
    then set_field spr_dmmucfgr_nts (log2_int val) spr_dmmucfgr_nts_off
        (record m { dmmu = record m.dmmu { nsets = val } })
    else m

unfoldable pub dmmu_nways : ℕ → Machine → Machine
dmmu_nways val m =
    if leb 1 val && leb val 4
    then set_field spr_dmmucfgr_ntw (val - 1) spr_dmmucfgr_ntw_off
        (record m { dmmu = record m.dmmu { nways = val } })
    else m

unfoldable pub dmmu_pagesize : ℕ → Machine → Machine
dmmu_pagesize val m =
    if is_power2 val then record m { dmmu = record m.dmmu { pagesize = val } } else m

unfoldable pub dmmu_entrysize : ℕ → Machine → Machine
dmmu_entrysize val m =
    if is_power2 val then record m { dmmu = record m.dmmu { entrysize = val } } else m

unfoldable pub dmmu_ustates : ℕ → Machine → Machine
dmmu_ustates val m =
    if leb 2 val && leb val 4 then record m { dmmu = record m.dmmu { ustates = val } } else m

unfoldable pub dmmu_missdelay : ℕ → Machine → Machine
dmmu_missdelay val m = record m { dmmu = record m.dmmu { missdelay = val } }

unfoldable pub dmmu_hitdelay : ℕ → Machine → Machine
dmmu_hitdelay val m = record m { dmmu = record m.dmmu { hitdelay = val } }

-- The section's start: every value is set to its default. The fields that `dmmu_end_sec` computes
-- are whatever the new structure holds.
unfoldable pub dmmu_start_sec : Mmu → Machine → Machine
unfolding show_dmp
dmmu_start_sec fresh m =
    let dmmu = record fresh {
      enabled = 0;
      nsets = 1;
      nways = 1;
      pagesize = 8192;
      entrysize = 1;
      ustates = 2;
      hitdelay = 1;
      missdelay = 1;
    } in
    let m1 = show_dmp 0 m in
    let m2 = set_field spr_dmmucfgr_nts (log2_int 1) spr_dmmucfgr_nts_off m1 in
    let m3 = set_field spr_dmmucfgr_ntw (1 - 1) spr_dmmucfgr_ntw_off m2 in record m3 { dmmu = dmmu }

-- The section's end: the values that the translation uses are computed. The product of the sizes
-- wraps as an `int` is stored in a 32-bit address.
unfoldable pub dmmu_end_sec : Machine → Machine
dmmu_end_sec m =
    let offset = (m.dmmu.pagesize + 2 ^ 32 - 1) % 2 ^ 32 in
    let sets = (m.dmmu.nsets + 2 ^ 32 - 1) % 2 ^ 32 in
    record m {
      dmmu = record m.dmmu {
        pagesize_log2 = log2_int m.dmmu.pagesize;
        page_offset_mask = offset;
        page_mask = bit_not offset;
        vpn_mask = bit_not ((m.dmmu.pagesize * m.dmmu.nsets + 2 ^ 32 - 1) % 2 ^ 32);
        set_mask = sets;
        lru_reload = bit_and (sets * 2 ^ 6 % 2 ^ 32) spr_dtlbmr_lru;
      };
    }
