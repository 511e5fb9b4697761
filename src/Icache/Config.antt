-- ===== src/Icache/Config.antt =====
-- The section `ic`: its start, its setters and its end. `icp` and the fields of ICCFGR show it.
use openrisc_tools.Prelude.{
  ℕ, ◌-◌, ◌*◌, ◌^◌, Bool, ◌&&◌, ◌==◌, leb, not, false, if◌then◌else◌, bit_or,
}
use openrisc_tools.Machine.{
  Machine, Icache, set_spr, clear, bit_not, spr_upr, spr_upr_icp, spr_iccfgr, spr_iccfgr_ncw,
  spr_iccfgr_ncs, spr_iccfgr_cbs, spr_iccfgr_ncw_off, spr_iccfgr_ncs_off,
}
use openrisc_tools.Support.{is_power2, log2_int}

abbrev set_iccfgr : ℕ → ℕ → ℕ → Machine → Machine
set_iccfgr field v off m =
    let m' = set_spr spr_iccfgr (clear (m.sprs spr_iccfgr) field) m in
    set_spr spr_iccfgr (bit_or (m'.sprs spr_iccfgr) (v * 2 ^ off)) m'

abbrev show_icp : Bool → Machine → Machine
show_icp on m =
    let upr = m.sprs spr_upr in
    set_spr spr_upr (if on then bit_or upr spr_upr_icp else clear upr spr_upr_icp) m

unfoldable pub ic_enabled : ℕ → Machine → Machine
ic_enabled val m =
    let on = not (val == 0) in show_icp on (record m { ic = record m.ic { enabled = on } })

unfoldable pub ic_nsets : ℕ → Machine → Machine
ic_nsets val m =
    if is_power2 val && leb val 1024
    then set_iccfgr spr_iccfgr_ncs (log2_int val) spr_iccfgr_ncs_off
        (record m { ic = record m.ic { nsets = val } })
    else m

unfoldable pub ic_nways : ℕ → Machine → Machine
ic_nways val m =
    if is_power2 val && leb val 32
    then set_iccfgr spr_iccfgr_ncw (log2_int val) spr_iccfgr_ncw_off
        (record m { ic = record m.ic { nways = val } })
    else m

unfoldable pub ic_blocksize : ℕ → Machine → Machine
ic_blocksize val m =
    let cfg = m.sprs spr_iccfgr in
    let m' = record m { ic = record m.ic { blocksize = val } } in
    if val == 16
    then set_spr spr_iccfgr (clear cfg spr_iccfgr_cbs) m'
    else if val == 32
    then set_spr spr_iccfgr (bit_or cfg spr_iccfgr_cbs) m'
    else m

unfoldable pub ic_ustates : ℕ → Machine → Machine
ic_ustates val m =
    if leb 2 val && leb val 4 then record m { ic = record m.ic { ustates = val } } else m

unfoldable pub ic_hitdelay : ℕ → Machine → Machine
ic_hitdelay val m = record m { ic = record m.ic { hitdelay = val } }

unfoldable pub ic_missdelay : ℕ → Machine → Machine
ic_missdelay val m = record m { ic = record m.ic { missdelay = val } }

-- `fresh` is what `malloc` returns: the fields that are not set stay as they are in it.
unfoldable pub ic_start_sec : Icache → Machine → Machine
ic_start_sec fresh m =
    let ic = record fresh {
      enabled = false;
      nsets = 1;
      nways = 1;
      blocksize = 16;
      ustates = 2;
      hitdelay = 1;
      missdelay = 1;
    } in
    let m1 = show_icp false m in
    let m2 = set_iccfgr spr_iccfgr_ncs (log2_int 1) spr_iccfgr_ncs_off m1 in
    let m3 = set_iccfgr spr_iccfgr_ncw (log2_int 1) spr_iccfgr_ncw_off m2 in
    record (set_spr spr_iccfgr (clear (m3.sprs spr_iccfgr) spr_iccfgr_cbs) m3) { ic = ic }

-- The end: the memory of the cache, and the masks. Every tag is -1.
unfoldable pub ic_end_sec : Machine → Machine
ic_end_sec m =
    let ic = m.ic in
    let empty = ic.nways * ic.nsets * ic.blocksize == 0 in
    let size_log2 = log2_int ic.blocksize in
    record m {
      ic = record ic {
        mem = if empty then ic.mem else (λ a. 0);
        lrus = if empty then ic.lrus else (λ w. 0);
        tags = if empty then ic.tags else (λ w. 2 ^ 32 - 1);
        enabled = if empty then false else ic.enabled;
        blocksize_log2 = size_log2;
        set_mask = (ic.nsets - 1) * 2 ^ size_log2;
        tagaddr_mask = bit_not (ic.nsets * ic.blocksize - 1);
        last_way = ic.nsets * ic.nways;
        block_offset_mask = ic.blocksize - 1;
        block_mask = bit_not (ic.blocksize - 1);
        ustates_reload = ic.ustates - 1;
      };
    }
