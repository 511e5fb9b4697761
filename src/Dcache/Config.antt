-- ===== src/Dcache/Config.antt =====
-- The setters of the section `dc`.
use openrisc_tools.Prelude.{ℕ, ◌*◌, ◌^◌, ◌&&◌, ◌==◌, leb, not, if◌then◌else◌, bit_or}
use openrisc_tools.Machine.{
  Machine, DcConfig, set_spr, clear, spr_upr, spr_upr_dcp, spr_dccfgr, spr_dccfgr_ncw,
  spr_dccfgr_ncs, spr_dccfgr_cbs, spr_dccfgr_ncw_off, spr_dccfgr_ncs_off,
}
use openrisc_tools.Support.{is_power2, log2_int}

abbrev set_dc : DcConfig → Machine → Machine
set_dc c m = record m { config = record m.config { dc = c } }

-- A field of DCCFGR.
abbrev set_dccfgr : ℕ → ℕ → ℕ → Machine → Machine
set_dccfgr field v off m =
    let m' = set_spr spr_dccfgr (clear (m.sprs spr_dccfgr) field) m in
    set_spr spr_dccfgr (bit_or (m'.sprs spr_dccfgr) (v * 2 ^ off)) m'

unfoldable pub dc_enabled : ℕ → Machine → Machine
dc_enabled val m =
    let on = not (val == 0) in
    let upr = m.sprs spr_upr in
    let m' = set_spr spr_upr (if on then bit_or upr spr_upr_dcp else clear upr spr_upr_dcp) m in
    set_dc (record m'.config.dc { enabled = on }) m'

unfoldable pub dc_nsets : ℕ → Machine → Machine
dc_nsets val m =
    if is_power2 val && leb val 1024
    then set_dccfgr spr_dccfgr_ncs (log2_int val) spr_dccfgr_ncs_off
        (set_dc (record m.config.dc { nsets = val }) m)
    else m

unfoldable pub dc_nways : ℕ → Machine → Machine
dc_nways val m =
    if is_power2 val && leb val 32
    then set_dccfgr spr_dccfgr_ncw (log2_int val) spr_dccfgr_ncw_off
        (set_dc (record m.config.dc { nways = val }) m)
    else m

unfoldable pub dc_blocksize : ℕ → Machine → Machine
dc_blocksize val m =
    let cfg = m.sprs spr_dccfgr in
    let m' = set_dc (record m.config.dc { blocksize = val }) m in
    if val == 16
    then set_spr spr_dccfgr (clear cfg spr_dccfgr_cbs) m'
    else if val == 32
    then set_spr spr_dccfgr (bit_or cfg spr_dccfgr_cbs) m'
    else m

unfoldable pub dc_ustates : ℕ → Machine → Machine
dc_ustates val m =
    if leb 2 val && leb val 4 then set_dc (record m.config.dc { ustates = val }) m else m

unfoldable pub dc_load_hitdelay : ℕ → Machine → Machine
dc_load_hitdelay val m = set_dc (record m.config.dc { load_hitdelay = val }) m

unfoldable pub dc_load_missdelay : ℕ → Machine → Machine
dc_load_missdelay val m = set_dc (record m.config.dc { load_missdelay = val }) m

unfoldable pub dc_store_hitdelay : ℕ → Machine → Machine
dc_store_hitdelay val m = set_dc (record m.config.dc { store_hitdelay = val }) m

unfoldable pub dc_store_missdelay : ℕ → Machine → Machine
dc_store_missdelay val m = set_dc (record m.config.dc { store_missdelay = val }) m
