-- ===== src/Pic/Defs.antt =====
-- The operations. Each that adds a job can fault in the scheduler.
use openrisc_tools.Prelude.{ℕ, ◌%◌, ◌^◌, Bool, ◌&&◌, Option, some, ◌==◌, if◌then◌else◌, bit_or}
use openrisc_tools.Prelude.Int.{pos}
use openrisc_tools.Machine.{
  Machine, set_spr, test, clear, schedule_job, pic_rep_int_fn, spr_picmr, spr_picsr, spr_pmr,
  spr_sr, spr_eear_base, spr_upr, spr_pmr_dme, spr_pmr_sme, spr_sr_iee, spr_upr_picp,
}
use openrisc_tools.Except.{except_handle, int}

unfoldable pub pic_reset : Machine → Machine
pic_reset m = set_spr spr_picsr 0 (set_spr spr_picmr (if m.config.pic_use_nmi then 3 else 0) m)

unfoldable pub pic_rep_int : Machine → Machine
pic_rep_int m = if m.sprs spr_picsr == 0 then m else except_handle int (m.sprs spr_eear_base) m

unfoldable pub pic_ints_en : Machine → Option Machine
pic_ints_en m =
    if test (m.sprs spr_picmr) (m.sprs spr_picsr)
    then schedule_job pic_rep_int_fn 0 (pos 0) m
    else some m

-- `1 << line`, as a `uint32_t`. From line 32 on the shift is undefined in C; it gives 0 here.
abbrev pub line_mask : ℕ → ℕ
line_mask line = 2 ^ line % 2 ^ 32

-- The part of `report_interrupt` behind the test of the controller.
unfoldable pub signal_line : ℕ → Machine → Option Machine
signal_line lmask m =
    let m' = set_spr spr_picsr (bit_or (m.sprs spr_picsr) lmask) m in
    if test (m.sprs spr_picsr) lmask
    then some m
    else if test (m'.sprs spr_picmr) lmask && test (m'.sprs spr_sr) spr_sr_iee
    then schedule_job pic_rep_int_fn 0 (pos 0) m'
    else some m'

unfoldable pub report_interrupt : ℕ → Machine → Option Machine
unfolding signal_line
report_interrupt line m =
    let awake = set_spr spr_pmr (clear (m.sprs spr_pmr) (bit_or spr_pmr_dme spr_pmr_sme)) m in
    if m.config.pic_enabled
    then signal_line (line_mask line) awake
    else some (
        if test (awake.sprs spr_sr) spr_sr_iee
        then except_handle int (awake.sprs spr_eear_base) awake
        else awake)

unfoldable pub clear_interrupt : ℕ → Machine → Machine
clear_interrupt line m = set_spr spr_picsr (clear (m.sprs spr_picsr) (line_mask line)) m

-- The setters of the configuration.
unfoldable pub set_pic_enabled : Bool → Machine → Machine
set_pic_enabled val m =
    let upr = m.sprs spr_upr in
    let m' = set_spr spr_upr (if val then bit_or upr spr_upr_picp else clear upr spr_upr_picp) m in
    record m' { config = record m'.config { pic_enabled = val } }

unfoldable pub set_pic_edge_trigger : Bool → Machine → Machine
set_pic_edge_trigger val m = record m { config = record m.config { pic_edge_trigger = val } }

unfoldable pub set_pic_use_nmi : Bool → Machine → Machine
set_pic_use_nmi val m = record m { config = record m.config { pic_use_nmi = val } }
