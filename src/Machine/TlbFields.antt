-- ===== src/Machine/TlbFields.antt =====
-- The fields of the registers of the TLBs, or1ksim/cpu/or1k/spr-defs.h.
use openrisc_tools.Prelude.{ℕ}

abbrev pub spr_dtlbmr_v : ℕ
spr_dtlbmr_v = 0x00000001

abbrev pub spr_dtlbmr_pl1 : ℕ
spr_dtlbmr_pl1 = 0x00000002

abbrev pub spr_dtlbmr_cid : ℕ
spr_dtlbmr_cid = 0x0000003c

abbrev pub spr_dtlbmr_lru : ℕ
spr_dtlbmr_lru = 0x000000c0

abbrev pub spr_dtlbtr_cc : ℕ
spr_dtlbtr_cc = 0x00000001

abbrev pub spr_dtlbtr_ci : ℕ
spr_dtlbtr_ci = 0x00000002

abbrev pub spr_dtlbtr_wbc : ℕ
spr_dtlbtr_wbc = 0x00000004

abbrev pub spr_dtlbtr_wom : ℕ
spr_dtlbtr_wom = 0x00000008

abbrev pub spr_dtlbtr_a : ℕ
spr_dtlbtr_a = 0x00000010

abbrev pub spr_dtlbtr_d : ℕ
spr_dtlbtr_d = 0x00000020

abbrev pub spr_dtlbtr_ure : ℕ
spr_dtlbtr_ure = 0x00000040

abbrev pub spr_dtlbtr_uwe : ℕ
spr_dtlbtr_uwe = 0x00000080

abbrev pub spr_dtlbtr_sre : ℕ
spr_dtlbtr_sre = 0x00000100

abbrev pub spr_dtlbtr_swe : ℕ
spr_dtlbtr_swe = 0x00000200

abbrev pub spr_dtlbtr_ppn : ℕ
spr_dtlbtr_ppn = 0xffffe000

abbrev pub spr_itlbmr_v : ℕ
spr_itlbmr_v = 0x00000001

abbrev pub spr_itlbmr_pl1 : ℕ
spr_itlbmr_pl1 = 0x00000002

abbrev pub spr_itlbmr_cid : ℕ
spr_itlbmr_cid = 0x0000003c

abbrev pub spr_itlbmr_lru : ℕ
spr_itlbmr_lru = 0x000000c0

abbrev pub spr_itlbtr_cc : ℕ
spr_itlbtr_cc = 0x00000001

abbrev pub spr_itlbtr_ci : ℕ
spr_itlbtr_ci = 0x00000002

abbrev pub spr_itlbtr_wbc : ℕ
spr_itlbtr_wbc = 0x00000004

abbrev pub spr_itlbtr_wom : ℕ
spr_itlbtr_wom = 0x00000008

abbrev pub spr_itlbtr_a : ℕ
spr_itlbtr_a = 0x00000010

abbrev pub spr_itlbtr_d : ℕ
spr_itlbtr_d = 0x00000020

abbrev pub spr_itlbtr_sxe : ℕ
spr_itlbtr_sxe = 0x00000040

abbrev pub spr_itlbtr_uxe : ℕ
spr_itlbtr_uxe = 0x00000080
