-- ===== src/Machine/Fields.antt =====
-- The fields of the special purpose registers but those of the TLBs, or1ksim/cpu/or1k/spr-defs.h.
use openrisc_tools.Prelude.{ℕ}

abbrev pub spr_upr_dcp : ℕ
spr_upr_dcp = 0x00000002

abbrev pub spr_upr_icp : ℕ
spr_upr_icp = 0x00000004

abbrev pub spr_upr_dmp : ℕ
spr_upr_dmp = 0x00000008

abbrev pub spr_upr_imp : ℕ
spr_upr_imp = 0x00000010

abbrev pub spr_upr_pcup : ℕ
spr_upr_pcup = 0x00000080

abbrev pub spr_upr_pmp : ℕ
spr_upr_pmp = 0x00000100

abbrev pub spr_upr_picp : ℕ
spr_upr_picp = 0x00000200

abbrev pub spr_sr_sm : ℕ
spr_sr_sm = 0x00000001

abbrev pub spr_sr_tee : ℕ
spr_sr_tee = 0x00000002

abbrev pub spr_sr_iee : ℕ
spr_sr_iee = 0x00000004

abbrev pub spr_sr_dce : ℕ
spr_sr_dce = 0x00000008

abbrev pub spr_sr_ice : ℕ
spr_sr_ice = 0x00000010

abbrev pub spr_sr_dme : ℕ
spr_sr_dme = 0x00000020

abbrev pub spr_sr_ime : ℕ
spr_sr_ime = 0x00000040

abbrev pub spr_sr_f : ℕ
spr_sr_f = 0x00000200

abbrev pub spr_sr_cy : ℕ
spr_sr_cy = 0x00000400

abbrev pub spr_sr_ov : ℕ
spr_sr_ov = 0x00000800

abbrev pub spr_sr_ove : ℕ
spr_sr_ove = 0x00001000

abbrev pub spr_sr_eph : ℕ
spr_sr_eph = 0x00004000

abbrev pub spr_sr_fo : ℕ
spr_sr_fo = 0x00008000

abbrev pub spr_sr_sumra : ℕ
spr_sr_sumra = 0x00010000

abbrev pub spr_dmmucfgr_ntw : ℕ
spr_dmmucfgr_ntw = 0x00000003

abbrev pub spr_dmmucfgr_nts : ℕ
spr_dmmucfgr_nts = 0x0000001C

abbrev pub spr_dmmucfgr_ntw_off : ℕ
spr_dmmucfgr_ntw_off = 0

abbrev pub spr_dmmucfgr_nts_off : ℕ
spr_dmmucfgr_nts_off = 2

abbrev pub spr_immucfgr_ntw : ℕ
spr_immucfgr_ntw = 0x00000003

abbrev pub spr_immucfgr_nts : ℕ
spr_immucfgr_nts = 0x0000001C

abbrev pub spr_immucfgr_ntw_off : ℕ
spr_immucfgr_ntw_off = 0

abbrev pub spr_immucfgr_nts_off : ℕ
spr_immucfgr_nts_off = 2

abbrev pub spr_dsr_rste : ℕ
spr_dsr_rste = 0x00000001

abbrev pub spr_dsr_busee : ℕ
spr_dsr_busee = 0x00000002

abbrev pub spr_dsr_dpfe : ℕ
spr_dsr_dpfe = 0x00000004

abbrev pub spr_dsr_ipfe : ℕ
spr_dsr_ipfe = 0x00000008

abbrev pub spr_dsr_tte : ℕ
spr_dsr_tte = 0x00000010

abbrev pub spr_dsr_ae : ℕ
spr_dsr_ae = 0x00000020

abbrev pub spr_dsr_iie : ℕ
spr_dsr_iie = 0x00000040

abbrev pub spr_dsr_ie : ℕ
spr_dsr_ie = 0x00000080

abbrev pub spr_dsr_dme : ℕ
spr_dsr_dme = 0x00000100

abbrev pub spr_dsr_ime : ℕ
spr_dsr_ime = 0x00000200

abbrev pub spr_dsr_re : ℕ
spr_dsr_re = 0x00000400

abbrev pub spr_dsr_sce : ℕ
spr_dsr_sce = 0x00000800

abbrev pub spr_dsr_te : ℕ
spr_dsr_te = 0x00002000

abbrev pub spr_pcmr_cp : ℕ
spr_pcmr_cp = 0x00000001

abbrev pub spr_pcmr_cism : ℕ
spr_pcmr_cism = 0x00000004

abbrev pub spr_pcmr_cium : ℕ
spr_pcmr_cium = 0x00000008

abbrev pub spr_pcmr_la : ℕ
spr_pcmr_la = 0x00000010

abbrev pub spr_pcmr_sa : ℕ
spr_pcmr_sa = 0x00000020

abbrev pub spr_pcmr_if : ℕ
spr_pcmr_if = 0x00000040

abbrev pub spr_pcmr_dcm : ℕ
spr_pcmr_dcm = 0x00000080

abbrev pub spr_pcmr_icm : ℕ
spr_pcmr_icm = 0x00000100

abbrev pub spr_pcmr_dtlbm : ℕ
spr_pcmr_dtlbm = 0x00001000

abbrev pub spr_pcmr_itlbm : ℕ
spr_pcmr_itlbm = 0x00002000

abbrev pub spr_pmr_dme : ℕ
spr_pmr_dme = 0x00000010

abbrev pub spr_pmr_sme : ℕ
spr_pmr_sme = 0x00000020

abbrev pub spr_pmr_sume : ℕ
spr_pmr_sume = 0x00000080

abbrev pub spr_ttmr_tp : ℕ
spr_ttmr_tp = 0x0fffffff

abbrev pub spr_ttmr_ip : ℕ
spr_ttmr_ip = 0x10000000

abbrev pub spr_ttmr_ie : ℕ
spr_ttmr_ie = 0x20000000

abbrev pub spr_ttmr_rt : ℕ
spr_ttmr_rt = 0x40000000

abbrev pub spr_ttmr_sr : ℕ
spr_ttmr_sr = 0x80000000

abbrev pub spr_ttmr_cr : ℕ
spr_ttmr_cr = 0xc0000000

abbrev pub spr_ttmr_m : ℕ
spr_ttmr_m = 0xc0000000

abbrev pub spr_dcr_dp : ℕ
spr_dcr_dp = 1

abbrev pub spr_dcr_cc : ℕ
spr_dcr_cc = 0xe

abbrev pub spr_dcr_ct : ℕ
spr_dcr_ct = 0xe0

abbrev pub spr_dcr_cc_masked : ℕ
spr_dcr_cc_masked = 0

abbrev pub spr_dcr_cc_equal : ℕ
spr_dcr_cc_equal = 2

abbrev pub spr_dcr_cc_less : ℕ
spr_dcr_cc_less = 4

abbrev pub spr_dcr_cc_lesse : ℕ
spr_dcr_cc_lesse = 6

abbrev pub spr_dcr_cc_great : ℕ
spr_dcr_cc_great = 8

abbrev pub spr_dcr_cc_greate : ℕ
spr_dcr_cc_greate = 0xa

abbrev pub spr_dcr_cc_nequal : ℕ
spr_dcr_cc_nequal = 0xc

abbrev pub spr_dcr_ct_ifea : ℕ
spr_dcr_ct_ifea = 0x20

abbrev pub spr_dcr_ct_lea : ℕ
spr_dcr_ct_lea = 0x40

abbrev pub spr_dcr_ct_sea : ℕ
spr_dcr_ct_sea = 0x60

abbrev pub spr_dcr_ct_ld : ℕ
spr_dcr_ct_ld = 0x80

abbrev pub spr_dcr_ct_sd : ℕ
spr_dcr_ct_sd = 0xa0

abbrev pub spr_dcr_ct_lsea : ℕ
spr_dcr_ct_lsea = 0xc0

abbrev pub spr_dcr_ct_lsd : ℕ
spr_dcr_ct_lsd = 0xe0

abbrev pub spr_dmr2_wce0 : ℕ
spr_dmr2_wce0 = 1

abbrev pub spr_dmr2_wce1 : ℕ
spr_dmr2_wce1 = 2

abbrev pub spr_dmr2_awtc : ℕ
spr_dmr2_awtc = 0xffc

abbrev pub spr_dmr2_awtc_off : ℕ
spr_dmr2_awtc_off = 2

abbrev pub spr_dmr2_wgb : ℕ
spr_dmr2_wgb = 0x3f_f000

abbrev pub spr_dmr2_wgb_off : ℕ
spr_dmr2_wgb_off = 12

abbrev pub spr_dmr2_wbs_off : ℕ
spr_dmr2_wbs_off = 22

abbrev pub spr_dwcr_count : ℕ
spr_dwcr_count = 0xffff

abbrev pub spr_dwcr_match : ℕ
spr_dwcr_match = 0xffff_0000

abbrev pub spr_dwcr_match_off : ℕ
spr_dwcr_match_off = 16

abbrev pub spr_dccfgr_ncw : ℕ
spr_dccfgr_ncw = 7

abbrev pub spr_dccfgr_ncs : ℕ
spr_dccfgr_ncs = 0x78

abbrev pub spr_dccfgr_cbs : ℕ
spr_dccfgr_cbs = 0x80

abbrev pub spr_dccfgr_ncw_off : ℕ
spr_dccfgr_ncw_off = 0

abbrev pub spr_dccfgr_ncs_off : ℕ
spr_dccfgr_ncs_off = 3

abbrev pub spr_iccfgr_ncw : ℕ
spr_iccfgr_ncw = 7

abbrev pub spr_iccfgr_ncs : ℕ
spr_iccfgr_ncs = 0x78

abbrev pub spr_iccfgr_cbs : ℕ
spr_iccfgr_cbs = 0x80

abbrev pub spr_iccfgr_ncw_off : ℕ
spr_iccfgr_ncw_off = 0

abbrev pub spr_iccfgr_ncs_off : ℕ
spr_iccfgr_ncs_off = 3

abbrev pub spr_dmr1_st : ℕ
spr_dmr1_st = 0x0040_0000
