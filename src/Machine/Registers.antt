-- ===== src/Machine/Registers.antt =====
-- The numbers of the special purpose registers, or1ksim/cpu/or1k/spr-defs.h.
use openrisc_tools.Prelude.{ℕ}

abbrev pub spr_upr : ℕ
spr_upr = 1

abbrev pub spr_dmmucfgr : ℕ
spr_dmmucfgr = 3

abbrev pub spr_immucfgr : ℕ
spr_immucfgr = 4

abbrev pub spr_npc : ℕ
spr_npc = 16

abbrev pub spr_sr : ℕ
spr_sr = 17

abbrev pub spr_fpcsr : ℕ
spr_fpcsr = 20

abbrev pub spr_epcr_base : ℕ
spr_epcr_base = 32

abbrev pub spr_eear_base : ℕ
spr_eear_base = 48

abbrev pub spr_esr_base : ℕ
spr_esr_base = 64

abbrev pub spr_dcbpr : ℕ
spr_dcbpr = 6145

abbrev pub spr_dcbfr : ℕ
spr_dcbfr = 6146

abbrev pub spr_dcbir : ℕ
spr_dcbir = 6147

abbrev pub spr_dcbwr : ℕ
spr_dcbwr = 6148

abbrev pub spr_dcblr : ℕ
spr_dcblr = 6149

abbrev pub spr_icbpr : ℕ
spr_icbpr = 8193

abbrev pub spr_icbir : ℕ
spr_icbir = 8194

abbrev pub spr_icblr : ℕ
spr_icblr = 8195

abbrev pub spr_maclo : ℕ
spr_maclo = 10241

abbrev pub spr_machi : ℕ
spr_machi = 10242

abbrev pub spr_dsr : ℕ
spr_dsr = 12308

abbrev pub spr_drr : ℕ
spr_drr = 12309

abbrev pub spr_pmr : ℕ
spr_pmr = 16384

abbrev pub spr_picmr : ℕ
spr_picmr = 18432

abbrev pub spr_picsr : ℕ
spr_picsr = 18434

abbrev pub spr_ttmr : ℕ
spr_ttmr = 20480

abbrev pub spr_ttcr : ℕ
spr_ttcr = 20481

abbrev pub spr_dmr1 : ℕ
spr_dmr1 = 0x3010

abbrev pub spr_dmr2 : ℕ
spr_dmr2 = 0x3011

abbrev pub spr_dwcr0 : ℕ
spr_dwcr0 = 0x3012

abbrev pub spr_dwcr1 : ℕ
spr_dwcr1 = 0x3013

abbrev pub spr_dccfgr : ℕ
spr_dccfgr = 5

abbrev pub spr_iccfgr : ℕ
spr_iccfgr = 6

abbrev pub spr_ppc : ℕ
spr_ppc = 18
