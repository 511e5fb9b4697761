-- ===== src/Pm.antt =====
-- Power management, or1ksim/pm/pm.c.
use openrisc_tools.Prelude.{ℕ, ◌==◌, if◌then◌else◌, bit_or}
use openrisc_tools.Machine.{Machine, set_spr, clear, spr_pmr, spr_upr, spr_upr_pmp}

unfoldable pub pm_reset : Machine → Machine
pm_reset m = set_spr spr_pmr 0 m

-- The setter of the configuration keeps the number as it is.
unfoldable pub pm_enabled : ℕ → Machine → Machine
pm_enabled val m =
    let upr = m.sprs spr_upr in
    let m1 =
      set_spr spr_upr (if val == 0 then clear upr spr_upr_pmp else bit_or upr spr_upr_pmp) m in
    record m1 { config = record m.config { pm_enabled = val } }
