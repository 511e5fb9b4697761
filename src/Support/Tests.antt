-- ===== src/Support/Tests.antt =====
-- Runs of the helpers, and their theorem at a concrete number.
use openrisc_tools.Prelude.{◌≡◌, false, refl}
use openrisc_tools.Support.Defs.{log2_int, is_power2}

log2_of_page : log2_int 64 ≡ 6
unfolding log2_int
log2_of_page = refl

twelve_is_no_power : is_power2 12 ≡ false
unfolding is_power2
twelve_is_no_power = refl
