-- ===== src/Support.antt =====
-- The arithmetic helpers of or1ksim/support/misc.c. An `int` argument is not negative here: the
-- configuration passes sizes.
mod Defs
pub mod Powers
mod Tests
unfoldable pub use Defs.*
