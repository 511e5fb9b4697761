-- ===== src/Sprs.antt =====
-- Reads and writes of the special purpose registers, or1ksim/cpu/or1k/sprs.c. The caches are not
-- modelled: the four operations of or1ksim/cache that a write calls are an argument.
mod Defs
pub mod Links
pub mod Status
mod Tests
unfoldable pub use Defs.*
