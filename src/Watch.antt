-- ===== src/Watch.antt =====
-- The watchpoints of the debug unit, `check_debug_unit` and `calculate_watchpoints` of
-- or1ksim/debug/debug-unit.c.
mod Match
mod Chain
mod Check
pub mod Status
mod Fired
mod Counters
pub mod Verdict
pub mod Scope
mod Tests
unfoldable pub use Match.*
unfoldable pub use Chain.*
unfoldable pub use Check.*
