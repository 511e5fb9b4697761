-- ===== src/Except.antt =====
-- Exceptions: `except_handle` of or1ksim/cpu/or1k/except.c, with the debug unit's filter and the
-- stall state of or1ksim/debug/debug-unit.c.
mod Defs
pub mod Delivery
mod Tests
unfoldable pub use Defs.*
