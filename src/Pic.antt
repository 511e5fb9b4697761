-- ===== src/Pic.antt =====
-- The programmable interrupt controller, or1ksim/pic/pic.c.
mod Defs
pub mod Lines
mod Tests
unfoldable pub use Defs.*
