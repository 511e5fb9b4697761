-- ===== src/Tick.antt =====
-- The tick timer, or1ksim/tick/tick.c.
mod Defs
pub mod Count
pub mod Jobs
pub mod Plan
pub mod Laws
mod Tests
unfoldable pub use Defs.*
