-- ===== src/Dcache.antt =====
-- The data cache, or1ksim/cache/dcache-model.c.
mod Ways
mod Lines
mod Simulate
mod Config
mod Tests
pub mod Backing
pub mod Filled
pub mod Refilled
pub mod Coherent
pub mod Reads
unfoldable pub use Ways.*
unfoldable pub use Lines.*
unfoldable pub use Simulate.*
unfoldable pub use Config.*
