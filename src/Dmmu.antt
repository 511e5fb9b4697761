-- ===== src/Dmmu.antt =====
-- The data MMU, or1ksim/mmu/dmmu.c, with the performance counter of or1ksim/pcu/pcu.c that it
-- drives.
mod Defs
pub mod Search
mod Touch
pub mod Translate
mod Hits
pub mod Pages
pub mod Peek
pub mod Config
pub mod Setup
mod Tests
unfoldable pub use Defs.*
