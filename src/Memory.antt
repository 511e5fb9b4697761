-- ===== src/Memory.antt =====
-- The memory map and the accesses to it, or1ksim/cpu/common/abstract.c, and the plain memory of
-- or1ksim/peripheral/memory.c. The other devices are an argument, the record `Bus`.
mod Areas
mod Access
mod Ram
mod Device
pub mod Masks
pub mod Sizes
pub mod Map
pub mod Overlaps
pub mod Registered
pub mod Words
pub mod Flat
pub mod Stored
pub mod Same
pub mod Tests
unfoldable pub use Areas.*
unfoldable pub use Access.*
unfoldable pub use Ram.*
unfoldable pub use Device.*
