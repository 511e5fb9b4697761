-- ===== src/Access.antt =====
-- The accesses to memory that the processor and the simulator itself make, or1ksim/cpu/common/abstract.c:
-- through the MMUs, the debug unit and the caches.
mod Data
mod Direct
mod Insn
mod Caches
pub mod Bare
unfoldable pub use Data.*
unfoldable pub use Direct.*
unfoldable pub use Insn.*
unfoldable pub use Caches.*
