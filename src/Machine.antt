-- ===== src/Machine.antt =====
-- The state that the modelled files share: the part of `cpu_state` of
-- or1ksim/cpu/common/execute.h that they use, the globals beside it, the scheduler, and the
-- configuration of or1ksim/sim-config.h.
--
-- A 32-bit register is a native number; an operation that can leave the range is followed by
-- `% 2 ^ 32`. A flag that the source keeps in an `int` is a Bool.
mod Registers
mod Fields
mod TlbFields
mod State
mod Access
pub mod Masks
unfoldable pub use Registers.*
unfoldable pub use Fields.*
unfoldable pub use TlbFields.*
unfoldable pub use State.*
unfoldable pub use Access.*
