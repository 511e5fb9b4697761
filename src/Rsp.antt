-- ===== src/Rsp.antt =====
-- The remote serial protocol of or1ksim/debug/rsp-server.c.
mod Hex
mod Packet
mod Matchpoints
mod Registers
pub mod Digits
pub mod Frames
pub mod Breakpoints
pub mod Settings
pub mod Overrun
mod Tests
unfoldable pub use Hex.*
unfoldable pub use Packet.*
unfoldable pub use Matchpoints.*
unfoldable pub use Registers.*
