-- ===== src/Insn.antt =====
-- Instructions of or1ksim/cpu/or32/insnset.c. An instruction takes its operands' values, and the
-- number of the register that it writes.
mod Flags
mod Arith
mod Compare
mod Jump
mod Mac
mod Memory
mod Branch
mod Signed
mod Nop
pub mod Results
pub mod Overflow
pub mod Products
pub mod Exceptions
pub mod Accumulate
pub mod Transfer
mod Tests
unfoldable pub use Flags.*
unfoldable pub use Arith.*
unfoldable pub use Compare.*
unfoldable pub use Jump.*
unfoldable pub use Mac.*
unfoldable pub use Memory.*
unfoldable pub use Branch.*
unfoldable pub use Signed.*
unfoldable pub use Nop.*
