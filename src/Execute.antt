-- ===== src/Execute.antt =====
-- The execution of instructions, or1ksim/cpu/or32/execute.c, and the calls of the scheduled jobs.
mod Defs
mod Main
pub mod Rounds
pub mod Jobs
pub mod Stuck
pub mod Fetch
pub mod Clock
pub mod Slots
pub mod Illegal
pub mod Sleep
mod Tests
unfoldable pub use Defs.*
unfoldable pub use Main.*
