-- ===== src/Sched.antt =====
-- The job scheduler, or1ksim/support/sched.c and sched.h: a queue of jobs in which each job holds
-- the cycles between it and the job before it, and a list of free job structures.
--
-- A job function and its argument are the addresses that the program compares. An `int32_t` time
-- is an integer. A step that follows a null pointer is `none`.
mod Defs
pub mod Deadlines
pub mod Add
pub mod Bounds
mod Range
pub mod Remove
pub mod Overdue
pub mod Next
pub mod Pool
pub mod Room
mod Tests
unfoldable pub use Defs.*
