-- ===== src/Predict.antt =====
-- The branch prediction buffer and the branch target cache, or1ksim/bpb/branch-predict.c. They only
-- keep statistics: no branch goes another way for them.
mod Defs
pub mod Recent
mod Tests
unfoldable pub use Defs.*
