-- ===== src/Sbuf.antt =====
-- The store buffer of or1ksim/cpu/or32/execute.c, `sbuf_store` and `sbuf_load`.
mod Defs
pub mod Ring
mod Tests
unfoldable pub use Defs.*
