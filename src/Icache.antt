-- ===== src/Icache.antt =====
-- The instruction cache, or1ksim/cache/icache-model.c. Its memory is by bytes, which a word is read
-- from and written to in the order of a little-endian host.
mod Ways
mod Fetch
mod Config
unfoldable pub use Ways.*
unfoldable pub use Fetch.*
unfoldable pub use Config.*
