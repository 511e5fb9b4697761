-- ===== src/Tlb.antt =====
-- The translation lookaside buffers as the two MMUs, or1ksim/mmu/dmmu.c and or1ksim/mmu/immu.c, use
-- them: the search of the ways of a set, and the aging of their LRU fields. The text of the two
-- files is the same here; the definitions are read from dmmu.c.
mod Defs
pub mod Search
pub mod Aging
pub mod Pages
pub mod Ages
unfoldable pub use Defs.*
pub use Aging.{IsConfigured}
