-- ===== src/Dmmu/Search.antt =====
-- The lookup of the data TLB, or1ksim/mmu/dmmu.c.
use openrisc_tools.Prelude.{ℕ, ◌+◌, ◌*◌, ◌<◌, ◌≡◌, sym, ◌∙◌, some, inl, inr}
use mathlib.Core.Option.{some_inj, none-ne-some}
use openrisc_tools.Machine.{Machine}
use openrisc_tools.Tlb.Search.{Found, way_matches, find_way_lem}
use openrisc_tools.Dmmu.Defs.{first_way, dmmu_find_tlbmr}

-- A lookup in the data TLB finds the match register of the first valid way of the address's set
-- whose page is the address's, and finds none exactly where no way has it.
pub dmmu_find_tlbmr_lem :
    (virtaddr : ℕ) (m : Machine)
    → let base = first_way m.dmmu virtaddr in
      Found m.dmmu.nways (way_matches m.dmmu m.sprs virtaddr base) base (dmmu_find_tlbmr virtaddr m)
unfolding dmmu_find_tlbmr
dmmu_find_tlbmr_lem virtaddr m =
    find_way_lem m.dmmu m.sprs virtaddr m.dmmu.nways (first_way m.dmmu virtaddr)

-- The register that a lookup finds is a match register of the set.
pub found_at :
    (virtaddr r : ℕ) (m : Machine)
    → dmmu_find_tlbmr virtaddr m ≡ some r
    → (w : ℕ) × (w < m.dmmu.nways) × (r ≡ first_way m.dmmu virtaddr + w * 256)
found_at virtaddr r m e = elim (dmmu_find_tlbmr_lem virtaddr m) [
  | inl p ↦ absurd (none-ne-some r (sym p.0 ∙ e))
  | inr p ↦ (p.0, p.1, some_inj.0 (sym e ∙ p.2))
]
