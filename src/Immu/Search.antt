-- ===== src/Immu/Search.antt =====
-- The lookup of the instruction TLB, or1ksim/mmu/immu.c.
use openrisc_tools.Prelude.{ℕ, ◌+◌, ◌*◌, ◌<◌, ◌≡◌, sym, ◌∙◌, some, inl, inr}
use mathlib.Core.Option.{some_inj, none-ne-some}
use openrisc_tools.Machine.{Machine}
use openrisc_tools.Tlb.Search.{Found, way_matches, find_way_lem}
use openrisc_tools.Immu.Defs.{first_way, immu_find_tlbmr}

-- A lookup in the instruction TLB finds the match register of the first valid way of the address's set
-- whose page is the address's, and finds none exactly where no way has it.
pub immu_find_tlbmr_lem :
    (virtaddr : ℕ) (m : Machine)
    → let base = first_way m.immu virtaddr in
      Found m.immu.nways (way_matches m.immu m.sprs virtaddr base) base (immu_find_tlbmr virtaddr m)
unfolding immu_find_tlbmr
immu_find_tlbmr_lem virtaddr m =
    find_way_lem m.immu m.sprs virtaddr m.immu.nways (first_way m.immu virtaddr)

-- The register that a lookup finds is a match register of the set.
pub found_at :
    (virtaddr r : ℕ) (m : Machine)
    → immu_find_tlbmr virtaddr m ≡ some r
    → (w : ℕ) × (w < m.immu.nways) × (r ≡ first_way m.immu virtaddr + w * 256)
found_at virtaddr r m e = elim (immu_find_tlbmr_lem virtaddr m) [
  | inl p ↦ absurd (none-ne-some r (sym p.0 ∙ e))
  | inr p ↦ (p.0, p.1, some_inj.0 (sym e ∙ p.2))
]
