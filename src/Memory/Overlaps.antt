-- ===== src/Memory/Overlaps.antt =====
-- Areas that share an address, beside the test of or1ksim/cpu/common/abstract.c.
use native.Mathlib.Nat.{mod-eq_of_lt}
use mathlib.Core.Bool.{true≢false}
use openrisc_tools.Prelude.{
  ℕ, ◌+◌, ◌%◌, ◌^◌, ◌<◌, ◌≡◌, refl, arith, false, List, [], ◌∷◌, ◌&&◌, ◌||◌, inl, inr, Bool-cases,
  Bool, leb, ltb, All,
}
use openrisc_tools.Machine.{Area}
use openrisc_tools.Memory.Areas.{overlaps, any_overlaps}
use openrisc_tools.Memory.Map.{IsArea, Apart}

-- What the test for overlaps lets pass.
overlaps-Apart :
    (p a : Area)
    → IsArea p
    → a.addr_compare + a.size < 2 ^ 32
    → overlaps a.addr_compare a.size p ≡ false
    → Apart p a
unfolding overlaps
overlaps-Apart p a fine below h =
    let whole : (p.addr_compare + p.size) % 2 ^ 32 ≡ p.addr_compare + p.size =
      mod-eq_of_lt fine.below in
    let new_whole : (a.addr_compare + a.size) % 2 ^ 32 ≡ a.addr_compare + a.size =
      mod-eq_of_lt below in
    elim (Bool-cases (leb (p.addr_compare + p.size) a.addr_compare)) [
      | inl behind ↦ inl (ground (arith, behind))
      | inr before ↦ inr (ground (arith, before, rw (whole, new_whole) at h))
    ]

pub any_overlaps-Apart :
    (areas : List Area) (a : Area)
    → All IsArea areas
    → a.addr_compare + a.size < 2 ^ 32
    → any_overlaps a.addr_compare a.size areas ≡ false
    → All (λ p. Apart p a) areas
unfolding any_overlaps
any_overlaps-Apart [] a every below h = tt
any_overlaps-Apart (p ∷ areas) a every below h =
    elim (Bool-cases (overlaps a.addr_compare a.size p)) [
      | inl over ↦ absurd (true≢false (rw over at h))
      | inr free ↦ (
        overlaps-Apart p a every.0 below free,
        any_overlaps-Apart areas a every.1 below (rw free at h),
      )
    ]

-- The half-open interval of the addresses of an area and `[start, start + size)` share an address.
abbrev pub meets : ℕ → ℕ → Area → Bool
meets start size p = ltb start (p.addr_compare + p.size) && ltb p.addr_compare (start + size)

unfoldable pub meets_any : ℕ → ℕ → List Area → Bool
meets_any start size [] = false
meets_any start size (p ∷ ps) = meets start size p || meets_any start size ps

overlaps-meets :
    (start size : ℕ) (p : Area)
    → IsArea p
    → 0 < size
    → start + size < 2 ^ 32
    → overlaps start size p ≡ meets start size p
unfolding overlaps
overlaps-meets start size p fine some_byte below =
    let whole : (p.addr_compare + p.size) % 2 ^ 32 ≡ p.addr_compare + p.size =
      mod-eq_of_lt fine.below in
    let new_whole : (start + size) % 2 ^ 32 ≡ start + size = mod-eq_of_lt below in
    rw (whole, new_whole) (ground (arith, some_byte))

pub any_overlaps-meets_any :
    (start size : ℕ) (areas : List Area)
    → All IsArea areas
    → 0 < size
    → start + size < 2 ^ 32
    → any_overlaps start size areas ≡ meets_any start size areas
unfolding any_overlaps meets_any
any_overlaps-meets_any start size [] every some_byte below = refl
any_overlaps-meets_any start size (p ∷ areas) every some_byte below = rw (
  overlaps-meets start size p every.0 some_byte below,
  any_overlaps-meets_any start size areas every.1 some_byte below,
)
