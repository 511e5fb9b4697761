-- ===== src/Tlb/Search.antt =====
-- The search of the ways of a set, as in or1ksim/mmu/dmmu.c.
use openrisc_tools.Prelude.{
  ℕ, zero, suc, ◌+◌, ◌*◌, ◌<◌, ◌≡◌, refl, ap, fun_ext, sym, ◌∙◌, Bool, true, false, not, ◌&&◌,
  Option, none, some, ◌⊎◌, inl, inr, Bool-cases, arith,
}
use openrisc_tools.Machine.{Mmu}
use openrisc_tools.Tlb.Defs.{find_way, matches}

-- No `w` below `n` passes the test.
unfoldable pub none_below : ℕ → (ℕ → Bool) → Bool
none_below zero p = true
none_below (suc n) p = not (p n) && none_below n p

none_below-suc :
    (n : ℕ) (p : ℕ → Bool)
    → p 0 ≡ false
    → none_below n (λ w. p (suc w)) ≡ true
    → none_below (suc n) p ≡ true
unfolding none_below
none_below-suc zero p h k = rw h
none_below-suc (suc n) p h k = ground (arith, none_below-suc n p h)

-- Way `w` of the set that begins at `base` holds the page of `virtaddr`.
abbrev pub way_matches : Mmu → (ℕ → ℕ) → ℕ → ℕ → ℕ → Bool
way_matches mmu sprs virtaddr base w = matches mmu virtaddr (sprs (base + w * 256))

-- What a search of `n` ways says.
abbrev pub Found : ℕ → (ℕ → Bool) → ℕ → Option ℕ → Type 0
Found n p base r =
    (r ≡ none) × (none_below n p ≡ true)
    ⊎ ((w : ℕ) × (w < n) × (r ≡ some (base + w * 256)) × (p w ≡ true) × (none_below w p ≡ true))

way_first : (base : ℕ) → base + 0 * 256 ≡ base
way_first base = omega arith

way_next : (base w : ℕ) → base + suc w * 256 ≡ base + 128 * 2 + w * 256
way_next base w = omega arith

ways_next :
    (mmu : Mmu) (sprs : ℕ → ℕ) (virtaddr base w : ℕ)
    → way_matches mmu sprs virtaddr base (suc w) ≡ way_matches mmu sprs virtaddr (base + 128 * 2) w
ways_next mmu sprs virtaddr base w = ap (λ r. matches mmu virtaddr (sprs r)) (way_next base w)

pub find_way_lem :
    (mmu : Mmu) (sprs : ℕ → ℕ) (virtaddr n base : ℕ)
    → Found n (way_matches mmu sprs virtaddr base) base (find_way mmu sprs virtaddr n base)
unfolding find_way
find_way_lem mmu sprs virtaddr zero base = inl (refl, unfold none_below in refl)
find_way_lem mmu sprs virtaddr (suc n) base = elim (Bool-cases (matches mmu virtaddr (sprs base))) [
  | inl found ↦ inr (
    0,
    omega arith,
    rw found (ap some (sym (way_first base))),
    ap (λ r. matches mmu virtaddr (sprs r)) (way_first base) ∙ found,
    unfold none_below in refl,
  )
  | inr other ↦ elim (find_way_lem mmu sprs virtaddr n (base + 128 * 2)) [
    | inl p ↦ inl (rw other p.0, passed other n p.1)
    | inr p ↦ inr (
      suc p.0,
      omega (arith, p.1),
      rw other (p.2 ∙ ap some (sym (way_next base p.0))),
      ways_next mmu sprs virtaddr base p.0 ∙ p.3,
      passed other p.0 p.4,
    )
  ]
]
  where
    passed :
        matches mmu virtaddr (sprs base) ≡ false
        → (k : ℕ) → none_below k (way_matches mmu sprs virtaddr (base + 128 * 2)) ≡ true
        → none_below (suc k) (way_matches mmu sprs virtaddr base) ≡ true
    passed other k h =
        none_below-suc k (way_matches mmu sprs virtaddr base)
          (ap (λ r. matches mmu virtaddr (sprs r)) (way_first base) ∙ other)
          (ap (λ p. none_below k p) (fun_ext (ways_next mmu sprs virtaddr base)) ∙ h)
