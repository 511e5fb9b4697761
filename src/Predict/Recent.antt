-- ===== src/Predict/Recent.antt =====
-- What the buffers remember.
use mathlib.Core.Path.{Path}
use openrisc_tools.Prelude.{
  ℕ, ◌+◌, ◌%◌, ◌≤◌, ◌≡◌, ◌∙◌, sym, ap, ap₂, refl, Bool, true, false, ◌&&◌, ◌⊎◌, inl, inr,
  Bool-cases, ◌==◌, ==_refl, ltb, ◌/◌, if◌then◌else◌, arith,
}
use openrisc_tools.Machine.{Machine, Branch, Predictor}
use openrisc_tools.Predict.Defs.{
  bpb_update, bpb_hit, bpb_miss, bp_age_ways, bp_low_way, bp_find_way, btic_update, btic_hit,
  btic_miss,
}

-- The branch is the one that its entry remembers, and it went this way then.
abbrev pub predicts : ℕ → ℕ → Predictor → Bool
predicts addr taken p = (p.bpb (addr % 64) 0).addr == addr && (p.bpb (addr % 64) 0).taken == taken

only_way : (ways : ℕ → Branch) → bp_low_way ways 1 1 ≡ 0
unfolding bp_low_way
only_way ways = elim (Bool-cases (ltb (ways 0).lru 1)) [
  | inl low ↦ rw low refl
  | inr high ↦ rw high refl
]

-- With the buffer on, for a branch that is taken (1) or not (0) and a prediction of one bit: the
-- update counts a correct prediction just when the last branch of its entry was the same one and
-- went the same way, and it remembers this branch with this way.
pub bpb_update_lem :
    (addr taken : ℕ) (m : Machine)
    → m.config.bpb_enabled ≡ true
    → taken ≤ 1
    → (m.predictor.bpb (addr % 64) 0).taken ≤ 1
    → ((bpb_update addr taken m).predictor.correct ≡ (
        if predicts addr taken m.predictor then m.predictor.correct + 1 else m.predictor.correct))
      × (predicts addr taken (bpb_update addr taken m).predictor ≡ true)
unfolding bpb_update bpb_hit bpb_miss bp_age_ways bp_find_way
bpb_update_lem addr taken m on small before =
    let own = ==_refl (addr % 64) in
    let p = m.predictor in
    let one : (p.bpb (addr % 64) 0).taken / 1 ≡ (p.bpb (addr % 64) 0).taken = omega arith in
    elim (Bool-cases ((p.bpb (addr % 64) 0).addr == addr)) [
      | inl hit ↦ rw (on, hit) (rw one refl, rw (own, hit) (ground (arith, small, before)))
      | inr miss ↦ rw (on, miss) (refl, rw (only_way (p.bpb (addr % 64)), own) (ground arith))
    ]

-- The two ways of an entry have the ages 0 and 1.
abbrev pub IsAged : (ℕ → Branch) → Type 0
IsAged ways = ((ways 0).lru ≡ 0) × ((ways 1).lru ≡ 1) ⊎ ((ways 0).lru ≡ 1) × ((ways 1).lru ≡ 0)

-- The two targets of an entry, the one used last first.
abbrev pub recent : (ℕ → Branch) → ℕ × ℕ
recent ways =
    if (ways 0).lru == 1 then ((ways 0).addr, (ways 1).addr) else ((ways 1).addr, (ways 0).addr)

-- The list of the two targets used last, after one more.
abbrev pub use_target : ℕ → ℕ × ℕ → ℕ × ℕ
use_target t (first, second) = if t == first then (first, second) else (t, first)

use_first : (t a b : ℕ) → (a == t) ≡ true → Path (ℕ × ℕ) (a, b) (use_target t (a, b))
use_first t a b h = let first : (t == a) ≡ true = ground (arith, h) in rw first refl

use_second : (t a b : ℕ) → (a == t) ≡ true → Path (ℕ × ℕ) (a, b) (use_target t (b, a))
use_second t a b h =
    let same : a ≡ t = ground (arith, h) in
    elim (Bool-cases (t == b)) [
      | inl both ↦
          let other : b ≡ t = ground (arith, both) in
          rw both (ap₂ (λ x y. (x, y)) (same ∙ sym other) (other ∙ sym same))
      | inr one ↦ rw one (ap (λ x. (x, b)) same)
    ]

use_new : (t a b : ℕ) → (a == t) ≡ false → Path (ℕ × ℕ) (t, a) (use_target t (a, b))
use_new t a b h = let other : (t == a) ≡ false = ground (arith, h) in rw other refl

-- The target cache keeps, of each entry whose ways have the ages 0 and 1, the two targets used
-- last, in their order, and leaves it such an entry.
pub btic_update_lem :
    (targetaddr : ℕ) (m : Machine)
    → m.config.btic ≡ true
    → IsAged (m.predictor.btic (targetaddr % 128))
    → IsAged ((btic_update targetaddr m).predictor.btic (targetaddr % 128))
      × (recent ((btic_update targetaddr m).predictor.btic (targetaddr % 128))
          ≡ use_target targetaddr (recent (m.predictor.btic (targetaddr % 128))))
unfolding btic_update btic_hit btic_miss bp_age_ways bp_low_way bp_find_way
btic_update_lem t m on aged =
    let own = ==_refl (t % 128) in
    let ways = m.predictor.btic (t % 128) in
    elim (Bool-cases ((ways 1).addr == t)) [
      | inl hit1 ↦ elim aged [
        | inl old ↦
            simp (on, hit1, own, old.0, old.1)
              (inl (refl, refl), use_first t (ways 1).addr (ways 0).addr hit1)
        | inr old ↦
            simp (on, hit1, own, old.0, old.1)
              (inl (refl, refl), use_second t (ways 1).addr (ways 0).addr hit1)
      ]
      | inr miss1 ↦ elim (Bool-cases ((ways 0).addr == t)) [
        | inl hit0 ↦ elim aged [
          | inl old ↦
              simp (on, miss1, hit0, own, old.0, old.1)
                (inr (refl, refl), use_second t (ways 0).addr (ways 1).addr hit0)
          | inr old ↦
              simp (on, miss1, hit0, own, old.0, old.1)
                (inr (refl, refl), use_first t (ways 0).addr (ways 1).addr hit0)
        ]
        | inr miss0 ↦ elim aged [
          | inl old ↦
              simp (on, miss1, miss0, own, old.0, old.1)
                (inr (refl, refl), use_new t (ways 1).addr (ways 0).addr miss1)
          | inr old ↦
              simp (on, miss1, miss0, own, old.0, old.1)
                (inl (refl, refl), use_new t (ways 0).addr (ways 1).addr miss0)
        ]
      ]
    ]
