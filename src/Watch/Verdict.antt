-- ===== src/Watch/Verdict.antt =====
-- The answer of `check_debug_unit`, or1ksim/debug/debug-unit.c, and the DMR2 that it leaves.
use mathlib.Core.Path.{subst}
use openrisc_tools.Prelude.{
  ℕ, zero, suc, ◌+◌, ◌-◌, ◌*◌, ◌/◌, ◌%◌, ◌^◌, ◌<◌, ◌≡◌, ◌∙◌, sym, ap, refl, Bool, true, false, not,
  ◌&&◌, ◌||◌, ◌==◌, leb, ltb, max, if◌then◌else◌, if_true, if_false, inl, inr, Bool-cases, bit_and,
  bit_or, arith,
}
use openrisc_tools.Memory.Masks.{bit_and-low}
use openrisc_tools.Machine.Masks.{bit_and-shift}
use openrisc_tools.Machine.{
  Machine, test, spr_dmr1, spr_dmr2, spr_dmr2_wgb, spr_dmr2_awtc, spr_dwcr0, spr_dwcr1,
}
use openrisc_tools.Watch.Match.{Action, matchpoint, any_match, fires, flag}
use openrisc_tools.Watch.Chain.{chained, watchpoint, counter_matched}
use openrisc_tools.Watch.Check.{
  all_watchpoints, take_watchpoints, calculate_watchpoints, check_debug_unit,
}
use openrisc_tools.Watch.Status.{or-true, or-false, any_break, is_reported, break_found, break_bits}
use openrisc_tools.Watch.Fired.{fired, tally, chained-joined, watchpoint-fired, fired-same}
use openrisc_tools.Watch.Counters.{own_match, has_fired, looks, after, matched-0, matched-1}

any_break-same :
    (dmr2 : ℕ) (wp wp' : ℕ → Bool) (n : ℕ)
    → ((i : ℕ) → i < n → wp i ≡ wp' i)
    → any_break dmr2 wp n ≡ any_break dmr2 wp' n
any_break-same dmr2 wp wp' zero h = refl
any_break-same dmr2 wp wp' (suc n) h =
    rw (any_break-same dmr2 wp wp' n (λ i l. h i (omega (arith, l))), h n (omega arith)) refl

is_reported-same :
    (dmr2 : ℕ) (wp wp' : ℕ → Bool) (n j : ℕ)
    → ((i : ℕ) → i < n → wp i ≡ wp' i)
    → is_reported dmr2 wp n j ≡ is_reported dmr2 wp' n j
is_reported-same dmr2 wp wp' n j h = elim (Bool-cases (leb 22 j && ltb j (22 + n))) [
  | inl inside ↦ rw (h (j - 22) (ground (arith, inside))) refl
  | inr outside ↦ rw outside refl
]

module _ (m : Machine) (mp : ℕ → ℕ) where
  -- The watchpoints by the code.
  wp : ℕ → Bool
  wp =
      all_watchpoints (m.sprs spr_dmr1) (watchpoint (m.sprs spr_dmr1) mp)
        (counter_matched spr_dwcr0 (after m mp)) (counter_matched spr_dwcr1 (after m mp))

  first_eight : (i : ℕ) → i < 8 → watchpoint (m.sprs spr_dmr1) mp i ≡ has_fired m mp i
  first_eight i l =
      watchpoint-fired (m.sprs spr_dmr1) mp i
      ∙ fired-same (m.sprs spr_dmr1) (λ i. fires (mp i)) (own_match m mp) i
          (λ j k. let early : ltb j 8 ≡ true = ground (arith, l, k) in rw early refl)

  ninth :
      chained
        (m.sprs spr_dmr1)
        8
        (counter_matched spr_dwcr0 (after m mp))
        (watchpoint (m.sprs spr_dmr1) mp 7)
      ≡ has_fired m mp 8
  ninth =
      chained-joined (m.sprs spr_dmr1) 8 (counter_matched spr_dwcr0 (after m mp))
        (watchpoint (m.sprs spr_dmr1) mp 7)
      ∙ rw (matched-0 m mp, first_eight 7 (omega arith)) (unfold fired in refl)

  tenth :
      (before : Bool)
      → before ≡ has_fired m mp 8
      → chained (m.sprs spr_dmr1) 9 (counter_matched spr_dwcr1 (after m mp)) before
        ≡ has_fired m mp 9
  tenth before e =
      chained-joined (m.sprs spr_dmr1) 9 (counter_matched spr_dwcr1 (after m mp)) before
      ∙ rw (matched-1 m mp, e) (unfold fired in refl)

  wp-has_fired : (i : ℕ) → i < 10 → wp i ≡ has_fired m mp i
  unfolding wp all_watchpoints
  wp-has_fired i l = elim (Bool-cases (ltb i 8)) [
    | inl early ↦ if_true _ _ early ∙ first_eight i (ground (arith, early))
    | inr late ↦ if_false _ _ late ∙ elim (Bool-cases (i == 8)) [
      | inl eight ↦
          let here : i ≡ 8 = ground (arith, eight) in
          if_true _ _ eight ∙ ninth ∙ ap (has_fired m mp) (sym here)
      | inr nine ↦
          let here : i ≡ 9 = ground (arith, late, nine, l) in
          if_false _ _ nine ∙ tenth _ ninth ∙ ap (has_fired m mp) (sym here)
    ]
  ]

  taken :
      ((take_watchpoints mp m).1 ≡ any_break (m.sprs spr_dmr2) (has_fired m mp) 10)
      × ((j : ℕ)
          → (take_watchpoints mp m).0.sprs spr_dmr2 / 2 ^ j % 2
            ≡ max
                (m.sprs spr_dmr2 / 2 ^ j % 2)
                (flag (is_reported (m.sprs spr_dmr2) (has_fired m mp) 10 j)))
  unfolding take_watchpoints wp after
  taken = (
    break_found wp (m.sprs spr_dmr2) 10 (omega arith)
        ∙ any_break-same (m.sprs spr_dmr2) wp (has_fired m mp) 10 wp-has_fired,
    λ j.
        break_bits wp (m.sprs spr_dmr2) 10 j (omega arith)
        ∙ ap (λ b. max (m.sprs spr_dmr2 / 2 ^ j % 2) (flag b))
            (is_reported-same (m.sprs spr_dmr2) wp (has_fired m mp) 10 j wp-has_fired),
  )

any_match-tally : (mp : ℕ → ℕ) (n : ℕ) → any_match mp n ≡ ltb 0 (tally (λ i. fires (mp i)) n)
unfolding any_match tally
any_match-tally mp zero = refl
any_match-tally mp (suc n) = elim (Bool-cases (fires (mp n))) [
  | inl here ↦ rw here (sym (or-true (any_match mp n)) ∙ ground arith)
  | inr away ↦
      let same : tally (λ i. fires (mp i)) n + 0 ≡ tally (λ i. fires (mp i)) n = omega arith in
      rw (away, same) (sym (or-false (any_match mp n)) ∙ any_match-tally mp n)
]

selected :
    (dmr2 : ℕ) → test dmr2 (bit_or spr_dmr2_wgb spr_dmr2_awtc) ≡ not (dmr2 / 2 ^ 2 % 2 ^ 20 == 0)
selected dmr2 =
    let field : bit_and dmr2 (bit_or spr_dmr2_wgb spr_dmr2_awtc) ≡ dmr2 / 2 ^ 2 % 2 ^ 20 * 2 ^ 2 =
      bit_and-shift 2 dmr2 (2 ^ 20 - 1) ∙ ap (λ q. q * 2 ^ 2) (bit_and-low 20 (dmr2 / 2 ^ 2)) in
    rw field (ground arith)

one_look :
    (on resetting chosen matched : Bool) (x y : Machine × Bool)
    → (if not on || resetting then y else if chosen then if matched then x else y else y)
      ≡ (if on && (not resetting && (chosen && matched)) then x else y)
one_look false resetting chosen matched x y = refl
one_look true true chosen matched x y = refl
one_look true false false matched x y = refl
one_look true false true matched x y = refl

check-looks :
    (action : Action) (udata : ℕ) (m : Machine)
    → let mp = matchpoint action udata m in
      check_debug_unit action udata m ≡ (if looks m mp then take_watchpoints mp m else (m, false))
unfolding check_debug_unit calculate_watchpoints
check-looks action udata m =
    let mp = matchpoint action udata m in
    one_look m.config.debug_enabled m.in_reset
      (test (m.sprs spr_dmr2) (bit_or spr_dmr2_wgb spr_dmr2_awtc)) (any_match mp 8)
      (take_watchpoints mp m) (m, false)
    ∙ ap
        (λ b.
          if m.config.debug_enabled && (not m.in_reset && (b && any_match mp 8))
          then take_watchpoints mp m
          else (m, false))
        (selected (m.sprs spr_dmr2))
    ∙ ap
        (λ b.
          if m.config.debug_enabled
            && (not m.in_reset && (not (m.sprs spr_dmr2 / 2 ^ 2 % 2 ^ 20 == 0) && b))
          then take_watchpoints mp m
          else (m, false))
        (any_match-tally mp 8)

-- What a check leaves, if it looks and if it does not.
IsVerdict : Bool → Action → ℕ → Machine → ℕ → Machine × Bool → Type 0
IsVerdict looked action udata m j out =
    let mp = matchpoint action udata m in
    (out.1 ≡ (looked && any_break (m.sprs spr_dmr2) (has_fired m mp) 10))
    × (out.0.sprs spr_dmr2 / 2 ^ j % 2
        ≡ max (m.sprs spr_dmr2 / 2 ^ j % 2)
            (flag (looked && is_reported (m.sprs spr_dmr2) (has_fired m mp) 10 j)))

verdict :
    (looked : Bool) (action : Action) (udata : ℕ) (m : Machine) (j : ℕ)
    → IsVerdict looked action udata m j
        (if looked then take_watchpoints (matchpoint action udata m) m else (m, false))
unfolding IsVerdict
verdict true action udata m j = let done = taken m (matchpoint action udata m) in (done.0, done.1 j)
verdict false action udata m j = (refl, ground arith)

-- A check of an access looks at it just when the unit is on, the processor is not in reset, DMR2
-- lets some watchpoint break or assigns one to counter 1, and one of the eight matchpoints matches.
-- It answers that the program breaks just when it looks and one of the ten watchpoints has fired
-- that the bits 12 to 21 of DMR2 let break; the status bits 22 to 31 of those are set, and the
-- other bits of DMR2 are as before. A watchpoint fires as its field of DMR1 says: by its own match,
-- by that and or or the watchpoint before it, or never; the first has none before it, and fires by
-- itself or never. The own match of the first eight is that of their matchpoint, that of the last
-- two that their counter, if it is on after one more for each of the eight that has fired and is
-- assigned to it, modulo 2^16, equals its match field; with a counter on, the field of a counter
-- that stands at 0x8000 or more is full of ones.
pub check_debug_unit_lem :
    (action : Action) (udata : ℕ) (m : Machine) (j : ℕ)
    → let mp = matchpoint action udata m in
      let out = check_debug_unit action udata m in
      (out.1 ≡ (looks m mp && any_break (m.sprs spr_dmr2) (has_fired m mp) 10))
      × (out.0.sprs spr_dmr2 / 2 ^ j % 2
          ≡ max
              (m.sprs spr_dmr2 / 2 ^ j % 2)
              (flag (looks m mp && is_reported (m.sprs spr_dmr2) (has_fired m mp) 10 j)))
unfolding IsVerdict
check_debug_unit_lem action udata m j =
    let mp = matchpoint action udata m in
    subst (IsVerdict (looks m mp) action udata m j) (sym (check-looks action udata m))
      (verdict (looks m mp) action udata m j)
