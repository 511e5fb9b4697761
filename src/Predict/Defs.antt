-- ===== src/Predict/Defs.antt =====
-- The updates, with the sizes of the source: 64 entries of one way, and 128 entries of two.
use openrisc_tools.Prelude.{
  ℕ, zero, suc, ◌+◌, ◌-◌, ◌/◌, ◌%◌, not, ◌&&◌, Option, none, some, ◌==◌, ltb, if◌then◌else◌,
}
use openrisc_tools.Prelude.Update.{update}
use openrisc_tools.Machine.{Machine, Branch, Predictor}

-- The scan of the first `n` ways. The last match counts.
unfoldable pub bp_find_way : (ℕ → Branch) → ℕ → ℕ → Option ℕ
bp_find_way ways addr zero = none
bp_find_way ways addr (suc n) =
    let rest = bp_find_way ways addr n in if (ways n).addr == addr then some n else rest

-- The way to replace. The bound of the search, `top`, is not lowered by it.
unfoldable pub bp_low_way : (ℕ → Branch) → ℕ → ℕ → ℕ
bp_low_way ways top zero = 0
bp_low_way ways top (suc n) =
    let rest = bp_low_way ways top n in if ltb (ways n).lru top then n else rest

-- All the ages but those that are 0, and then that of `way`.
unfoldable pub bp_age_ways : ℕ → ℕ → (ℕ → Branch) → ℕ → Branch
bp_age_ways nways way ways =
    let aged : ℕ → Branch =
      λ i. record (ways i) { lru = if ltb i nways then (ways i).lru - 1 else (ways i).lru } in
    update aged way (record (aged way) { lru = 1 })

abbrev set_bpb : ℕ → (ℕ → Branch) → Predictor → Predictor
set_bpb entry ways p = record p { bpb = update p.bpb entry ways }

abbrev set_btic : ℕ → (ℕ → Branch) → Predictor → Predictor
set_btic entry ways p = record p { btic = update p.btic entry ways }

-- The prediction after the branch: one bit.
abbrev next_taken : ℕ → ℕ → ℕ
next_taken taken old =
    if not (taken == 0) && ltb old 1
    then old + 1
    else if taken == 0 && not (old == 0)
    then old - 1
    else old

unfoldable pub bpb_hit : ℕ → ℕ → ℕ → Predictor → Predictor
unfolding bp_age_ways
bpb_hit entry way taken p =
    let ways = bp_age_ways 1 way (p.bpb entry) in
    let right = (ways way).taken / 1 == taken in
    let trained =
      update ways way (record (ways way) { taken = next_taken taken (ways way).taken }) in
    set_bpb entry trained (record p {
      bpb_hit = p.bpb_hit + 1;
      correct = if right then p.correct + 1 else p.correct;
      incorrect = if right then p.incorrect else p.incorrect + 1;
    })

unfoldable pub bpb_miss : ℕ → ℕ → ℕ → Predictor → Predictor
unfolding bp_age_ways bp_low_way
bpb_miss entry addr taken p =
    let ways = p.bpb entry in
    let minway = bp_low_way ways 1 1 in
    let placed = update ways minway (record (ways minway) { addr = addr; taken = 0 + taken }) in
    set_bpb entry (bp_age_ways 1 minway placed) (record p { bpb_miss = p.bpb_miss + 1 })

unfoldable pub bpb_update : ℕ → ℕ → Machine → Machine
unfolding bpb_hit bpb_miss bp_find_way
bpb_update addr taken m =
    let entry = addr % 64 in
    let p = m.predictor in
    let next : Predictor = elim (bp_find_way (p.bpb entry) addr 1) [
      | none ↦ bpb_miss entry addr taken p
      | some way ↦ bpb_hit entry way taken p
    ] in
    if m.config.bpb_enabled then record m { predictor = next } else m

unfoldable pub btic_hit : ℕ → ℕ → Predictor → Predictor
unfolding bp_age_ways
btic_hit entry way p =
    set_btic entry (bp_age_ways 2 way (p.btic entry)) (record p { btic_hit = p.btic_hit + 1 })

unfoldable pub btic_miss : ℕ → ℕ → Predictor → Predictor
unfolding bp_age_ways bp_low_way
btic_miss entry targetaddr p =
    let ways = p.btic entry in
    let minway = bp_low_way ways 1 2 in
    let placed = update ways minway (record (ways minway) { addr = targetaddr }) in
    set_btic entry (bp_age_ways 2 minway placed) (record p { btic_miss = p.btic_miss + 1 })

unfoldable pub btic_update : ℕ → Machine → Machine
unfolding btic_hit btic_miss bp_find_way
btic_update targetaddr m =
    let entry = targetaddr % 128 in
    let p = m.predictor in
    let next : Predictor = elim (bp_find_way (p.btic entry) targetaddr 2) [
      | none ↦ btic_miss entry targetaddr p
      | some way ↦ btic_hit entry way p
    ] in
    if m.config.btic then record m { predictor = next } else m

unfoldable pub bpb_enabled : ℕ → Machine → Machine
bpb_enabled val m = record m { config = record m.config { bpb_enabled = not (val == 0) } }

unfoldable pub bpb_btic : ℕ → Machine → Machine
bpb_btic val m = record m { config = record m.config { btic = not (val == 0) } }
