-- ===== src/Watch/Chain.antt =====
-- The watchpoints: the chains of DMR1, and the two counters.
use openrisc_tools.Prelude.{
  ℕ, zero, suc, ◌+◌, ◌-◌, ◌*◌, ◌/◌, ◌%◌, ◌^◌, Bool, false, not, ◌&&◌, ◌||◌, ◌==◌, ltb,
  if◌then◌else◌, bit_and, bit_or,
}
use openrisc_tools.Machine.{
  Machine, set_spr, clear, spr_dmr2_awtc_off, spr_dmr2_wce0, spr_dmr2_wce1, spr_dwcr0, spr_dwcr1,
  spr_dwcr_count, spr_dwcr_match, spr_dwcr_match_off,
}
use openrisc_tools.Watch.Match.{fires}

-- One `switch` on a field of DMR1: what matched, by itself, and or or with the watchpoint before.
-- The field with both bits set is reserved, and its watchpoint stays cleared.
unfoldable pub chained : ℕ → ℕ → Bool → Bool → Bool
chained dmr1 i matched before =
    let field = bit_and dmr1 (3 * 4 ^ i) in
    if field == 0
    then matched
    else if field == 4 ^ i
    then matched && before
    else if field == 2 * 4 ^ i
    then matched || before
    else false

-- `wp[i]` of the first eight. The external watchpoint that the first would chain with is not there.
unfoldable pub watchpoint : ℕ → (ℕ → ℕ) → ℕ → Bool
unfolding chained
watchpoint dmr1 mp zero = bit_and dmr1 3 == 0 && fires (mp 0)
watchpoint dmr1 mp (suc i) = chained dmr1 (suc i) (fires (mp (suc i))) (watchpoint dmr1 mp i)

-- The watchpoint is assigned to counter 0.
abbrev pub use_counter_0 : ℕ → ℕ → Bool
use_counter_0 dmr2 i = not (dmr2 / 2 ^ (spr_dmr2_awtc_off + i) % 2 == 1)

-- The loop over the watchpoints below `n`, for one counter: a `short int`, by its 16 bits.
unfoldable pub counted : Bool → (ℕ → Bool) → (ℕ → Bool) → ℕ → ℕ → ℕ
counted enabled mine wp counter zero = counter
counted enabled mine wp counter (suc n) =
    let rest = counted enabled mine wp counter n in
    if mine n && enabled && wp n then (rest + 1) % 2 ^ 16 else rest

-- A `short int` as a word.
abbrev pub sign_extended : ℕ → ℕ
sign_extended c = if ltb c (2 ^ 15) then c else 2 ^ 32 - 2 ^ 16 + c

abbrev pub set_count : ℕ → ℕ → Machine → Machine
set_count reg counter m =
    set_spr reg (bit_or (clear (m.sprs reg) spr_dwcr_count) (sign_extended counter)) m

unfoldable pub count_watchpoints : ℕ → (ℕ → Bool) → Machine → Machine
unfolding counted
count_watchpoints dmr2 wp m =
    let enabled0 = bit_and dmr2 spr_dmr2_wce0 == spr_dmr2_wce0 in
    let enabled1 = bit_and dmr2 spr_dmr2_wce1 == spr_dmr2_wce1 in
    let counter0 = bit_and (m.sprs spr_dwcr0) spr_dwcr_count in
    let counter1 = bit_and (m.sprs spr_dwcr1) spr_dwcr_count in
    if enabled0 || enabled1
    then set_count spr_dwcr1 (counted enabled1 (λ i. not (use_counter_0 dmr2 i)) wp counter1 8)
        (set_count spr_dwcr0 (counted enabled0 (use_counter_0 dmr2) wp counter0 8) m)
    else m

unfoldable pub counter_matched : ℕ → Machine → Bool
counter_matched reg m =
    bit_and (m.sprs reg) spr_dwcr_count
    == bit_and (m.sprs reg) spr_dwcr_match / 2 ^ spr_dwcr_match_off
