-- ===== src/Watch/Check.antt =====
-- The check of an access, and the status bits of DMR2.
use openrisc_tools.Prelude.{
  ℕ, zero, suc, ◌+◌, ◌/◌, ◌%◌, ◌^◌, Bool, true, false, not, ◌&&◌, ◌||◌, ◌==◌, ltb, if◌then◌else◌,
  bit_or,
}
use openrisc_tools.Machine.{
  Machine, set_spr, test, spr_dmr1, spr_dmr2, spr_dwcr0, spr_dwcr1, spr_dmr2_wgb, spr_dmr2_awtc,
  spr_dmr2_wgb_off, spr_dmr2_wbs_off,
}
use openrisc_tools.Watch.Match.{Action, matchpoint, any_match}
use openrisc_tools.Watch.Chain.{chained, watchpoint, count_watchpoints, counter_matched}

-- All ten: the last two match by their counters.
unfoldable pub all_watchpoints : ℕ → (ℕ → Bool) → Bool → Bool → ℕ → Bool
unfolding chained
all_watchpoints dmr1 wp matched0 matched1 i =
    let eighth = chained dmr1 8 matched0 (wp 7) in
    let ninth = chained dmr1 9 matched1 eighth in
    if ltb i 8 then wp i else if i == 8 then eighth else ninth

-- The loop over the watchpoints below `n`, with DMR2 and `breakpoint_found`. The upper half of
-- the `unsigned long` that holds DMR2, which a sign may fill, is cut off when DMR2 is stored.
unfoldable pub break_loop : (ℕ → Bool) → ℕ → ℕ → ℕ × Bool
break_loop wp dmr2 zero = (dmr2, false)
break_loop wp dmr2 (suc n) =
    let (word, found) = break_loop wp dmr2 n in
    if word / 2 ^ (spr_dmr2_wgb_off + n) % 2 == 1 && wp n
    then (bit_or word (2 ^ (spr_dmr2_wbs_off + n)), true)
    else (word, found)

-- The state after a match, and `breakpoint_found`.
unfoldable pub take_watchpoints : (ℕ → ℕ) → Machine → Machine × Bool
unfolding watchpoint count_watchpoints counter_matched all_watchpoints break_loop
take_watchpoints mp m =
    let dmr1 = m.sprs spr_dmr1 in
    let dmr2 = m.sprs spr_dmr2 in
    let first = watchpoint dmr1 mp in
    let m1 = count_watchpoints dmr2 first m in
    let wp =
      all_watchpoints dmr1 first (counter_matched spr_dwcr0 m1) (counter_matched spr_dwcr1 m1) in
    let (word, found) = break_loop wp dmr2 10 in (set_spr spr_dmr2 word m1, found)

unfoldable pub calculate_watchpoints : Action → ℕ → Machine → Machine × Bool
unfolding matchpoint any_match take_watchpoints
calculate_watchpoints action udata m =
    let mp = matchpoint action udata m in
    if any_match mp 8 then take_watchpoints mp m else (m, false)

unfoldable pub check_debug_unit : Action → ℕ → Machine → Machine × Bool
unfolding calculate_watchpoints
check_debug_unit action udata m =
    if not m.config.debug_enabled || m.in_reset
    then (m, false)
    else if test (m.sprs spr_dmr2) (bit_or spr_dmr2_wgb spr_dmr2_awtc)
    then calculate_watchpoints action udata m
    else (m, false)
