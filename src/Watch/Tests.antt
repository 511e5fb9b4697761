-- ===== src/Watch/Tests.antt =====
-- Runs of the watchpoints, and their theorems at concrete states.
use openrisc_tools.Prelude.{◌&&◌, ◌/◌, ◌%◌, ◌^◌, ◌≡◌, refl, true, false, max}
use openrisc_tools.Machine.{Machine, set_spr, spr_dmr2, spr_dwcr0}
use openrisc_tools.Sample.{sample}
use openrisc_tools.Watch.Match.{Action, spr_dcr, spr_dvr, flag, matchpoint}
use openrisc_tools.Watch.Check.{check_debug_unit}
use openrisc_tools.Watch.Status.{any_break, is_reported}
use openrisc_tools.Watch.Counters.{looks, has_fired}
use openrisc_tools.Watch.Verdict.{check_debug_unit_lem}
use openrisc_tools.Watch.Scope.{IsWatched, check_debug_unit-IsWatched}

-- Matchpoint 0 is for loads from 0x1000, and its watchpoint breaks.
abbrev watched : Machine
watched = set_spr spr_dmr2 0x1000 (
    set_spr (spr_dvr 0) 0x1000 (
      set_spr (spr_dcr 0) 0x43
        (record sample { config = record sample.config { debug_enabled = true } })))

broken : (check_debug_unit Action.load_address 0x1000 watched).1 ≡ true
unfolding check_debug_unit
broken = refl

reported : (check_debug_unit Action.load_address 0x1000 watched).0.sprs spr_dmr2 ≡ 0x40_1000
unfolding check_debug_unit
reported = refl

passed : (check_debug_unit Action.load_address 0x1004 watched).1 ≡ false
unfolding check_debug_unit
passed = refl

-- A masked comparison that differs only above the low eight bits is no match.
cut_match :
    matchpoint Action.load_address 0x100
      (set_spr (spr_dvr 0) 0x100 (set_spr (spr_dcr 0) 0x41 sample))
      0
    ≡ 0
unfolding matchpoint
cut_match = refl

check_debug_unit_lem_example :
    let mp = matchpoint Action.load_address 0x1000 watched in
    let out = check_debug_unit Action.load_address 0x1000 watched in
    (out.1 ≡ (looks watched mp && any_break 0x1000 (has_fired watched mp) 10))
    × (out.0.sprs spr_dmr2 / 2 ^ 22 % 2
        ≡ max
            (0x1000 / 2 ^ 22 % 2)
            (flag (looks watched mp && is_reported 0x1000 (has_fired watched mp) 10 22)))
check_debug_unit_lem_example = check_debug_unit_lem Action.load_address 0x1000 watched 22

-- Counter 0 is on and one short of its match field, and only the ninth watchpoint may break.
abbrev watched_count : Machine
watched_count = set_spr spr_dwcr0 0x3_0002 (set_spr spr_dmr2 0x10_0001 watched)

counted_out : (check_debug_unit Action.load_address 0x1000 watched_count).1 ≡ true
unfolding check_debug_unit
counted_out = refl

check_debug_unit-IsWatched_example :
    IsWatched watched (check_debug_unit Action.load_address 0x1000 watched).0
check_debug_unit-IsWatched_example = check_debug_unit-IsWatched Action.load_address 0x1000 watched
