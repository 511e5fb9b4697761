-- ===== src/Watch/Scope.antt =====
-- What a check of the debug unit can change, or1ksim/debug/debug-unit.c.
use openrisc_tools.Prelude.{
  ℕ, ◌≡◌, refl, ap, Bool, true, false, not, ◌||◌, [], ◌∷◌, if◌then◌else◌, bit_or,
}
use openrisc_tools.Prelude.Update.{Frame, Frame-intro, Frame-update, one_of}
use openrisc_tools.Machine.{
  Machine, set_spr, test, spr_dmr1, spr_dmr2, spr_dwcr0, spr_dwcr1, spr_dmr2_wgb, spr_dmr2_awtc,
}
use openrisc_tools.Watch.Match.{Action, matchpoint, any_match}
use openrisc_tools.Watch.Chain.{watchpoint, count_watchpoints}
use openrisc_tools.Watch.Check.{take_watchpoints, calculate_watchpoints, check_debug_unit}

-- Only the registers of the watchpoints differ.
pub record IsWatched (m m' : Machine) : Type 0 where
  pub rest : m' ≡ record m { sprs = m'.sprs }
  pub registers : Frame (spr_dmr2 ∷ spr_dwcr0 ∷ spr_dwcr1 ∷ []) m.sprs m'.sprs

same-IsWatched : (m : Machine) → IsWatched m m
same-IsWatched m = record {
  rest = refl;
  registers = Frame-intro (spr_dmr2 ∷ spr_dwcr0 ∷ spr_dwcr1 ∷ []) m.sprs m.sprs (λ n h. refl);
}

set-IsWatched :
    (k v : ℕ) (m m' : Machine)
    → one_of k (spr_dmr2 ∷ spr_dwcr0 ∷ spr_dwcr1 ∷ []) ≡ true
    → IsWatched m m'
    → IsWatched m (set_spr k v m')
set-IsWatched k v m m' listed w = record {
  rest = ap (set_spr k v) w.rest;
  registers =
      Frame-update (spr_dmr2 ∷ spr_dwcr0 ∷ spr_dwcr1 ∷ []) m.sprs m'.sprs k v listed w.registers;
}

-- A result of either of two ways.
either_way :
    (m : Machine) (b : Bool) (x y : Machine × Bool)
    → IsWatched m x.0
    → IsWatched m y.0
    → IsWatched m (if b then x else y).0
either_way m true x y p q = p
either_way m false x y p q = q

choice-IsWatched :
    (m : Machine) (b : Bool) (x y : Machine)
    → IsWatched m x
    → IsWatched m y
    → IsWatched m (if b then x else y)
choice-IsWatched m true x y p q = p
choice-IsWatched m false x y p q = q

count_watchpoints-IsWatched :
    (dmr2 : ℕ) (wp : ℕ → Bool) (m : Machine) → IsWatched m (count_watchpoints dmr2 wp m)
unfolding count_watchpoints
count_watchpoints-IsWatched dmr2 wp m =
    choice-IsWatched m _ _ m
      (set-IsWatched spr_dwcr1 _ m _ refl (set-IsWatched spr_dwcr0 _ m m refl (same-IsWatched m)))
      (same-IsWatched m)

take_watchpoints-IsWatched : (mp : ℕ → ℕ) (m : Machine) → IsWatched m (take_watchpoints mp m).0
unfolding take_watchpoints
take_watchpoints-IsWatched mp m =
    set-IsWatched spr_dmr2 _ m _ refl
      (count_watchpoints-IsWatched (m.sprs spr_dmr2) (watchpoint (m.sprs spr_dmr1) mp) m)

-- A check of an access, whatever it finds, writes nothing but DMR2 and the two counters.
pub check_debug_unit-IsWatched :
    (action : Action) (udata : ℕ) (m : Machine) → IsWatched m (check_debug_unit action udata m).0
unfolding check_debug_unit calculate_watchpoints
check_debug_unit-IsWatched action udata m =
    let mp = matchpoint action udata m in
    let quiet = same-IsWatched m in
    let taken = take_watchpoints mp m in
    let matched =
      either_way m (any_match mp 8) taken (m, false) (take_watchpoints-IsWatched mp m) quiet in
    let wanted = test (m.sprs spr_dmr2) (bit_or spr_dmr2_wgb spr_dmr2_awtc) in
    either_way m (not m.config.debug_enabled || m.in_reset) (m, false)
      (if wanted then calculate_watchpoints action udata m else (m, false)) quiet
      (either_way m wanted (calculate_watchpoints action udata m) (m, false) matched quiet)
