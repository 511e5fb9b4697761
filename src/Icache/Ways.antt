-- ===== src/Icache/Ways.antt =====
-- The loops over the ways of a set, `for (way = set; way < ic->last_way; way += ic->nsets)`. A set
-- has at least one line, so `last_way` rounds are enough.
use openrisc_tools.Prelude.{
  ℕ, zero, suc, ◌+◌, ◌-◌, ◌^◌, Bool, Option, none, some, ◌==◌, ltb, if◌then◌else◌,
}
use openrisc_tools.Prelude.Update.{update}
use openrisc_tools.Machine.{Icache}

-- The first way from `way` on that has the tag.
unfoldable pub ic_find_way : Icache → ℕ → ℕ → ℕ → Option ℕ
ic_find_way ic tagaddr way zero = none
ic_find_way ic tagaddr way (suc fuel) =
    let rest = ic_find_way ic tagaddr (way + ic.nsets) fuel in
    if ltb way ic.last_way then if ic.tags way == tagaddr then some way else rest else none

-- A hit: the ages above that of the way that is hit, which stays as it is.
unfoldable pub age_above : Icache → ℕ → ℕ → ℕ → (ℕ → ℕ) → ℕ → ℕ
age_above ic hit way zero lrus = lrus
age_above ic hit way (suc fuel) lrus =
    let aged = if ltb (lrus hit) (lrus way) then update lrus way (lrus way - 1) else lrus in
    let rest = age_above ic hit (way + ic.nsets) fuel aged in
    if ltb way ic.last_way then rest else lrus

-- A miss: all the ages but those that are 0.
unfoldable pub age_all : Icache → ℕ → ℕ → (ℕ → ℕ) → ℕ → ℕ
age_all ic way zero lrus = lrus
age_all ic way (suc fuel) lrus =
    let rest = age_all ic (way + ic.nsets) fuel (update lrus way (lrus way - 1)) in
    if ltb way ic.last_way then rest else lrus

-- The way to replace, from the ones from `way` on, `minlru` and the choice so far.
unfoldable pub ic_min_way : Icache → ℕ → ℕ → ℕ → ℕ → ℕ
ic_min_way ic way minlru choice zero = choice
ic_min_way ic way minlru choice (suc fuel) =
    let lower = ic_min_way ic (way + ic.nsets) (ic.lrus way) way fuel in
    let rest = ic_min_way ic (way + ic.nsets) minlru choice fuel in
    if ltb way ic.last_way then if ltb (ic.lrus way) minlru then lower else rest else choice

-- `ic->tags[way] = -1; ic->lrus[way] = 0`.
abbrev pub ic_drop_way : ℕ → Icache → Icache
ic_drop_way way ic = record ic {
  tags = update ic.tags way (2 ^ 32 - 1);
  lrus = update ic.lrus way 0;
}

-- Every way of a set is dropped that the test takes.
unfoldable pub drop_ways : (ℕ → Bool) → ℕ → ℕ → Icache → Icache
drop_ways takes way zero ic = ic
drop_ways takes way (suc fuel) ic =
    let rest =
      drop_ways takes (way + ic.nsets) fuel
        (if takes (ic.tags way) then ic_drop_way way ic else ic) in
    if ltb way ic.last_way then rest else ic
