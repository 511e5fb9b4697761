-- ===== src/Dcache/Ways.antt =====
-- The ways of a set: the search for a tag, the choice of a way to replace, and the ages.
use openrisc_tools.Prelude.{
  ℕ, zero, suc, ◌-◌, ◌/◌, ◌%◌, ◌^◌, ◌&&◌, Option, none, some, ◌==◌, ltb, if◌then◌else◌,
}
use openrisc_tools.Prelude.Update.{update}
use openrisc_tools.Machine.{Machine, Way, DcConfig}

abbrev pub dc_set : DcConfig → ℕ → ℕ
dc_set c dataaddr = dataaddr / c.blocksize % c.nsets

abbrev pub dc_tag : DcConfig → ℕ → ℕ
dc_tag c dataaddr = dataaddr / c.blocksize / c.nsets

-- The scan of the first `n` ways. The last match counts.
unfoldable pub dc_find_way : (ℕ → Way) → ℕ → ℕ → Option ℕ
dc_find_way ways tagaddr zero = none
dc_find_way ways tagaddr (suc n) =
    let rest = dc_find_way ways tagaddr n in if (ways n).tagaddr == tagaddr then some n else rest

-- The search for the least recently used way, with `minlru` and `minway`.
unfoldable pub dc_min_way : (ℕ → Way) → ℕ → ℕ → ℕ × ℕ
dc_min_way ways top zero = (top, 0)
dc_min_way ways top (suc n) =
    let (minlru, minway) = dc_min_way ways top n in
    if ltb (ways n).lru minlru then ((ways n).lru, n) else (minlru, minway)

-- The search of a write miss, which leaves `minlru` as it is.
unfoldable pub dc_low_way : (ℕ → Way) → ℕ → ℕ → ℕ
dc_low_way ways top zero = 0
dc_low_way ways top (suc n) =
    let rest = dc_low_way ways top n in if ltb (ways n).lru top then n else rest

-- A hit on `way`. A round of the loop changes only its own way, and not the age of `way`.
unfoldable pub use_way : DcConfig → ℕ → (ℕ → Way) → ℕ → Way
use_way c way ways =
    let aged : ℕ → Way = λ i. record (ways i) {
      lru =
          if ltb i c.nways && ltb (ways way).lru (ways i).lru
          then (ways i).lru - 1
          else (ways i).lru;
    } in
    update aged way (record (aged way) { lru = c.ustates - 1 })

-- A miss that has filled `way`. An age of 0 stays.
unfoldable pub fill_way : DcConfig → ℕ → ℕ → (ℕ → Way) → ℕ → Way
fill_way c way tagaddr ways =
    let tagged = update ways way (record (ways way) { tagaddr = tagaddr }) in
    let aged : ℕ → Way = λ i. record (tagged i) {
      lru = if ltb i c.nways then (tagged i).lru - 1 else (tagged i).lru;
    } in
    update aged way (record (aged way) { lru = c.ustates - 1 })

-- `tagaddr = -1; lru = 0`.
unfoldable pub dc_drop_way : ℕ → (ℕ → Way) → ℕ → Way
dc_drop_way way ways = update ways way (record (ways way) { tagaddr = 2 ^ 32 - 1; lru = 0 })

abbrev pub set_ways : ℕ → (ℕ → Way) → Machine → Machine
set_ways set ways m = record m { dc = record m.dc { sets = update m.dc.sets set ways } }
