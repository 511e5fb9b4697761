-- ===== src/Immu/Touch.antt =====
-- A hit of or1ksim/mmu/immu.c up to the test for a page fault.
use openrisc_tools.Prelude.{ℕ, ◌+◌, ◌*◌, ◌<◌, ◌≤◌, ◌≡◌, ◌∙◌, arith}
use openrisc_tools.Prelude.Update.{update_ne}
use openrisc_tools.Machine.{Machine, spr_sr}
use openrisc_tools.Immu.Defs.{first_way, touch, is_denied}
use openrisc_tools.Tlb.{age_ways, IsConfigured}
use openrisc_tools.Tlb.Aging.{age_ways-below, age_ways-mod, age_ways-above, set_of-lt}

module _ (virtaddr w : ℕ) (m : Machine) where
  abbrev pub found : ℕ
  found = first_way m.immu virtaddr + w * 256

  pub touch-tr : (touch virtaddr found m).sprs (found + 128) ≡ m.sprs (found + 128)
  unfolding touch
  touch-tr =
      update_ne (age_ways m.immu.nways (first_way m.immu virtaddr) hit_counted).sprs found
        (found + 128) _ (omega arith)
      ∙ age_ways-mod m.immu.nways (first_way m.immu virtaddr) (found + 128) hit_counted
          (omega arith)
    where
      hit_counted : Machine
      hit_counted = record m { fetch_tlbhit = m.fetch_tlbhit + 1 }

  pub touch-low : (n : ℕ) → n < 0x1200 → (touch virtaddr found m).sprs n ≡ m.sprs n
  unfolding touch
  touch-low n h =
      update_ne (age_ways m.immu.nways (first_way m.immu virtaddr) hit_counted).sprs found n _
        (omega arith)
      ∙ age_ways-below m.immu.nways (first_way m.immu virtaddr) n hit_counted (omega arith)
    where
      hit_counted : Machine
      hit_counted = record m { fetch_tlbhit = m.fetch_tlbhit + 1 }

-- So the lookup stays clear of the registers of the other units.
pub touch-high :
    (virtaddr w n : ℕ) (m : Machine)
    → IsConfigured m.immu
    → w < m.immu.nways
    → 0x1680 ≤ n
    → (touch virtaddr (first_way m.immu virtaddr + w * 256) m).sprs n ≡ m.sprs n
unfolding touch
touch-high virtaddr w n m c lt h =
    let small = set_of-lt m.immu virtaddr c in
    let ways = c.ways in
    update_ne (age_ways m.immu.nways (first_way m.immu virtaddr) hit_counted).sprs
      (first_way m.immu virtaddr + w * 256) n _ (omega arith)
    ∙ age_ways-above m.immu.nways (first_way m.immu virtaddr) n hit_counted (omega arith)
  where
    hit_counted : Machine
    hit_counted = record m { fetch_tlbhit = m.fetch_tlbhit + 1 }

-- The test for a page fault reads the same before and after the aging.
pub denied_after :
    (virtaddr w : ℕ) (m : Machine)
    → let r = first_way m.immu virtaddr + w * 256 in
      is_denied (touch virtaddr r m) ((touch virtaddr r m).sprs (r + 128))
      ≡ is_denied m (m.sprs (r + 128))
unfolding is_denied
denied_after virtaddr w m = rw (touch-low virtaddr w m spr_sr (omega arith), touch-tr virtaddr w m)
