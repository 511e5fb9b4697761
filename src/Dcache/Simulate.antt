-- ===== src/Dcache/Simulate.antt =====
-- Reads and writes through the cache, and the invalidation of a block.
use openrisc_tools.Prelude.{ℕ, ◌+◌, ◌-◌, Bool, not, ◌||◌, ◌==◌, none, some, ltb, if◌then◌else◌, ◌^◌}
use openrisc_tools.Machine.{
  Machine, test, spr_upr, spr_upr_dcp, spr_sr, spr_sr_dce, spr_pcmr_dcm, Way, DcConfig,
}
use openrisc_tools.Pcu.{pcu_count_event}
use openrisc_tools.Memory.{Width, Bus, evalsim_mem, setsim_mem, current}
use openrisc_tools.Dcache.Ways.{
  dc_set, dc_tag, dc_find_way, dc_min_way, dc_low_way, use_way, fill_way, dc_drop_way, set_ways,
}
use openrisc_tools.Dcache.Lines.{slot_of, take_part, put_part, set_line, refill_line, dc_rounds}

abbrev pub dc_is_off : Machine → Bool
dc_is_off m =
    not (test (m.sprs spr_upr) spr_upr_dcp)
    || not (test (m.sprs spr_sr) spr_sr_dce)
    || not (m.data_ci == 0)

abbrev pub count_miss : Machine → Machine
count_miss m = if m.config.pcu_enabled then pcu_count_event spr_pcmr_dcm m else m

-- The word of a way that an access is to.
abbrev pub word_at : ℕ → ℕ → Machine → ℕ
word_at dataaddr way m =
    (m.dc.sets (dc_set m.config.dc dataaddr) way).line (slot_of m.config.dc dataaddr)

unfoldable pub read_hit : Width → ℕ → ℕ → Machine → Machine × ℕ
unfolding use_way take_part
read_hit w dataaddr way m =
    let c = m.config.dc in
    let set = dc_set c dataaddr in
    let m1 = record m { dc = record m.dc { readhit = m.dc.readhit + 1 } } in
    let m2 = set_ways set (use_way c way (m1.dc.sets set)) m1 in
    let m3 = record m2 { mem_cycles = m2.mem_cycles + c.load_hitdelay } in
    (m3, take_part w dataaddr (word_at dataaddr way m3))

unfoldable pub read_miss : Bus → Width → ℕ → Machine → Machine × ℕ
unfolding dc_min_way refill_line fill_way take_part
read_miss bus w dataaddr m =
    let c = m.config.dc in
    let set = dc_set c dataaddr in
    let minway = (dc_min_way (m.dc.sets set) (c.ustates - 1) c.nways).1 in
    let m1 = record m { dc = record m.dc { readmiss = m.dc.readmiss + 1 } } in
    let (m2, whole) = refill_line bus dataaddr set minway 0 (dc_rounds c) m1 in
    let m3 = set_ways set (fill_way c minway (dc_tag c dataaddr) (m2.dc.sets set)) m2 in
    let m4 = count_miss (record m3 { mem_cycles = m3.mem_cycles + c.load_missdelay }) in
    if whole then (m4, take_part w dataaddr (word_at dataaddr minway m4)) else (m2, 0)

unfoldable pub dc_simulate_read : Bus → ℕ → ℕ → Width → Machine → Machine × ℕ
unfolding dc_find_way read_hit read_miss evalsim_mem
dc_simulate_read bus dataaddr virt_addr w m =
    let c = m.config.dc in
    if dc_is_off m
    then evalsim_mem bus w dataaddr virt_addr m
    else elim (dc_find_way (m.dc.sets (dc_set c dataaddr)) (dc_tag c dataaddr) c.nways) [
      | none ↦ read_miss bus w dataaddr m
      | some way ↦ read_hit w dataaddr way m
    ]

unfoldable pub write_hit : Width → ℕ → ℕ → ℕ → Machine → Machine
unfolding use_way put_part
write_hit w dataaddr value way m =
    let c = m.config.dc in
    let set = dc_set c dataaddr in
    let m1 = record m { dc = record m.dc { writehit = m.dc.writehit + 1 } } in
    let m2 = set_ways set (use_way c way (m1.dc.sets set)) m1 in
    let m3 = record m2 { mem_cycles = m2.mem_cycles + c.store_hitdelay } in
    set_line set way (slot_of c dataaddr) (put_part w dataaddr value (word_at dataaddr way m3)) m3

unfoldable pub write_miss : Bus → ℕ → Machine → Machine
unfolding dc_low_way refill_line fill_way
write_miss bus dataaddr m =
    let c = m.config.dc in
    let set = dc_set c dataaddr in
    let minway = dc_low_way (m.dc.sets set) (c.ustates - 1) c.nways in
    let m1 = record m { dc = record m.dc { writemiss = m.dc.writemiss + 1 } } in
    let (m2, whole) = refill_line bus dataaddr set minway 0 (dc_rounds c) m1 in
    let m3 = set_ways set (fill_way c minway (dc_tag c dataaddr) (m2.dc.sets set)) m2 in
    if whole then count_miss (record m3 { mem_cycles = m3.mem_cycles + c.store_missdelay }) else m2

-- The write goes to the memory first.
unfoldable pub dc_simulate_write : Bus → ℕ → ℕ → ℕ → Width → Machine → Machine
unfolding dc_find_way write_hit write_miss setsim_mem current
dc_simulate_write bus dataaddr virt_addr value w m =
    let m1 = setsim_mem bus w dataaddr virt_addr value m in
    let c = m1.config.dc in
    let cached : Machine =
      elim (dc_find_way (m1.dc.sets (dc_set c dataaddr)) (dc_tag c dataaddr) c.nways) [
        | none ↦ write_miss bus dataaddr m1
        | some way ↦ write_hit w dataaddr value way m1
      ] in
    if dc_is_off m1 then m1 else elim (current m1.mem) [ none ↦ m1 | some a ↦ cached ]

-- Every way of the set is dropped.
unfoldable pub drop_all : DcConfig → (ℕ → Way) → ℕ → Way
drop_all c ways i =
    if ltb i c.nways then record (ways i) { tagaddr = 2 ^ 32 - 1; lru = 0 } else ways i

unfoldable pub dc_inv : ℕ → Machine → Machine
unfolding dc_find_way dc_drop_way drop_all
dc_inv dataaddr m =
    let c = m.config.dc in
    let set = dc_set c dataaddr in
    let ways = m.dc.sets set in
    let dropped : Machine = elim (dc_find_way ways (dc_tag c dataaddr) c.nways) [
      | none ↦ m
      | some way ↦ set_ways set (dc_drop_way way ways) m
    ] in
    if not (test (m.sprs spr_upr) spr_upr_dcp)
    then m
    else if not (test (m.sprs spr_sr) spr_sr_dce)
    then set_ways set (drop_all c ways) m
    else dropped
