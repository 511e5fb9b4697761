-- ===== src/Icache/Fetch.antt =====
-- A fetch through the cache, and the invalidation of a block.
use openrisc_tools.Prelude.{
  ℕ, zero, suc, ◌+◌, ◌*◌, ◌/◌, ◌^◌, Bool, true, false, not, ◌||◌, ◌==◌, none, some, if◌then◌else◌,
  bit_and, bit_or,
}
use openrisc_tools.Prelude.Update.{update}
use openrisc_tools.Machine.{
  Machine, Icache, test, spr_upr, spr_upr_icp, spr_sr, spr_sr_ice, spr_pcmr_icm,
}
use openrisc_tools.Pcu.{pcu_count_event}
use openrisc_tools.Memory.{Width, Bus, evalsim_mem, current, host_read32, host_write32}
use openrisc_tools.Icache.Ways.{ic_find_way, age_above, age_all, ic_min_way, ic_drop_way, drop_ways}

abbrev pub ic_is_off : Machine → Bool
ic_is_off m =
    not (test (m.sprs spr_upr) spr_upr_icp)
    || not (test (m.sprs spr_sr) spr_sr_ice)
    || not (m.insn_ci == 0)

-- `(fetchaddr & ic->set_mask) >> ic->blocksize_log2`.
abbrev pub ic_set : Icache → ℕ → ℕ
ic_set ic fetchaddr = bit_and fetchaddr ic.set_mask / 2 ^ ic.blocksize_log2

-- `(way << ic->blocksize_log2) | (addr & ic->block_offset_mask)`.
abbrev pub place_of : Icache → ℕ → ℕ → ℕ
place_of ic way addr = bit_or (way * 2 ^ ic.blocksize_log2) (bit_and addr ic.block_offset_mask)

unfoldable pub fetch_hit : ℕ → ℕ → Machine → Machine × ℕ
unfolding age_above
fetch_hit fetchaddr way m =
    let ic = m.ic in
    let lrus = age_above ic way (ic_set ic fetchaddr) ic.last_way ic.lrus in
    let ic' = record ic { readhit = ic.readhit + 1; lrus = update lrus way ic.ustates_reload } in
    (
      record m { ic = ic'; mem_cycles = m.mem_cycles + ic.hitdelay },
      host_read32 (place_of ic way fetchaddr) ic.mem,
    )

-- The loop of the reload, with the state, the word read last, and whether it gets to its end: an
-- address outside of the memory drops the way.
unfoldable pub reload : Bus → ℕ → ℕ → ℕ → ℕ → Machine → Machine × Bool
unfolding evalsim_mem current
reload bus block way reload_addr zero m = (m, true)
reload bus block way reload_addr (suc left) m =
    let (m1, tmp) =
      evalsim_mem bus Width.word (bit_or block (bit_and reload_addr m.ic.block_offset_mask)) 0 m in
    let m2 = record m1 {
      ic = record m1.ic { mem = host_write32 (place_of m1.ic way reload_addr) tmp m1.ic.mem };
    } in
    let rest = reload bus block way (reload_addr + 4) left m2 in
    elim (current m2.mem) [
      | none ↦ (record m2 { ic = ic_drop_way way m2.ic }, false)
      | some a ↦ rest
    ]

-- What a miss does to the ways before the line is filled.
unfoldable pub replace : ℕ → ℕ → Icache → Icache
unfolding age_all
replace way fetchaddr ic =
    let lrus = age_all ic (ic_set ic fetchaddr) ic.last_way ic.lrus in
    record ic {
      readmiss = ic.readmiss + 1;
      tags = update ic.tags way (bit_and fetchaddr ic.tagaddr_mask);
      lrus = update lrus way ic.ustates_reload;
    }

unfoldable pub fetch_miss : Bus → ℕ → Machine → Machine × ℕ
unfolding ic_min_way replace reload
fetch_miss bus fetchaddr m =
    let ic = m.ic in
    let set = ic_set ic fetchaddr in
    let way = ic_min_way ic set ic.ustates_reload set ic.last_way in
    let offset = bit_and fetchaddr ic.block_offset_mask in
    let (m2, whole) =
      reload bus (bit_and fetchaddr ic.block_mask) way offset ((ic.blocksize + 3) / 4)
        (record m { ic = replace way fetchaddr ic }) in
    let m3 = record m2 { mem_cycles = m2.mem_cycles + m2.ic.missdelay } in
    let m4 = if m3.config.pcu_enabled then pcu_count_event spr_pcmr_icm m3 else m3 in
    if whole then (m4, host_read32 (place_of m4.ic way offset) m4.ic.mem) else (m2, 0)

unfoldable pub ic_simulate_fetch : Bus → ℕ → ℕ → Machine → Machine × ℕ
unfolding ic_find_way fetch_hit fetch_miss evalsim_mem
ic_simulate_fetch bus fetchaddr virt_addr m =
    let ic = m.ic in
    let set = ic_set ic fetchaddr in
    if ic_is_off m
    then evalsim_mem bus Width.word fetchaddr virt_addr m
    else elim (ic_find_way ic (bit_and fetchaddr ic.tagaddr_mask) set ic.last_way) [
      | none ↦ fetch_miss bus fetchaddr m
      | some way ↦ fetch_hit fetchaddr way m
    ]

unfoldable pub ic_inv : ℕ → Machine → Machine
unfolding drop_ways
ic_inv dataaddr m =
    let ic = m.ic in
    let set = ic_set ic dataaddr in
    let drops : (ℕ → Bool) → Machine =
      λ takes. record m { ic = drop_ways takes set ic.last_way ic } in
    if not (test (m.sprs spr_upr) spr_upr_icp)
    then m
    else if not (test (m.sprs spr_sr) spr_sr_ice)
    then drops (λ tag. true)
    else drops (λ tag. tag == bit_and dataaddr ic.tagaddr_mask)
