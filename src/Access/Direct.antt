-- ===== src/Access/Direct.antt =====
-- The accesses that the simulator makes for itself: no exception, no delay.
use openrisc_tools.Prelude.{ℕ, Bool, true, false, none, some, if◌then◌else◌, bit_and}
use openrisc_tools.Machine.{Machine, Area}
use openrisc_tools.Dmmu.{peek_into_dtlb}
use openrisc_tools.Memory.{Width, Bus, cut, lookup, current, writefunc}
use openrisc_tools.Dcache.{dc_simulate_read, dc_simulate_write}
use openrisc_tools.Access.Data.{misaligned}

-- `direct_ops`: without a function, `eval_mem_32_inv_direct` and its kin, which only tell.
unfoldable pub direct_readfunc : Bus → Width → Area → ℕ → Machine → Machine × ℕ
direct_readfunc bus w a memaddr m =
    if bus.reads a.device w then bus.read a.device w (bit_and memaddr a.size_mask) m else (m, 0)

unfoldable pub direct_writefunc : Bus → Width → Area → ℕ → ℕ → Machine → Machine
direct_writefunc bus w a memaddr value m =
    if bus.writes a.device w then bus.write a.device w (bit_and memaddr a.size_mask) value m else m

-- `eval_direct32`, `eval_direct16` and `eval_direct8`.
unfoldable pub eval_direct : Bus → Width → ℕ → Bool → Bool → Machine → Machine × ℕ
unfolding misaligned peek_into_dtlb dc_simulate_read lookup current direct_readfunc cut
eval_direct bus w memaddr through_mmu through_dc m =
    let (m1, phys_memaddr) =
      if through_mmu then peek_into_dtlb memaddr false through_dc m else (m, memaddr) in
    let (m2, cached) = dc_simulate_read bus phys_memaddr memaddr w m1 in
    let m3 = lookup phys_memaddr m1 in
    let direct : Machine × ℕ = elim (current m3.mem) [
      | none ↦ (m3, 0)
      | some a ↦ direct_readfunc bus w a phys_memaddr m3
    ] in
    if misaligned w memaddr then (m, 0) else if through_dc then (m2, cut w cached) else direct

-- `set_direct32` asks the TLB for a write, the two others for a read.
unfoldable pub asks_write : Width → Bool
asks_write Width.word = true
asks_write _ = false

-- The address that the cache is given: `set_direct8` passes the physical one.
unfoldable pub cache_addr : Width → ℕ → ℕ → ℕ
cache_addr Width.byte memaddr phys_memaddr = phys_memaddr
cache_addr _ memaddr phys_memaddr = memaddr

-- `set_direct32`, `set_direct16` and `set_direct8`.
unfoldable pub set_direct : Bus → Width → ℕ → ℕ → Bool → Bool → Machine → Machine
unfolding misaligned peek_into_dtlb dc_simulate_write lookup current direct_writefunc cut asks_write
    cache_addr
set_direct bus w memaddr value through_mmu through_dc m =
    let (m1, phys_memaddr) =
      if through_mmu then peek_into_dtlb memaddr (asks_write w) through_dc m else (m, memaddr) in
    let m3 = lookup phys_memaddr m1 in
    let direct : Machine = elim (current m3.mem) [
      | none ↦ m3
      | some a ↦ direct_writefunc bus w a phys_memaddr (cut w value) m3
    ] in
    if misaligned w memaddr
    then m
    else if through_dc
    then dc_simulate_write bus (cache_addr w memaddr phys_memaddr) memaddr (cut w value) w m1
    else direct

-- `ops.writeprog32` and `ops.writeprog8`: an area that has none uses the function for stores, or
-- what stands for it.
unfoldable pub program : Bus → Width → Area → ℕ → ℕ → Machine → Machine
unfolding writefunc
program bus w a memaddr value m =
    if bus.progs a.device w
    then bus.prog a.device w (bit_and memaddr a.size_mask) value m
    else writefunc bus w a memaddr value m

-- `set_program32` and `set_program8`.
unfoldable pub set_program : Bus → Width → ℕ → ℕ → Machine → Machine
unfolding misaligned lookup current cut program
set_program bus w memaddr value m =
    let m1 = lookup memaddr m in
    let loaded : Machine = elim (current m1.mem) [
      | none ↦ m1
      | some a ↦ program bus w a memaddr (cut w value) m1
    ] in
    if misaligned w memaddr then m else loaded

-- The functions of the source, by their widths.
abbrev pub eval_direct32 : Bus → ℕ → Bool → Bool → Machine → Machine × ℕ
eval_direct32 bus = eval_direct bus Width.word

abbrev pub eval_direct16 : Bus → ℕ → Bool → Bool → Machine → Machine × ℕ
eval_direct16 bus = eval_direct bus Width.half

abbrev pub eval_direct8 : Bus → ℕ → Bool → Bool → Machine → Machine × ℕ
eval_direct8 bus = eval_direct bus Width.byte

abbrev pub set_direct32 : Bus → ℕ → ℕ → Bool → Bool → Machine → Machine
set_direct32 bus = set_direct bus Width.word

abbrev pub set_direct16 : Bus → ℕ → ℕ → Bool → Bool → Machine → Machine
set_direct16 bus = set_direct bus Width.half

abbrev pub set_direct8 : Bus → ℕ → ℕ → Bool → Bool → Machine → Machine
set_direct8 bus = set_direct bus Width.byte

abbrev pub set_program32 : Bus → ℕ → ℕ → Machine → Machine
set_program32 bus = set_program bus Width.word

abbrev pub set_program8 : Bus → ℕ → ℕ → Machine → Machine
set_program8 bus = set_program bus Width.byte
