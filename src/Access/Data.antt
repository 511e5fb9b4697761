-- ===== src/Access/Data.antt =====
-- The loads and stores of the processor.
use openrisc_tools.Prelude.{ℕ, ◌+◌, Bool, true, false, if◌then◌else◌}
use openrisc_tools.Machine.{Machine, test, spr_pcmr_la, spr_pcmr_sa}
use openrisc_tools.Except.{except_handle, align}
use openrisc_tools.Pcu.{pcu_count_event}
use openrisc_tools.Dmmu.{dmmu_translate}
use openrisc_tools.Watch.{Action, check_debug_unit}
use openrisc_tools.Memory.{Width, Bus, cut, evalsim_mem, setsim_mem}
use openrisc_tools.Dcache.{dc_simulate_read, dc_simulate_write}

-- `memaddr & 3` and `memaddr & 1`.
unfoldable pub misaligned : Width → ℕ → Bool
misaligned Width.byte memaddr = false
misaligned Width.half memaddr = test memaddr 1
misaligned Width.word memaddr = test memaddr 3

-- `if (config.debug.enabled) *breakpoint += check_debug_unit (...)`.
unfoldable pub watch : Action → ℕ → Machine → Machine
unfolding check_debug_unit
watch action udata m =
    let (m', found) = check_debug_unit action udata m in
    if m.config.debug_enabled
    then record m' { breakpoint = m'.breakpoint + (if found then 1 else 0) }
    else m

abbrev pub count_event : ℕ → Machine → Machine
count_event event m = if m.config.pcu_enabled then pcu_count_event event m else m

-- The load after its translation, when there is no exception.
unfoldable pub load : Bus → Width → ℕ → ℕ → Machine → Machine × ℕ
unfolding watch dc_simulate_read evalsim_mem
load bus w memaddr phys_memaddr m =
    let m1 = watch Action.load_address memaddr (count_event spr_pcmr_la m) in
    let (m2, temp) =
      if m1.config.dc.enabled
      then dc_simulate_read bus phys_memaddr memaddr w m1
      else evalsim_mem bus w phys_memaddr memaddr m1 in
    (watch Action.load_data (cut w temp) m2, cut w temp)

-- `eval_mem32`, `eval_mem16` and `eval_mem8`.
unfoldable pub eval_mem : Bus → Width → ℕ → Machine → Machine × ℕ
unfolding misaligned load dmmu_translate
eval_mem bus w memaddr m =
    let (m1, phys_memaddr) = dmmu_translate memaddr false m in
    if misaligned w memaddr
    then (except_handle align memaddr m, 0)
    else if m1.except_pending
    then (m1, 0)
    else load bus w memaddr phys_memaddr m1

unfoldable pub store : Bus → Width → ℕ → ℕ → ℕ → Machine → Machine
unfolding watch dc_simulate_write setsim_mem
store bus w memaddr phys_memaddr value m =
    let m1 = watch Action.store_address memaddr (count_event spr_pcmr_sa m) in
    let m2 = watch Action.store_data value m1 in
    if m2.config.dc.enabled
    then dc_simulate_write bus phys_memaddr memaddr value w m2
    else setsim_mem bus w phys_memaddr memaddr value m2

-- `set_mem32`, `set_mem16` and `set_mem8`.
unfoldable pub set_mem : Bus → Width → ℕ → ℕ → Machine → Machine
unfolding misaligned store dmmu_translate cut
set_mem bus w memaddr value m =
    let (m1, phys_memaddr) = dmmu_translate memaddr true m in
    if misaligned w memaddr
    then except_handle align memaddr m
    else if m1.except_pending
    then m1
    else store bus w memaddr phys_memaddr (cut w value) m1

-- The functions of the source, by their widths.
abbrev pub eval_mem32 : Bus → ℕ → Machine → Machine × ℕ
eval_mem32 bus = eval_mem bus Width.word

abbrev pub eval_mem16 : Bus → ℕ → Machine → Machine × ℕ
eval_mem16 bus = eval_mem bus Width.half

abbrev pub eval_mem8 : Bus → ℕ → Machine → Machine × ℕ
eval_mem8 bus = eval_mem bus Width.byte

abbrev pub set_mem32 : Bus → ℕ → ℕ → Machine → Machine
set_mem32 bus = set_mem bus Width.word

abbrev pub set_mem16 : Bus → ℕ → ℕ → Machine → Machine
set_mem16 bus = set_mem bus Width.half

abbrev pub set_mem8 : Bus → ℕ → ℕ → Machine → Machine
set_mem8 bus = set_mem bus Width.byte
