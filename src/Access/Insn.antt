-- ===== src/Access/Insn.antt =====
-- The fetch of an instruction.
use openrisc_tools.Prelude.{ℕ, if◌then◌else◌}
use openrisc_tools.Machine.{Machine, spr_pcmr_if}
use openrisc_tools.Immu.{immu_translate}
use openrisc_tools.Watch.{Action}
use openrisc_tools.Memory.{Width, Bus, evalsim_mem}
use openrisc_tools.Icache.{ic_simulate_fetch}
use openrisc_tools.Access.Data.{watch, count_event}

-- The fetch after its translation, when there is no exception.
unfoldable pub fetch : Bus → ℕ → ℕ → Machine → Machine × ℕ
unfolding watch ic_simulate_fetch evalsim_mem
fetch bus memaddr phys_memaddr m =
    let m1 = count_event spr_pcmr_if (watch Action.insn_fetch memaddr m) in
    let (m2, temp) =
      if m1.ic.enabled
      then ic_simulate_fetch bus phys_memaddr memaddr m1
      else evalsim_mem bus Width.word phys_memaddr memaddr m1 in
    (watch Action.load_data temp m2, temp)

unfoldable pub eval_insn : Bus → ℕ → Machine → Machine × ℕ
unfolding fetch immu_translate
eval_insn bus memaddr m =
    let (m1, phys_memaddr) = immu_translate memaddr m in
    if m1.except_pending then (m1, 0) else fetch bus memaddr phys_memaddr m1
