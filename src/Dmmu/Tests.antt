-- ===== src/Dmmu/Tests.antt =====
-- Translations at a concrete TLB, and the theorems there.
use openrisc_tools.Prelude.{ℕ, ◌^◌, ◌<◌, ◌≡◌, ◌⊎◌, refl, List, [], ◌∷◌, true, false, arith}
use openrisc_tools.Machine.{Machine, set_spr}
use openrisc_tools.Sample.{sample, small_mmu}
use openrisc_tools.Except.{dsr_mask}
use openrisc_tools.Tlb.Search.{none_below}
use openrisc_tools.Tlb.Pages.{IsPaged}
use openrisc_tools.Dmmu.Defs.{dmmu_translate}
use openrisc_tools.Dmmu.Hits.{permits, IsTranslated, IsMissed}
use openrisc_tools.Dmmu.Pages.{is_held, way_register, dmmu_translate_lem}
use openrisc_tools.Dmmu.Config.{dmmu_start_sec, dmmu_end_sec}
use openrisc_tools.Dmmu.Setup.{
  Setting, nsets, nways, pagesize, configure_all, IsReady, dmmu_section-IsReady,
}

-- Page 0x4000 is in set 2 of way 0, mapped to 0x12000 for the supervisor to read.
abbrev mapped : Machine
mapped = set_spr 0xa82 0x12100 (set_spr 0xa02 1 sample)

small_mmu-IsPaged : IsPaged 6 small_mmu
small_mmu-IsPaged = record {
  sets = omega arith;
  ways = omega arith;
  shift = refl;
  offset = refl;
  page = refl;
  vpn = refl;
  set = refl;
}

words : (n : ℕ) → mapped.sprs n < 2 ^ 32
words n = ground arith

dmmu_translate_lem_example :
    let holds = is_held 6 0x4010 mapped in
    let out = dmmu_translate 0x4010 true mapped in
    ((w : ℕ) × (w < 1)
      × (holds w ≡ true)
      × (none_below w holds ≡ true)
      × IsTranslated 0xa02 (way_register 6 0x4010 w) 0x4010 true mapped out)
    ⊎ (none_below 1 holds ≡ true) × IsMissed 0x4010 mapped out
unfolding dsr_mask
dmmu_translate_lem_example =
    dmmu_translate_lem 6 0x4010 true mapped small_mmu-IsPaged (omega arith) words refl refl refl
      refl

-- The supervisor may read the page but not write it.
readable : permits mapped false 0x12100 ≡ true
readable = refl

read_only : permits mapped true 0x12100 ≡ false
read_only = refl

first_way_holds : is_held 6 0x4010 mapped 0 ≡ true
first_way_holds = refl

abbrev section : List Setting
section = nsets 64 ∷ nways 2 ∷ pagesize 8192 ∷ nsets 100 ∷ []

dmmu_section-IsReady_example :
    IsReady (dmmu_end_sec (configure_all section (dmmu_start_sec small_mmu sample))).dmmu
dmmu_section-IsReady_example = dmmu_section-IsReady small_mmu section sample
