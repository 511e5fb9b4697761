-- ===== src/Immu/Tests.antt =====
-- Translations at a concrete TLB, and the theorems there.
use openrisc_tools.Prelude.{ℕ, ◌^◌, ◌<◌, ◌≡◌, ◌⊎◌, refl, List, [], ◌∷◌, true, false, arith}
use openrisc_tools.Machine.{Machine, set_spr, spr_sr}
use openrisc_tools.Sample.{sample, small_mmu}
use openrisc_tools.Except.{dsr_mask}
use openrisc_tools.Tlb.Search.{none_below}
use openrisc_tools.Tlb.Pages.{IsPaged}
use openrisc_tools.Immu.Defs.{immu_translate}
use openrisc_tools.Immu.Hits.{permits, IsTranslated, IsMissed}
use openrisc_tools.Immu.Pages.{is_held, way_register, immu_translate_lem}
use openrisc_tools.Immu.Setup.{Setting, nsets, nways, pagesize}

abbrev fetching : Machine
fetching = set_spr spr_sr 0x8041 sample

-- Page 0x4000 is in set 2 of way 0, mapped to 0x12000 for the supervisor to run.
abbrev mapped : Machine
mapped = set_spr 0x1282 0x12040 (set_spr 0x1202 1 fetching)

small_mmu-IsPaged : IsPaged 6 small_mmu
small_mmu-IsPaged = record {
  sets = omega arith;
  ways = omega arith;
  shift = refl;
  offset = refl;
  page = refl;
  vpn = refl;
  set = refl;
}

words : (n : ℕ) → mapped.sprs n < 2 ^ 32
words n = ground arith

immu_translate_lem_example :
    let holds = is_held 6 0x4010 mapped in
    let out = immu_translate 0x4010 mapped in
    ((w : ℕ) × (w < 1)
      × (holds w ≡ true)
      × (none_below w holds ≡ true)
      × IsTranslated 0x1202 (way_register 6 0x4010 w) 0x4010 mapped out)
    ⊎ (none_below 1 holds ≡ true) × IsMissed 0x4010 mapped out
unfolding dsr_mask
immu_translate_lem_example =
    immu_translate_lem 6 0x4010 mapped small_mmu-IsPaged (omega arith) words refl refl refl refl

-- The supervisor may run the page, the user may not.
runs : permits mapped 0x12040 ≡ true
runs = refl

user_stays_out : permits (set_spr spr_sr 0x8040 mapped) 0x12040 ≡ false
user_stays_out = refl

first_way_holds : is_held 6 0x4010 mapped 0 ≡ true
first_way_holds = refl

abbrev section : List Setting
section = nsets 64 ∷ nways 2 ∷ pagesize 8192 ∷ nsets 100 ∷ []
