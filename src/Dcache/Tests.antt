-- ===== src/Dcache/Tests.antt =====
-- Runs of the data cache.
use native.Mathlib.Nat.{mod-lt}
use openrisc_tools.Prelude.{ℕ, zero, suc, ◌+◌, ◌*◌, ◌%◌, ◌<◌, ◌≡◌, refl, some, inl, inr, arith}
use openrisc_tools.Prelude.Update.{update}
use openrisc_tools.Machine.{Machine, spr_sr, spr_upr}
use openrisc_tools.Sample.{sample, two_areas}
use openrisc_tools.Memory.{Width, find_area}
use openrisc_tools.Memory.Tests.{two_areas-IsMapped, low_area, plain}
use openrisc_tools.Memory.Flat.{area_of}
use openrisc_tools.Dcache.Simulate.{dc_simulate_read}
use openrisc_tools.Dcache.Reads.{IsFaithful, dc_simulate_read_lem}

-- The cache is there and switched on.
abbrev cached : Machine
cached = record sample { sprs = update (update sample.sprs spr_sr 0x802f) spr_upr 0x1b }

low_word : (k : ℕ) → k < 4 → area_of two_areas (0x100 + 4 * k) ≡ some low_area
unfolding area_of find_area
low_word zero h = refl
low_word (suc zero) h = refl
low_word (suc (suc zero)) h = refl
low_word (suc (suc (suc zero))) h = refl
low_word (suc (suc (suc (suc k)))) h = absurd (omega (arith, h))

dc_simulate_read_lem_example :
    IsFaithful (λ d. 1) 0x104 cached (dc_simulate_read plain 0x104 0x104 Width.word cached)
dc_simulate_read_lem_example =
    dc_simulate_read_lem (λ d. 1) (λ d. 1) 0x104 0x104 cached (omega arith) refl (inl refl)
      (omega arith) two_areas-IsMapped (λ j. low_area)
      (λ j. low_word (j % 4) (mod-lt j (omega arith))) (λ s w j. inr (refl, tt))
