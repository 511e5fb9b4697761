-- ===== src/Tlb/Aging.antt =====
-- Which registers the aging of a set leaves alone, and the sizes that keep it in its unit.
use openrisc_tools.Prelude.{
  ℕ, zero, suc, ◌+◌, ◌*◌, ◌/◌, ◌%◌, ◌^◌, ◌≤◌, ◌<◌, ◌≡◌, ◌≢◌, refl, ◌∙◌, bit_and, arith,
}
use openrisc_tools.Prelude.Update.{update_ne}
use openrisc_tools.Prelude.Bits.{bit_and-le}
use openrisc_tools.Machine.{Machine, Mmu, set_spr}
use openrisc_tools.Tlb.Defs.{age, age_ways, set_of}

-- The aging of the ways of a set writes match registers from `lru` on only.
pub age_ways-below : (n lru r : ℕ) (m : Machine) → r < lru → (age_ways n lru m).sprs r ≡ m.sprs r
unfolding age_ways
age_ways-below zero lru r m h = refl
age_ways-below (suc n) lru r m h =
    age_ways-below n (lru + 128 * 2) r (set_spr lru (age (m.sprs lru)) m) (omega arith)
    ∙ update_ne m.sprs lru r _ (omega arith)

-- It writes no register that lies elsewhere in its block of 256.
pub age_ways-mod :
    (n lru r : ℕ) (m : Machine) → lru % 256 ≢ r % 256 → (age_ways n lru m).sprs r ≡ m.sprs r
unfolding age_ways
age_ways-mod zero lru r m h = refl
age_ways-mod (suc n) lru r m h =
    age_ways-mod n (lru + 128 * 2) r (set_spr lru (age (m.sprs lru)) m) (omega arith)
    ∙ update_ne m.sprs lru r _ (ground arith)

-- It writes no register above the set's last way.
pub age_ways-above :
    (n lru r : ℕ) (m : Machine) → lru + n * 256 ≤ r → (age_ways n lru m).sprs r ≡ m.sprs r
unfolding age_ways
age_ways-above zero lru r m h = refl
age_ways-above (suc n) lru r m h =
    age_ways-above n (lru + 128 * 2) r (set_spr lru (age (m.sprs lru)) m) (omega arith)
    ∙ update_ne m.sprs lru r _ (omega arith)

-- What the configuration ensures: at most four ways of at most 128 sets.
pub record IsConfigured (mmu : Mmu) : Type 0 where
  pub ways : mmu.nways ≤ 4
  pub sets : mmu.set_mask < 128

pub set_of-lt : (mmu : Mmu) (virtaddr : ℕ) → IsConfigured mmu → set_of mmu virtaddr < 128
unfolding set_of
set_of-lt mmu virtaddr c = omega (
  arith,
  c.sets,
  bit_and-le (bit_and virtaddr mmu.page_mask / 2 ^ mmu.pagesize_log2) mmu.set_mask,
)
