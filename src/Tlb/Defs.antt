-- ===== src/Tlb/Defs.antt =====
-- The operations. The match bits and the LRU field have one place in the registers of both units.
use openrisc_tools.Prelude.{
  ℕ, zero, suc, ◌+◌, ◌-◌, ◌*◌, ◌/◌, ◌^◌, Bool, ◌&&◌, Option, none, some, ◌==◌, if◌then◌else◌,
  bit_and, bit_or,
}
use openrisc_tools.Machine.{
  Machine, Mmu, set_spr, test, clear, spr_dtlbmr_v, spr_dtlbmr_lru, spr_dtlbtr_ppn,
}

-- The set that an address belongs to.
unfoldable pub set_of : Mmu → ℕ → ℕ
set_of mmu virtaddr = bit_and (bit_and virtaddr mmu.page_mask / 2 ^ mmu.pagesize_log2) mmu.set_mask

-- Whether the match register `r` holds the page of `virtaddr`.
unfoldable pub matches : Mmu → ℕ → ℕ → Bool
matches mmu virtaddr r =
    bit_and r mmu.vpn_mask == bit_and virtaddr mmu.vpn_mask && test r spr_dtlbmr_v

-- The loop over the ways; `none` is the null pointer.
unfoldable pub find_way : Mmu → (ℕ → ℕ) → ℕ → ℕ → ℕ → Option ℕ
unfolding matches
find_way mmu sprs virtaddr zero dtlbmr = none
find_way mmu sprs virtaddr (suc i) dtlbmr =
    let rest = find_way mmu sprs virtaddr i (dtlbmr + 128 * 2) in
    if matches mmu virtaddr (sprs dtlbmr) then some dtlbmr else rest

-- `if (*dtlbmr_lru & LRU) *dtlbmr_lru = ...`.
unfoldable pub age : ℕ → ℕ
age r =
    if test r spr_dtlbmr_lru
    then bit_or (clear r spr_dtlbmr_lru) (bit_and r spr_dtlbmr_lru - 0x40)
    else r

-- The loop that sets the LRUs.
unfoldable pub age_ways : ℕ → ℕ → Machine → Machine
unfolding age
age_ways zero dtlbmr_lru m = m
age_ways (suc i) dtlbmr_lru m =
    age_ways i (dtlbmr_lru + 128 * 2) (set_spr dtlbmr_lru (age (m.sprs dtlbmr_lru)) m)

-- `(*dtlbtr & PPN) | (virtaddr & page_offset_mask)`.
abbrev pub physical : Mmu → ℕ → ℕ → ℕ
physical mmu dtlbtr virtaddr =
    bit_or (bit_and dtlbtr spr_dtlbtr_ppn) (bit_and virtaddr mmu.page_offset_mask)
