-- ===== src/Tlb/Ages.antt =====
-- What the aging of a set does to each register, the loop that sets the LRUs in or1ksim/mmu/dmmu.c
-- and or1ksim/mmu/immu.c.
use openrisc_tools.Prelude.{
  true, false, ℕ, zero, suc, ◌+◌, ◌-◌, ◌*◌, ◌/◌, ◌%◌, ◌^◌, ◌≤◌, ◌<◌, ◌≡◌, ◌∙◌, ap, refl, Bool, ◌&&◌,
  ◌==◌, leb, ltb, Bool-cases, inl, inr, bit_and, bit_or, arith, if◌then◌else◌,
}
use openrisc_tools.Prelude.Bits.{bit_and_comm, bit_and-bit_or, bit_or_assoc, bit_or_comm}
use openrisc_tools.Memory.Masks.{bit_and-low, bit_or-disjoint}
use openrisc_tools.Prelude.Update.{update_self}
use openrisc_tools.Machine.Masks.{bit_and-shift}
use openrisc_tools.Machine.{Machine, set_spr, clear, spr_dtlbmr_lru}
use openrisc_tools.Tlb.Defs.{age, age_ways}

-- The LRU field, the bits 6 and 7, is one less, down to 0.
abbrev pub older : ℕ → ℕ
older r = if r / 2 ^ 6 % 4 == 0 then r else r - 2 ^ 6

-- The register `r` is the match register of one of `n` ways, of which `lru` is the first.
abbrev pub in_ways : ℕ → ℕ → ℕ → Bool
in_ways n lru r = leb lru r && ltb r (lru + n * 256) && (r % 256 == lru % 256)

pub in_ways-way : (n lru w : ℕ) → w < n → in_ways n lru (lru + w * 256) ≡ true
in_ways-way n lru w h = ground (arith, h)

lru_field : (r : ℕ) → bit_and r spr_dtlbmr_lru ≡ r / 2 ^ 6 % 4 * 2 ^ 6
lru_field r = bit_and-shift 6 r 3 ∙ ap (λ q. q * 2 ^ 6) (bit_and-low 2 (r / 2 ^ 6))

-- The bits around the field.
rest_field : (r : ℕ) → r < 2 ^ 32 → clear r spr_dtlbmr_lru ≡ bit_or (r / 2 ^ 8 * 2 ^ 8) (r % 2 ^ 6)
rest_field r h =
    let parts : 0xffff_ff3f ≡ bit_or (0xff_ffff * 2 ^ 8) (2 ^ 6 - 1) = refl in
    let high = bit_and-shift 8 r 0xff_ffff ∙ ap (λ q. q * 2 ^ 8) (bit_and-low 24 (r / 2 ^ 8)) in
    let small : r / 2 ^ 8 % 2 ^ 24 ≡ r / 2 ^ 8 = omega (arith, h) in
    ap (bit_and r) parts
    ∙ bit_and_comm r (bit_or (0xff_ffff * 2 ^ 8) (2 ^ 6 - 1))
    ∙ bit_and-bit_or (0xff_ffff * 2 ^ 8) (2 ^ 6 - 1) r
    ∙ rw
        (
          bit_and_comm (0xff_ffff * 2 ^ 8) r,
          bit_and_comm (2 ^ 6 - 1) r,
          high,
          small,
          bit_and-low 6 r,
        )
        refl

put_field :
    (q f y : ℕ)
    → f ≤ 3
    → y < 2 ^ 6
    → bit_or (bit_or (q * 2 ^ 8) y) (f * 2 ^ 6) ≡ q * 2 ^ 8 + (f * 2 ^ 6 + y)
put_field q f y h l =
    bit_or_assoc (q * 2 ^ 8) y (f * 2 ^ 6)
    ∙ ap (bit_or (q * 2 ^ 8)) (bit_or_comm y (f * 2 ^ 6) ∙ bit_or-disjoint 6 f y l)
    ∙ bit_or-disjoint 8 q (f * 2 ^ 6 + y) (omega (arith, h, l))

pub age-older : (r : ℕ) → r < 2 ^ 32 → age r ≡ older r
unfolding age
age-older r h = elim (Bool-cases (r / 2 ^ 6 % 4 == 0)) [
  | inl young ↦
      let nothing : r / 2 ^ 6 % 4 ≡ 0 = ground (arith, young) in rw (lru_field r, nothing) refl
  | inr used ↦
      let some_use : 0 < r / 2 ^ 6 % 4 = ground (arith, used) in
      let tested : (r / 2 ^ 6 % 4 * 2 ^ 6 == 0) ≡ false = ground (arith, some_use) in
      let less : r / 2 ^ 6 % 4 * 2 ^ 6 - 0x40 ≡ (r / 2 ^ 6 % 4 - 1) * 2 ^ 6 =
        omega (arith, some_use) in
      rw (rest_field r h, lru_field r, tested, used, less)
        (put_field (r / 2 ^ 8) (r / 2 ^ 6 % 4 - 1) (r % 2 ^ 6) (omega arith) (omega arith)
          ∙ omega (arith, some_use))
]

pub age_ways-at :
    (n lru r : ℕ) (m : Machine)
    → (age_ways n lru m).sprs r ≡ (if in_ways n lru r then age (m.sprs r) else m.sprs r)
unfolding age_ways
age_ways-at zero lru r m = ground arith
age_ways-at (suc n) lru r m =
    let rest = age_ways-at n (lru + 128 * 2) r (set_spr lru (age (m.sprs lru)) m) in
    elim (Bool-cases (r == lru)) [
      | inl here ↦
          let same : r ≡ lru = ground (arith, here) in
          let first : in_ways (suc n) lru r ≡ true = ground (arith, same) in
          let passed : in_ways n (lru + 128 * 2) r ≡ false = ground (arith, same) in
          rest ∙ rw (first, passed, same) (update_self m.sprs lru (age (m.sprs lru)))
      | inr away ↦
          let ways : in_ways (suc n) lru r ≡ in_ways n (lru + 128 * 2) r = ground (arith, away) in
          rest ∙ rw (ways, away) refl
    ]

pub age_ways-only :
    (n lru : ℕ) (m : Machine) → age_ways n lru m ≡ record m { sprs = (age_ways n lru m).sprs }
unfolding age_ways
age_ways-only zero lru m = refl
age_ways-only (suc n) lru m = age_ways-only n (lru + 128 * 2) (set_spr lru (age (m.sprs lru)) m)
