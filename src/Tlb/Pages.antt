-- ===== src/Tlb/Pages.antt =====
-- Pages of 8 KB in sets of a power of 2: what the masks of or1ksim/mmu/dmmu.c and
-- or1ksim/mmu/immu.c read of an address and of a register.
use native.Mathlib.Nat.{mul-div_cancel}
use mathlib.Core.Bool.{true≢false}
use openrisc_tools.Prelude.{
  ℕ, ◌+◌, ◌-◌, ◌*◌, ◌/◌, ◌%◌, ◌^◌, ◌≤◌, ◌<◌, ◌≡◌, ◌∙◌, sym, ap, refl, Bool, ◌&&◌, ◌==◌, Bool-cases,
  ==_refl, ==_ne, inl, inr, bit_and, arith,
}
use openrisc_tools.Memory.Masks.{pow-pos, pow-split, bit_and-low, bit_and-high, bit_or-disjoint}
use openrisc_tools.Machine.{Mmu}
use openrisc_tools.Machine.Masks.{test-pow}
use openrisc_tools.Tlb.Defs.{set_of, matches, physical}

-- The sizes of a unit with pages of 8 KB in 2^s sets.
pub record IsPaged (s : ℕ) (mmu : Mmu) : Type 0 where
  pub sets : s ≤ 7
  pub ways : mmu.nways ≤ 4
  pub shift : mmu.pagesize_log2 ≡ 13
  pub offset : mmu.page_offset_mask ≡ 2 ^ 13 - 1
  pub page : mmu.page_mask ≡ 2 ^ 32 - 2 ^ 13
  pub vpn : mmu.vpn_mask ≡ 2 ^ 32 - 2 ^ (13 + s)
  pub set : mmu.set_mask ≡ 2 ^ s - 1

-- The set that the page of an address is in.
abbrev pub set_number : ℕ → ℕ → ℕ
set_number s virtaddr = virtaddr / 2 ^ 13 % 2 ^ s

-- The match register is valid, and names the page of the address above the bits of the set.
abbrev pub has_page : ℕ → ℕ → ℕ → Bool
has_page s virtaddr r = (r / 2 ^ (13 + s) == virtaddr / 2 ^ (13 + s)) && (r % 2 == 1)

page_bits : (k x : ℕ) → k ≤ 32 → x < 2 ^ 32 → bit_and x (2 ^ 32 - 2 ^ k) ≡ x / 2 ^ k * 2 ^ k
page_bits k x h l =
    let split = pow-split k 32 h in
    rw (← split) (bit_and-high k (32 - k) x (omega (arith, l, split)))

module _ (s : ℕ) (mmu : Mmu) (virtaddr : ℕ) (p : IsPaged s mmu) (h : virtaddr < 2 ^ 32) where
  pub set_of-set_number : set_of mmu virtaddr ≡ set_number s virtaddr
  unfolding set_of
  set_of-set_number =
      rw (p.page, p.shift, p.set, page_bits 13 virtaddr (omega arith) h)
        (bit_and-low s (virtaddr / 2 ^ 13 * 2 ^ 13 / 2 ^ 13) ∙ ap (λ x. x % 2 ^ s) (omega arith))

  same_page : (k q r : ℕ) → (q * 2 ^ k == r * 2 ^ k) ≡ (q == r)
  same_page k q r = elim (Bool-cases (q == r)) [
    | inl same ↦
        let equal : q ≡ r = ground (arith, same) in rw equal (==_refl (r * 2 ^ k) ∙ sym (==_refl r))
    | inr other ↦
        ==_ne (q * 2 ^ k) (r * 2 ^ k) (λ e. true≢false (
          sym (==_refl r)
          ∙ ap (λ q. q == r)
              (sym (mul-div_cancel r (pow-pos k))
                ∙ ap (λ z. z / 2 ^ k) (sym e)
                ∙ mul-div_cancel q (pow-pos k))
          ∙ other))
        ∙ sym other
  ]

  pub matches-has_page : (r : ℕ) → r < 2 ^ 32 → matches mmu virtaddr r ≡ has_page s virtaddr r
  unfolding matches
  matches-has_page r l =
      let few = p.sets in
      let whole : r / 2 ^ 0 ≡ r = omega arith in
      rw
        (
          p.vpn,
          page_bits (13 + s) r (omega arith) l,
          page_bits (13 + s) virtaddr (omega arith) h,
          test-pow 0 r,
          same_page (13 + s) (r / 2 ^ (13 + s)) (virtaddr / 2 ^ (13 + s)),
          whole,
        )
        refl

  pub physical-page :
      (tr : ℕ) → tr < 2 ^ 32 → physical mmu tr virtaddr ≡ tr / 2 ^ 13 * 2 ^ 13 + virtaddr % 2 ^ 13
  physical-page tr l =
      rw (p.offset, page_bits 13 tr (omega arith) l, bit_and-low 13 virtaddr)
        (bit_or-disjoint 13 (tr / 2 ^ 13) (virtaddr % 2 ^ 13) (omega arith))
