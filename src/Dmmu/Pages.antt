-- ===== src/Dmmu/Pages.antt =====
-- The translation of or1ksim/mmu/dmmu.c for pages of 8 KB, read from the bits of the registers.
use mathlib.Core.Path.{subst}
use native.Mathlib.Nat.{pow-le-pow_right}
use openrisc_tools.Prelude.{
  ℕ, ◌+◌, ◌*◌, ◌/◌, ◌%◌, ◌^◌, ◌≤◌, ◌<◌, ◌≡◌, ◌∙◌, ap, sym, refl, fun_ext, Bool, true, false, not,
  ◌⊎◌, inl, inr, bit_and, arith,
}
use openrisc_tools.Machine.{Machine, spr_sr, spr_upr, spr_dsr}
use openrisc_tools.Except.{dsr_mask, dpf, dtlbmiss}
use openrisc_tools.Tlb.{matches, IsConfigured}
use openrisc_tools.Tlb.Search.{none_below, way_matches}
use openrisc_tools.Machine.Masks.{test-pow}
use openrisc_tools.Tlb.Pages.{
  IsPaged, set_number, has_page, set_of-set_number, matches-has_page, physical-page,
}
use openrisc_tools.Dmmu.Defs.{first_way, touch, is_off, dmmu_translate}
use openrisc_tools.Dmmu.Search.{dmmu_find_tlbmr_lem}
use openrisc_tools.Dmmu.Translate.{IsHit, dmmu_translate-IsHit, dmmu_translate_miss}
use openrisc_tools.Dmmu.Hits.{is_denied-permits, IsTranslated, IsMissed, touch-IsTouched}

-- The match register of a way; the translation register is 128 further on.
abbrev pub way_register : ℕ → ℕ → ℕ → ℕ
way_register s virtaddr w = 0xa00 + w * 256 + set_number s virtaddr

-- Way `w` of the address's set holds its page.
abbrev pub is_held : ℕ → ℕ → Machine → ℕ → Bool
is_held s virtaddr m w = has_page s virtaddr (m.sprs (way_register s virtaddr w))

not-true : (b : Bool) → not b ≡ false → b ≡ true
not-true true h = refl
not-true false h = sym h

not-swap : (b : Bool) → (not b ≡ true) → b ≡ false
not-swap true h = sym h
not-swap false h = refl

module _ (s virtaddr : ℕ) (m : Machine) (p : IsPaged s m.dmmu) (h : virtaddr < 2 ^ 32)
    (words : (n : ℕ) → m.sprs n < 2 ^ 32) where
  configured : IsConfigured m.dmmu
  configured =
      let most : 2 ^ s ≤ 2 ^ 7 = pow-le-pow_right (omega arith) p.sets in
      let mask = p.set in record { ways = p.ways; sets = omega arith }

  register : (w : ℕ) → first_way m.dmmu virtaddr + w * 256 ≡ way_register s virtaddr w
  register w = omega (arith, set_of-set_number s m.dmmu virtaddr p h)

  IsHit-IsTranslated :
      (w : ℕ) (write_access : Bool) (out : Machine × ℕ)
      → w < m.dmmu.nways
      → IsHit virtaddr (first_way m.dmmu virtaddr + w * 256) write_access m out
      → IsTranslated
          (way_register s virtaddr 0)
          (way_register s virtaddr w)
          virtaddr
          write_access
          m
          out
  IsHit-IsTranslated w write_access out lt hit =
      let r = first_way m.dmmu virtaddr + w * 256 in
      let bits = is_denied-permits m write_access (m.sprs (r + 128)) in
      let first : first_way m.dmmu virtaddr ≡ way_register s virtaddr 0 =
        omega (arith, register 0) in
      subst (λ b. IsTranslated b (way_register s virtaddr w) virtaddr write_access m out) first
        (subst (λ r. IsTranslated (first_way m.dmmu virtaddr) r virtaddr write_access m out)
          (register w)
          (record {
            address =
                hit.address
                ∙ physical-page s m.dmmu virtaddr p h (m.sprs (r + 128)) (words (r + 128));
            touched = touch virtaddr r m;
            is_touched = touch-IsTouched virtaddr w m words lt;
            fault = elim hit.fault [
              | inl denied ↦ inr (not-swap _ (sym bits ∙ denied.0), denied.1)
              | inr allowed ↦ inl (not-true _ (sym bits ∙ allowed.0), allowed.1)
            ];
          }))

  way-holds : way_matches m.dmmu m.sprs virtaddr (first_way m.dmmu virtaddr) ≡ is_held s virtaddr m
  way-holds = fun_ext (λ w.
      ap (λ r. matches m.dmmu virtaddr (m.sprs r)) (register w)
      ∙ matches-has_page s m.dmmu virtaddr p h (m.sprs (way_register s virtaddr w))
          (words (way_register s virtaddr w)))

  is_on : m.sprs spr_sr / 2 ^ 5 % 2 ≡ 1 → m.sprs spr_upr / 2 ^ 3 % 2 ≡ 1 → is_off m ≡ false
  is_on enabled present =
      rw (test-pow 5 (m.sprs spr_sr), test-pow 3 (m.sprs spr_upr), enabled, present) refl

-- Pages of 8 KB in 2^s sets, s at most 7, of at most four ways; registers and address of 32 bits;
-- the data MMU present (bit 3 of UPR) and translation on (bit 5 of SR); neither the page fault nor
-- the TLB miss masked by the debug unit. Then the first way of the address's set whose match
-- register is valid and names the page gives the address: the page of its translation register and
-- the offset. The hit is counted, costs its delay and sets data_ci from bit 1 of that register; the
-- LRU fields of the set become one less down to 0 and the hit way's is reloaded, and no other
-- register and nothing else changes. The data page fault is delivered with the address just when
-- the bit of the translation register is 0 that permits the access: 6 and 7 for the user's reads
-- and writes, 8 and 9 for the supervisor's. Where no way holds the page, the TLB miss is delivered,
-- counted where the performance counters are on, and the answer is 0.
pub dmmu_translate_lem :
    (s virtaddr : ℕ) (write_access : Bool) (m : Machine)
    → IsPaged s m.dmmu
    → virtaddr < 2 ^ 32
    → ((n : ℕ) → m.sprs n < 2 ^ 32)
    → bit_and (m.sprs spr_dsr) (dsr_mask dpf) ≡ 0
    → bit_and (m.sprs spr_dsr) (dsr_mask dtlbmiss) ≡ 0
    → m.sprs spr_sr / 2 ^ 5 % 2 ≡ 1
    → m.sprs spr_upr / 2 ^ 3 % 2 ≡ 1
    → let holds = is_held s virtaddr m in
      let out = dmmu_translate virtaddr write_access m in
      ((w : ℕ) × (w < m.dmmu.nways)
        × (holds w ≡ true)
        × (none_below w holds ≡ true)
        × IsTranslated
            (way_register s virtaddr 0)
            (way_register s virtaddr w)
            virtaddr
            write_access
            m
            out)
      ⊎ (none_below m.dmmu.nways holds ≡ true) × IsMissed virtaddr m out
dmmu_translate_lem s virtaddr write_access m p h words fault_on miss_on enabled present =
    let on = is_on s virtaddr m p h words enabled present in
    let same = way-holds s virtaddr m p h words in
    elim (dmmu_find_tlbmr_lem virtaddr m) [
      | inl none_there ↦
          let (answer, m', is_delivered, counted) =
            dmmu_translate_miss virtaddr write_access m miss_on on none_there.0 in
          inr (
            ap (none_below m.dmmu.nways) (sym same) ∙ none_there.1,
            record {
              address = answer;
              delivered = m';
              is_delivered = is_delivered;
              counted = counted;
            },
          )
      | inr there ↦
          let (w, lt, e, match, before) = there in
          inl (
            w,
            lt,
            ap (λ f. f w) (sym same) ∙ match,
            ap (none_below w) (sym same) ∙ before,
            IsHit-IsTranslated s virtaddr m p h words w write_access
                (dmmu_translate virtaddr write_access m) lt
                (dmmu_translate-IsHit virtaddr (first_way m.dmmu virtaddr + w * 256) write_access m
                  (configured s virtaddr m p h words) fault_on on e),
          )
    ]
