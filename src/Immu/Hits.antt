-- ===== src/Immu/Hits.antt =====
-- A hit of or1ksim/mmu/immu.c, register by register, and what a translation leaves.
use openrisc_tools.Prelude.{
  ℕ, ◌+◌, ◌*◌, ◌/◌, ◌%◌, ◌^◌, ◌<◌, ◌≡◌, ◌∙◌, ap, sym, refl, Bool, true, not, ◌==◌, inl, inr,
  Bool-cases, if◌then◌else◌, IfOr, bit_and, bit_or, arith,
}
use openrisc_tools.Prelude.Update.{update}
use openrisc_tools.Machine.{Machine, spr_sr, spr_pcmr_itlbm}
use openrisc_tools.Except.{ipf, itlbmiss}
use openrisc_tools.Except.Delivery.{IsDelivered}
use openrisc_tools.Pcu.{pcu_count_event}
use openrisc_tools.Tlb.{age_ways}
use openrisc_tools.Tlb.Ages.{older, in_ways, in_ways-way, age-older, age_ways-at, age_ways-only}
use openrisc_tools.Machine.Masks.{bit_and-pow, test-pow}
use openrisc_tools.Immu.Defs.{first_way, touch, is_denied}
use openrisc_tools.Immu.Touch.{touch-tr}
use openrisc_tools.Immu.Translate.{missed}

-- The bits 6 and 7 of a translation register let the supervisor and the user execute.
abbrev pub permits : Machine → ℕ → Bool
permits m tr = tr / 2 ^ (if m.sprs spr_sr % 2 == 1 then 6 else 7) % 2 == 1

pub is_denied-permits : (m : Machine) (tr : ℕ) → is_denied m tr ≡ not (permits m tr)
unfolding is_denied
is_denied-permits m tr =
    let whole : m.sprs spr_sr / 2 ^ 0 ≡ m.sprs spr_sr = omega arith in
    let mode = test-pow 0 (m.sprs spr_sr) ∙ ap (λ x. x % 2 == 1) whole in
    elim (Bool-cases (m.sprs spr_sr % 2 == 1)) [
      | inl high ↦ rw (mode, high) (ap not (test-pow 6 tr))
      | inr low ↦ rw (mode, low) (ap not (test-pow 7 tr))
    ]

-- A hit of the match register `r`, in the set whose first one is `base`: the statistics, the delay,
-- the cache inhibition by bit 1 of the translation register, and the LRU fields of the set.
pub record IsTouched (base r : ℕ) (m m' : Machine) : Type 0 where
  pub only : m' ≡ record m {
    fetch_tlbhit = m.fetch_tlbhit + 1;
    mem_cycles = m.mem_cycles + m.immu.hitdelay;
    insn_ci = m.sprs (r + 128) / 2 % 2 * 2;
    sprs = m'.sprs;
  }
  pub ages :
      (n : ℕ)
      → m'.sprs n ≡ (
          if in_ways m.immu.nways base n
          then if n == r then bit_or (older (m.sprs n)) m.immu.lru_reload else older (m.sprs n)
          else m.sprs n)

-- What a translation leaves on such a hit.
pub record IsTranslated (base r virtaddr : ℕ) (m : Machine) (out : Machine × ℕ) : Type 0 where
  pub address : out.1 ≡ m.sprs (r + 128) / 2 ^ 13 * 2 ^ 13 + virtaddr % 2 ^ 13
  pub touched : Machine
  pub is_touched : IsTouched base r m touched
  pub fault :
      IfOr (permits m (m.sprs (r + 128))) (out.0 ≡ touched) (IsDelivered ipf virtaddr touched out.0)

-- What it leaves on a miss.
pub record IsMissed (virtaddr : ℕ) (m : Machine) (out : Machine × ℕ) : Type 0 where
  pub address : out.1 ≡ 0
  pub delivered : Machine
  pub is_delivered : IsDelivered itlbmiss virtaddr (missed m) delivered
  pub counted : out.0 ≡ (
      if delivered.config.pcu_enabled then pcu_count_event spr_pcmr_itlbm delivered else delivered)

module _ (virtaddr w : ℕ) (m : Machine) where
  abbrev old : Machine
  old = record m { fetch_tlbhit = m.fetch_tlbhit + 1 }

  aged : Machine
  aged = age_ways m.immu.nways (first_way m.immu virtaddr) old

  abbrev r : ℕ
  r = first_way m.immu virtaddr + w * 256

  finish : Machine → ℕ → Machine
  finish q c = record q {
    sprs = update q.sprs r (bit_or (q.sprs r) m.immu.lru_reload);
    insn_ci = c;
    mem_cycles = q.mem_cycles + m.immu.hitdelay;
  }

  touch-only : touch virtaddr r m ≡ record m {
    fetch_tlbhit = m.fetch_tlbhit + 1;
    mem_cycles = m.mem_cycles + m.immu.hitdelay;
    insn_ci = m.sprs (r + 128) / 2 % 2 * 2;
    sprs = (touch virtaddr r m).sprs;
  }
  unfolding touch aged finish
  touch-only =
      ap (finish aged)
        (ap (λ x. bit_and x 2) (touch-tr virtaddr w m) ∙ bit_and-pow 1 (m.sprs (r + 128)))
      ∙ ap (λ q. finish q (m.sprs (r + 128) / 2 % 2 * 2))
          (age_ways-only m.immu.nways (first_way m.immu virtaddr) old)

  touch-ages :
      ((n : ℕ) → m.sprs n < 2 ^ 32)
      → w < m.immu.nways
      → (n : ℕ)
      → (touch virtaddr r m).sprs n ≡ (
          if in_ways m.immu.nways (first_way m.immu virtaddr) n
          then if n == r then bit_or (older (m.sprs n)) m.immu.lru_reload else older (m.sprs n)
          else m.sprs n)
  unfolding touch aged
  touch-ages words lt n =
      let at = age_ways-at m.immu.nways (first_way m.immu virtaddr) n old in
      let small = age-older (m.sprs n) (words n) in
      elim (Bool-cases (n == r)) [
        | inl here ↦
            let same : n ≡ r = ground (arith, here) in
            let inside : in_ways m.immu.nways (first_way m.immu virtaddr) n ≡ true =
              rw same (in_ways-way m.immu.nways (first_way m.immu virtaddr) w lt) in
            rw (here, inside)
              (ap (λ x. bit_or x m.immu.lru_reload)
                (ap aged.sprs (sym same) ∙ at ∙ rw inside small))
        | inr away ↦ rw away (at ∙ rw small refl)
      ]

  pub touch-IsTouched :
      ((n : ℕ) → m.sprs n < 2 ^ 32)
      → w < m.immu.nways
      → IsTouched (first_way m.immu virtaddr) r m (touch virtaddr r m)
  touch-IsTouched words lt = record { only = touch-only; ages = touch-ages words lt }
