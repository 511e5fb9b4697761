-- ===== src/Dmmu/Hits.antt =====
-- A hit of or1ksim/mmu/dmmu.c, register by register, and what a translation leaves.
use openrisc_tools.Prelude.{
  ℕ, ◌+◌, ◌*◌, ◌/◌, ◌%◌, ◌^◌, ◌<◌, ◌≡◌, ◌∙◌, ap, sym, refl, ◌&&◌, ◌||◌, Bool, true, false, not,
  ◌==◌, inl, inr, Bool-cases, if◌then◌else◌, IfOr, bit_and, bit_or, arith,
}
use openrisc_tools.Prelude.Update.{update}
use openrisc_tools.Machine.{
  Machine, test, spr_sr, spr_pcmr_dtlbm, spr_dtlbtr_swe, spr_dtlbtr_sre, spr_dtlbtr_uwe,
  spr_dtlbtr_ure,
}
use openrisc_tools.Except.{dpf, dtlbmiss}
use openrisc_tools.Except.Delivery.{IsDelivered}
use openrisc_tools.Pcu.{pcu_count_event}
use openrisc_tools.Tlb.{age_ways}
use openrisc_tools.Tlb.Ages.{older, in_ways, in_ways-way, age-older, age_ways-at, age_ways-only}
use openrisc_tools.Machine.Masks.{bit_and-pow, test-pow}
use openrisc_tools.Dmmu.Defs.{first_way, touch, is_denied}
use openrisc_tools.Dmmu.Touch.{touch-tr}
use openrisc_tools.Dmmu.Translate.{missed}

-- The bits 6 to 9 of a translation register let the user read and write, and the supervisor read
-- and write.
abbrev pub permits : Machine → Bool → ℕ → Bool
permits m write_access tr =
    let place =
      if m.sprs spr_sr % 2 == 1
      then if write_access then 9 else 8
      else if write_access
      then 7
      else 6 in
    tr / 2 ^ place % 2 == 1

either : (write a b : Bool) → (write && not a || not write && not b) ≡ not (if write then a else b)
either true true b = refl
either true false b = refl
either false a b = refl

pub is_denied-permits :
    (m : Machine) (write_access : Bool) (tr : ℕ)
    → is_denied m write_access tr ≡ not (permits m write_access tr)
unfolding is_denied
is_denied-permits m write_access tr =
    let whole : m.sprs spr_sr / 2 ^ 0 ≡ m.sprs spr_sr = omega arith in
    let mode = test-pow 0 (m.sprs spr_sr) ∙ ap (λ x. x % 2 == 1) whole in
    let supervisor = either write_access (test tr spr_dtlbtr_swe) (test tr spr_dtlbtr_sre) in
    let user = either write_access (test tr spr_dtlbtr_uwe) (test tr spr_dtlbtr_ure) in
    elim (Bool-cases (m.sprs spr_sr % 2 == 1)) [
      | inl high ↦ rw (mode, high) (supervisor ∙ ap not (chosen write_access 9 8))
      | inr low ↦ rw (mode, low) (user ∙ ap not (chosen write_access 7 6))
    ]
  where
    chosen :
        (b : Bool) (k j : ℕ)
        → (if b then test tr (2 ^ k) else test tr (2 ^ j))
          ≡ (tr / 2 ^ (if b then k else j) % 2 == 1)
    chosen true k j = test-pow k tr
    chosen false k j = test-pow j tr

-- A hit of the match register `r`, in the set whose first one is `base`: the statistics, the delay,
-- the cache inhibition by bit 1 of the translation register, and the LRU fields of the set.
pub record IsTouched (base r : ℕ) (m m' : Machine) : Type 0 where
  pub only : m' ≡ record m {
    loads_tlbhit = m.loads_tlbhit + 1;
    mem_cycles = m.mem_cycles + m.dmmu.hitdelay;
    data_ci = m.sprs (r + 128) / 2 % 2 * 2;
    sprs = m'.sprs;
  }
  pub ages :
      (n : ℕ)
      → m'.sprs n ≡ (
          if in_ways m.dmmu.nways base n
          then if n == r then bit_or (older (m.sprs n)) m.dmmu.lru_reload else older (m.sprs n)
          else m.sprs n)

-- What a translation leaves on such a hit.
pub record IsTranslated (base r virtaddr : ℕ) (write_access : Bool) (m : Machine)
    (out : Machine × ℕ) : Type 0 where
  pub address : out.1 ≡ m.sprs (r + 128) / 2 ^ 13 * 2 ^ 13 + virtaddr % 2 ^ 13
  pub touched : Machine
  pub is_touched : IsTouched base r m touched
  pub fault :
      IfOr
        (permits m write_access (m.sprs (r + 128)))
        (out.0 ≡ touched)
        (IsDelivered dpf virtaddr touched out.0)

-- What it leaves on a miss.
pub record IsMissed (virtaddr : ℕ) (m : Machine) (out : Machine × ℕ) : Type 0 where
  pub address : out.1 ≡ 0
  pub delivered : Machine
  pub is_delivered : IsDelivered dtlbmiss virtaddr (missed m) delivered
  pub counted : out.0 ≡ (
      if delivered.config.pcu_enabled then pcu_count_event spr_pcmr_dtlbm delivered else delivered)

module _ (virtaddr w : ℕ) (m : Machine) where
  abbrev old : Machine
  old = record m { loads_tlbhit = m.loads_tlbhit + 1 }

  aged : Machine
  aged = age_ways m.dmmu.nways (first_way m.dmmu virtaddr) old

  abbrev r : ℕ
  r = first_way m.dmmu virtaddr + w * 256

  finish : Machine → ℕ → Machine
  finish q c = record q {
    sprs = update q.sprs r (bit_or (q.sprs r) m.dmmu.lru_reload);
    data_ci = c;
    mem_cycles = q.mem_cycles + m.dmmu.hitdelay;
  }

  touch-only : touch virtaddr r m ≡ record m {
    loads_tlbhit = m.loads_tlbhit + 1;
    mem_cycles = m.mem_cycles + m.dmmu.hitdelay;
    data_ci = m.sprs (r + 128) / 2 % 2 * 2;
    sprs = (touch virtaddr r m).sprs;
  }
  unfolding touch aged finish
  touch-only =
      ap (finish aged)
        (ap (λ x. bit_and x 2) (touch-tr virtaddr w m) ∙ bit_and-pow 1 (m.sprs (r + 128)))
      ∙ ap (λ q. finish q (m.sprs (r + 128) / 2 % 2 * 2))
          (age_ways-only m.dmmu.nways (first_way m.dmmu virtaddr) old)

  touch-ages :
      ((n : ℕ) → m.sprs n < 2 ^ 32)
      → w < m.dmmu.nways
      → (n : ℕ)
      → (touch virtaddr r m).sprs n ≡ (
          if in_ways m.dmmu.nways (first_way m.dmmu virtaddr) n
          then if n == r then bit_or (older (m.sprs n)) m.dmmu.lru_reload else older (m.sprs n)
          else m.sprs n)
  unfolding touch aged
  touch-ages words lt n =
      let at = age_ways-at m.dmmu.nways (first_way m.dmmu virtaddr) n old in
      let small = age-older (m.sprs n) (words n) in
      elim (Bool-cases (n == r)) [
        | inl here ↦
            let same : n ≡ r = ground (arith, here) in
            let inside : in_ways m.dmmu.nways (first_way m.dmmu virtaddr) n ≡ true =
              rw same (in_ways-way m.dmmu.nways (first_way m.dmmu virtaddr) w lt) in
            rw (here, inside)
              (ap (λ x. bit_or x m.dmmu.lru_reload)
                (ap aged.sprs (sym same) ∙ at ∙ rw inside small))
        | inr away ↦ rw away (at ∙ rw small refl)
      ]

  pub touch-IsTouched :
      ((n : ℕ) → m.sprs n < 2 ^ 32)
      → w < m.dmmu.nways
      → IsTouched (first_way m.dmmu virtaddr) r m (touch virtaddr r m)
  touch-IsTouched words lt = record { only = touch-only; ages = touch-ages words lt }
