-- ===== src/Watch/Counters.antt =====
-- The two watchpoint counters of or1ksim/debug/debug-unit.c, and which of the ten watchpoints have
-- fired, from the matchpoints and the bits of DMR1, DMR2, DWCR0 and DWCR1.
use openrisc_tools.Prelude.{
  ℕ, ◌+◌, ◌-◌, ◌*◌, ◌/◌, ◌%◌, ◌^◌, ◌<◌, ◌≡◌, ◌∙◌, ap, refl, fun_ext, Bool, true, false, not, ◌&&◌,
  ◌||◌, ◌==◌, leb, ltb, if◌then◌else◌, if_true, if_false, inl, inr, Bool-cases, bit_and, bit_or,
  arith,
}
use openrisc_tools.Memory.Masks.{bit_and-low}
use openrisc_tools.Machine.Masks.{bit_and-shift, test-pow, single_bit-test}
use openrisc_tools.Machine.{
  Machine, spr_dmr1, spr_dmr2, spr_dwcr0, spr_dwcr1, spr_dwcr_count, spr_dwcr_match, spr_dmr2_wce0,
  spr_dmr2_wce1, clear,
}
use openrisc_tools.Watch.Match.{fires}
use openrisc_tools.Watch.Chain.{
  watchpoint, counted, count_watchpoints, counter_matched, use_counter_0, sign_extended,
}
use openrisc_tools.Watch.Fired.{fired, tally, watchpoint-fired, counted-tally, put-count, put-match}

-- The bit `k` of DMR2: 0 and 1 switch the counters on, 2 to 11 assign the watchpoints to counter 1.
abbrev pub dmr2_bit : Machine → ℕ → Bool
dmr2_bit m k = m.sprs spr_dmr2 / 2 ^ k % 2 == 1

abbrev pub counting : Machine → Bool
counting m = dmr2_bit m 0 || dmr2_bit m 1

-- Of the first eight watchpoints, those that have fired and are assigned to counter `k`.
abbrev pub assigned : Machine → (ℕ → ℕ) → ℕ → ℕ → Bool
assigned m mp k i =
    (if k == 0 then not (dmr2_bit m (2 + i)) else dmr2_bit m (2 + i))
    && fired (m.sprs spr_dmr1) (λ i. fires (mp i)) i

-- Counter `k` after the check.
abbrev pub new_count : Machine → (ℕ → ℕ) → ℕ → ℕ
new_count m mp k =
    (m.sprs (spr_dwcr0 + k) % 2 ^ 16 + (if dmr2_bit m k then tally (assigned m mp k) 8 else 0))
    % 2 ^ 16

-- Counter `k` has reached its match field, which a negative count has filled with ones.
abbrev pub reached : Machine → (ℕ → ℕ) → ℕ → Bool
reached m mp k = new_count m mp k == (
    if counting m && leb (2 ^ 15) (new_count m mp k)
    then 0xffff
    else m.sprs (spr_dwcr0 + k) / 2 ^ 16 % 2 ^ 16)

-- What matches by itself for each of the ten watchpoints: the matchpoints, then the counters.
abbrev pub own_match : Machine → (ℕ → ℕ) → ℕ → Bool
own_match m mp i = if ltb i 8 then fires (mp i) else reached m mp (i - 8)

abbrev pub has_fired : Machine → (ℕ → ℕ) → ℕ → Bool
has_fired m mp i = fired (m.sprs spr_dmr1) (own_match m mp) i

-- The check looks at the access: the unit is on, the processor not in reset, a watchpoint may break
-- or is assigned to counter 1, and a matchpoint matches.
abbrev pub looks : Machine → (ℕ → ℕ) → Bool
looks m mp =
    m.config.debug_enabled
    && (not m.in_reset
        && (not (m.sprs spr_dmr2 / 2 ^ 2 % 2 ^ 20 == 0) && ltb 0 (tally (λ i. fires (mp i)) 8)))

-- A count in its register.
abbrev put : ℕ → ℕ → ℕ
put d c = bit_or (clear d spr_dwcr_count) (sign_extended c)

match_field : (d : ℕ) → bit_and d spr_dwcr_match / 2 ^ 16 ≡ d / 2 ^ 16 % 2 ^ 16
match_field d =
    ap (λ x. x / 2 ^ 16)
      (bit_and-shift 16 d 0xffff ∙ ap (λ q. q * 2 ^ 16) (bit_and-low 16 (d / 2 ^ 16)))
    ∙ omega arith

module _ (m : Machine) (mp : ℕ → ℕ) where
  -- The counters by the code.
  unfoldable pub after : Machine
  after = count_watchpoints (m.sprs spr_dmr2) (watchpoint (m.sprs spr_dmr1) mp) m

  pub first-fired :
      watchpoint (m.sprs spr_dmr1) mp ≡ (λ i. fired (m.sprs spr_dmr1) (λ i. fires (mp i)) i)
  first-fired = fun_ext (watchpoint-fired (m.sprs spr_dmr1) mp)

  enabled-bit : (k : ℕ) → (bit_and (m.sprs spr_dmr2) (2 ^ k) == 2 ^ k) ≡ dmr2_bit m k
  enabled-bit k = single_bit-test k (m.sprs spr_dmr2) ∙ test-pow k (m.sprs spr_dmr2)

  count-0 :
      counted
        (dmr2_bit m 0)
        (use_counter_0 (m.sprs spr_dmr2))
        (watchpoint (m.sprs spr_dmr1) mp)
        (m.sprs spr_dwcr0 % 2 ^ 16)
        8
      ≡ new_count m mp 0
  count-0 =
      counted-tally (dmr2_bit m 0) (use_counter_0 (m.sprs spr_dmr2))
        (watchpoint (m.sprs spr_dmr1) mp) (m.sprs spr_dwcr0 % 2 ^ 16) 8 (omega arith)
      ∙ rw first-fired refl

  count-1 :
      counted
        (dmr2_bit m 1)
        (λ i. not (use_counter_0 (m.sprs spr_dmr2) i))
        (watchpoint (m.sprs spr_dmr1) mp)
        (m.sprs spr_dwcr1 % 2 ^ 16)
        8
      ≡ new_count m mp 1
  count-1 =
      counted-tally (dmr2_bit m 1) (λ i. not (use_counter_0 (m.sprs spr_dmr2) i))
        (watchpoint (m.sprs spr_dmr1) mp) (m.sprs spr_dwcr1 % 2 ^ 16) 8 (omega arith)
      ∙ rw first-fired (
          ap (λ f. (m.sprs spr_dwcr1 % 2 ^ 16 + (if dmr2_bit m 1 then tally f 8 else 0)) % 2 ^ 16)
            (fun_ext (λ i.
              ap (λ b. b && fired (m.sprs spr_dmr1) (λ i. fires (mp i)) i)
                (double (dmr2_bit m (2 + i))))))
    where
      double : (b : Bool) → not (not b) ≡ b
      double true = refl
      double false = refl

  after-0 :
      after.sprs spr_dwcr0
      ≡ (if counting m then put (m.sprs spr_dwcr0) (new_count m mp 0) else m.sprs spr_dwcr0)
  unfolding count_watchpoints after
  after-0 =
      let low0 : bit_and (m.sprs spr_dwcr0) spr_dwcr_count ≡ m.sprs spr_dwcr0 % 2 ^ 16 =
        bit_and-low 16 (m.sprs spr_dwcr0) in
      elim (Bool-cases (counting m)) [
        | inl on ↦ rw (on_0, on_1, low0, on) (ap (put (m.sprs spr_dwcr0)) count-0)
        | inr off ↦ rw (on_0, on_1, off) refl
      ]
    where
      on_0 : (bit_and (m.sprs spr_dmr2) spr_dmr2_wce0 == spr_dmr2_wce0) ≡ dmr2_bit m 0
      on_0 = enabled-bit 0

      on_1 : (bit_and (m.sprs spr_dmr2) spr_dmr2_wce1 == spr_dmr2_wce1) ≡ dmr2_bit m 1
      on_1 = enabled-bit 1

  after-1 :
      after.sprs spr_dwcr1
      ≡ (if counting m then put (m.sprs spr_dwcr1) (new_count m mp 1) else m.sprs spr_dwcr1)
  unfolding count_watchpoints after
  after-1 =
      let low1 : bit_and (m.sprs spr_dwcr1) spr_dwcr_count ≡ m.sprs spr_dwcr1 % 2 ^ 16 =
        bit_and-low 16 (m.sprs spr_dwcr1) in
      elim (Bool-cases (counting m)) [
        | inl on ↦ rw (on_0, on_1, low1, on) (ap (put (m.sprs spr_dwcr1)) count-1)
        | inr off ↦ rw (on_0, on_1, off) refl
      ]
    where
      on_0 : (bit_and (m.sprs spr_dmr2) spr_dmr2_wce0 == spr_dmr2_wce0) ≡ dmr2_bit m 0
      on_0 = enabled-bit 0

      on_1 : (bit_and (m.sprs spr_dmr2) spr_dmr2_wce1 == spr_dmr2_wce1) ≡ dmr2_bit m 1
      on_1 = enabled-bit 1

  -- A counter that is not put back, because neither is on, has not changed.
  still : (k : ℕ) → dmr2_bit m k ≡ false → new_count m mp k ≡ m.sprs (spr_dwcr0 + k) % 2 ^ 16
  still k off = rw off (omega arith)

  matched :
      (k v : ℕ)
      → (counting m ≡ false → dmr2_bit m k ≡ false)
      → v ≡ (
          if counting m
          then put (m.sprs (spr_dwcr0 + k)) (new_count m mp k)
          else m.sprs (spr_dwcr0 + k))
      → (bit_and v spr_dwcr_count == bit_and v spr_dwcr_match / 2 ^ 16) ≡ reached m mp k
  matched k v idle e =
      let d = m.sprs (spr_dwcr0 + k) in
      let c = new_count m mp k in
      let small : c < 2 ^ 16 = omega arith in
      elim (Bool-cases (counting m)) [
        | inl on ↦ rw (e ∙ if_true _ _ on, put-count d c small, put-match d c small, on) refl
        | inr off ↦
            let count : bit_and d spr_dwcr_count ≡ d % 2 ^ 16 = bit_and-low 16 d in
            rw (e ∙ if_false _ _ off, count, match_field d, still k (idle off), off) refl
      ]

  pub matched-0 : counter_matched spr_dwcr0 after ≡ reached m mp 0
  unfolding counter_matched
  matched-0 = matched 0 (after.sprs spr_dwcr0) (λ off. ground (arith, off)) after-0

  pub matched-1 : counter_matched spr_dwcr1 after ≡ reached m mp 1
  unfolding counter_matched
  matched-1 = matched 1 (after.sprs spr_dwcr1) (λ off. ground (arith, off)) after-1
