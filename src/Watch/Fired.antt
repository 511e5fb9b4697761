-- ===== src/Watch/Fired.antt =====
-- Which watchpoints of the debug unit have fired, from the bits of DMR1, DMR2 and the two counter
-- registers, or1ksim/debug/debug-unit.c.
use openrisc_tools.Prelude.{
  ℕ, zero, suc, ◌+◌, ◌-◌, ◌*◌, ◌/◌, ◌%◌, ◌^◌, ◌≤◌, ◌<◌, ◌≡◌, ◌∙◌, ap, refl, Bool, true, false, ◌&&◌,
  ◌||◌, ◌==◌, leb, ltb, if◌then◌else◌, ◌⊎◌, inl, inr, Bool-cases, bit_and, bit_or, arith,
}
use native.Mathlib.Nat.{pow-suc}
use openrisc_tools.Prelude.Bits.{bit_and-bit_or, bit_or-zero, zero-bit_or, bit_and-bit_or_absorb}
use openrisc_tools.Memory.Masks.{pow-pos, bit_and-low}
use openrisc_tools.Machine.Masks.{bit_and-shift, clear-bit_and, clear-bit_and_ne}
use openrisc_tools.Machine.{clear, spr_dwcr_count, spr_dwcr_match}
use openrisc_tools.Watch.Match.{fires, flag}
use openrisc_tools.Watch.Chain.{chained, watchpoint, counted, sign_extended}

-- A field of DMR1: 0 the watchpoint's own match, 1 that and the watchpoint before, 2 that or the
-- watchpoint before, 3 never.
unfoldable pub joined : ℕ → Bool → Bool → Bool
joined field own before =
    if field == 0
    then own
    else if field == 1
    then own && before
    else if field == 2
    then own || before
    else false

-- Each watchpoint has two bits of DMR1; the first has none before it, and fires by itself or never.
unfoldable pub fired : ℕ → (ℕ → Bool) → ℕ → Bool
unfolding joined
fired dmr1 own zero = dmr1 % 4 == 0 && own 0
fired dmr1 own (suc i) = joined (dmr1 / 4 ^ suc i % 4) (own (suc i)) (fired dmr1 own i)

unfoldable pub tally : (ℕ → Bool) → ℕ → ℕ
tally p zero = 0
tally p (suc n) = tally p n + flag (p n)

four_powers : (i : ℕ) → 4 ^ i ≡ 2 ^ (2 * i)
four_powers zero = refl
four_powers (suc i) =
    let place : 2 * suc i ≡ suc (suc (2 * i)) = omega arith in
    rw place (omega (arith, four_powers i, pow-suc 4 i, pow-suc 2 (2 * i), pow-suc 2 (suc (2 * i))))

field_bits : (i x : ℕ) → bit_and x (3 * 4 ^ i) ≡ x / 4 ^ i % 4 * 4 ^ i
field_bits i x =
    rw (four_powers i)
      (bit_and-shift (2 * i) x 3 ∙ ap (λ q. q * 2 ^ (2 * i)) (bit_and-low 2 (x / 2 ^ (2 * i))))

digits : (q : ℕ) → q < 4 → (q ≡ 0) ⊎ (q ≡ 1) ⊎ (q ≡ 2) ⊎ (q ≡ 3)
digits q h = omega (arith, h)

pub chained-joined :
    (dmr1 i : ℕ) (own before : Bool)
    → chained dmr1 i own before ≡ joined (dmr1 / 4 ^ i % 4) own before
unfolding chained joined
chained-joined dmr1 i own before =
    let unit : 0 < 4 ^ i = rw (four_powers i) (pow-pos (2 * i)) in
    elim (digits (dmr1 / 4 ^ i % 4) (omega arith)) [
      | inl a ↦ rw (field_bits i dmr1, a) (ground (arith, unit))
      | inr (inl a) ↦ rw (field_bits i dmr1, a) (ground (arith, unit))
      | inr (inr (inl a)) ↦ rw (field_bits i dmr1, a) (ground (arith, unit))
      | inr (inr (inr a)) ↦ rw (field_bits i dmr1, a) (ground (arith, unit))
    ]

pub watchpoint-fired :
    (dmr1 : ℕ) (mp : ℕ → ℕ) (i : ℕ) → watchpoint dmr1 mp i ≡ fired dmr1 (λ i. fires (mp i)) i
unfolding watchpoint fired
watchpoint-fired dmr1 mp zero = rw (bit_and-low 2 dmr1) refl
watchpoint-fired dmr1 mp (suc i) =
    ap (chained dmr1 (suc i) (fires (mp (suc i)))) (watchpoint-fired dmr1 mp i)
    ∙ chained-joined dmr1 (suc i) (fires (mp (suc i))) (fired dmr1 (λ i. fires (mp i)) i)

-- A watchpoint depends on its own match and those before it.
pub fired-same :
    (dmr1 : ℕ) (own own' : ℕ → Bool) (i : ℕ)
    → ((j : ℕ) → j ≤ i → own j ≡ own' j)
    → fired dmr1 own i ≡ fired dmr1 own' i
unfolding fired
fired-same dmr1 own own' zero h = ap (λ b. dmr1 % 4 == 0 && b) (h 0 (omega arith))
fired-same dmr1 own own' (suc i) h =
    ap (λ b. joined (dmr1 / 4 ^ suc i % 4) b (fired dmr1 own i)) (h (suc i) (omega arith))
    ∙ ap (joined (dmr1 / 4 ^ suc i % 4) (own' (suc i)))
        (fired-same dmr1 own own' i (λ j l. h j (omega (arith, l))))

pub counted-tally :
    (enabled : Bool) (mine wp : ℕ → Bool) (c n : ℕ)
    → c < 2 ^ 16
    → counted enabled mine wp c n
      ≡ (c + (if enabled then tally (λ i. mine i && wp i) n else 0)) % 2 ^ 16
unfolding counted tally
counted-tally enabled mine wp c zero h = ground (arith, h)
counted-tally enabled mine wp c (suc n) h =
    let rest = counted-tally enabled mine wp c n h in
    elim (Bool-cases enabled) [
      | inl on ↦ elim (Bool-cases (mine n && wp n)) [
        | inl one ↦
            let both : (mine n && enabled && wp n) ≡ true = ground (arith, on, one) in
            rw (both, one, rest, on) (omega arith)
        | inr none_here ↦
            let both : (mine n && enabled && wp n) ≡ false = ground (arith, on, none_here) in
            rw (both, none_here, rest, on) (omega arith)
      ]
      | inr off ↦
          let both : (mine n && enabled && wp n) ≡ false = ground (arith, off) in
          rw (both, rest, off) refl
    ]

-- A count that is put back, beside the match field: a negative one fills that field.
pub put-count :
    (d c : ℕ)
    → c < 2 ^ 16
    → bit_and (bit_or (clear d spr_dwcr_count) (sign_extended c)) spr_dwcr_count ≡ c
put-count d c h =
    rw
      (
        bit_and-bit_or,
        clear-bit_and d spr_dwcr_count (omega arith),
        zero-bit_or,
        bit_and-low 16 (sign_extended c),
      )
      (ground (arith, h))

pub put-match :
    (d c : ℕ)
    → c < 2 ^ 16
    → bit_and (bit_or (clear d spr_dwcr_count) (sign_extended c)) spr_dwcr_match / 2 ^ 16
      ≡ (if leb (2 ^ 15) c then 0xffff else d / 2 ^ 16 % 2 ^ 16)
put-match d c h =
    let high : bit_and (clear d 0xffff) spr_dwcr_match ≡ bit_and d spr_dwcr_match =
      clear-bit_and_ne d 0xffff spr_dwcr_match refl in
    let field : bit_and d spr_dwcr_match / 2 ^ 16 ≡ d / 2 ^ 16 % 2 ^ 16 =
      ap (λ x. x / 2 ^ 16)
        (bit_and-shift 16 d 0xffff ∙ ap (λ q. q * 2 ^ 16) (bit_and-low 16 (d / 2 ^ 16)))
      ∙ omega arith in
    let count = bit_and-shift 16 (sign_extended c) 0xffff in
    let low = bit_and-low 16 (sign_extended c / 2 ^ 16) in
    elim (Bool-cases (leb (2 ^ 15) c)) [
      | inl negative ↦
          let sign : ltb c (2 ^ 15) ≡ false = ground (arith, negative) in
          let upper : (2 ^ 32 - 2 ^ 16 + c) / 2 ^ 16 % 2 ^ 16 ≡ 0xffff = omega (arith, h) in
          let filled : bit_and (sign_extended c) spr_dwcr_match ≡ spr_dwcr_match =
            count ∙ ap (λ q. q * 2 ^ 16) low ∙ rw (sign, upper) refl in
          rw (bit_and-bit_or, high, filled, bit_and-bit_or_absorb d spr_dwcr_match, negative) refl
      | inr positive ↦
          let sign : ltb c (2 ^ 15) ≡ true = ground (arith, positive) in
          let upper : c / 2 ^ 16 % 2 ^ 16 ≡ 0 = omega (arith, h) in
          let empty : bit_and (sign_extended c) spr_dwcr_match ≡ 0 =
            count ∙ ap (λ q. q * 2 ^ 16) low ∙ rw (sign, upper) refl in
          rw (bit_and-bit_or, high, empty, bit_or-zero, positive) field
    ]
