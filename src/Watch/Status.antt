-- ===== src/Watch/Status.antt =====
-- The status bits of DMR2 and the breakpoint, or1ksim/debug/debug-unit.c.
use openrisc_tools.Prelude.{
  ℕ, zero, suc, ◌+◌, ◌-◌, ◌/◌, ◌%◌, ◌^◌, ◌≤◌, ◌≡◌, ◌∙◌, refl, ap, Bool, true, false, ◌&&◌, ◌||◌,
  ◌==◌, leb, ltb, max, if◌then◌else◌, arith, inl, inr, Bool-cases,
}
use openrisc_tools.Prelude.Bits.{bit_or-at}
use openrisc_tools.Watch.Match.{flag}
use openrisc_tools.Watch.Check.{break_loop}

-- The watchpoint may break, by WGB of DMR2, and it has fired.
abbrev pub breaks : ℕ → (ℕ → Bool) → ℕ → Bool
breaks dmr2 wp i = dmr2 / 2 ^ (12 + i) % 2 == 1 && wp i

abbrev pub any_break : ℕ → (ℕ → Bool) → ℕ → Bool
any_break dmr2 wp zero = false
any_break dmr2 wp (suc n) = any_break dmr2 wp n || breaks dmr2 wp n

-- The bit `j` of DMR2 is the status of one of the first `n` watchpoints, which breaks.
abbrev pub is_reported : ℕ → (ℕ → Bool) → ℕ → ℕ → Bool
is_reported dmr2 wp n j = leb 22 j && ltb j (22 + n) && breaks dmr2 wp (j - 22)

pub or-false : (b : Bool) → b ≡ (b || false)
or-false true = refl
or-false false = refl

pub or-true : (b : Bool) → true ≡ (b || true)
or-true true = refl
or-true false = refl

flag-and : (b c : Bool) → flag (b && c) ≡ (if c then flag b else 0)
flag-and b true = ground arith
flag-and b false = ground arith

reported_step :
    (dmr2 : ℕ) (wp : ℕ → Bool) (n j : ℕ)
    → is_reported dmr2 wp (suc n) j ≡ (is_reported dmr2 wp n j || (j == 22 + n) && breaks dmr2 wp n)
reported_step dmr2 wp n j = elim (Bool-cases (j == 22 + n)) [
  | inl here ↦
      let place : j - 22 ≡ n = ground (arith, here) in
      let first : leb 22 j ≡ true = ground (arith, here) in
      let old : ltb j (22 + n) ≡ false = ground (arith, here) in
      let new : ltb j (22 + suc n) ≡ true = ground (arith, here) in
      rw (first, old, new, here, place) refl
  | inr away ↦
      let same : ltb j (22 + suc n) ≡ ltb j (22 + n) = ground (arith, away) in
      rw (away, same) (or-false (is_reported dmr2 wp n j))
]

flag-or : (a b : Bool) → flag (a || b) ≡ max (flag a) (flag b)
flag-or true b = ground arith
flag-or false b = ground arith

-- After the loop over the first `n` watchpoints, the bits of DMR2.
pub break_bits :
    (wp : ℕ → Bool) (dmr2 n j : ℕ)
    → n ≤ 10
    → (break_loop wp dmr2 n).0 / 2 ^ j % 2 ≡ max (dmr2 / 2 ^ j % 2) (flag (is_reported dmr2 wp n j))
unfolding break_loop
break_bits wp dmr2 zero j h = ground arith
break_bits wp dmr2 (suc n) j h =
    let word = (break_loop wp dmr2 n).0 in
    let mine : word / 2 ^ (12 + n) % 2 ≡ dmr2 / 2 ^ (12 + n) % 2 =
      break_bits wp dmr2 n (12 + n) (omega (arith, h)) ∙ ground (arith, h) in
    let rest = break_bits wp dmr2 n j (omega (arith, h)) in
    let step =
      ap flag (reported_step dmr2 wp n j)
      ∙ flag-or (is_reported dmr2 wp n j) ((j == 22 + n) && breaks dmr2 wp n) in
    let both = flag-and (j == 22 + n) (breaks dmr2 wp n) in
    elim (Bool-cases (breaks dmr2 wp n)) [
      | inl now ↦
          let shown : flag ((j == 22 + n) && breaks dmr2 wp n) ≡ flag (j == 22 + n) =
            both ∙ ap (λ c. if c then flag (j == 22 + n) else 0) now in
          rw (mine, now) (bit_or-at word (22 + n) j ∙ omega (arith, rest, step, shown))
      | inr never ↦
          let hidden : flag ((j == 22 + n) && breaks dmr2 wp n) ≡ 0 =
            both ∙ ap (λ c. if c then flag (j == 22 + n) else 0) never in
          rw (mine, never) (rest ∙ omega (arith, step, hidden))
    ]

-- Whether one of them has broken.
pub break_found :
    (wp : ℕ → Bool) (dmr2 n : ℕ) → n ≤ 10 → (break_loop wp dmr2 n).1 ≡ any_break dmr2 wp n
unfolding break_loop
break_found wp dmr2 zero h = refl
break_found wp dmr2 (suc n) h =
    let mine : (break_loop wp dmr2 n).0 / 2 ^ (12 + n) % 2 ≡ dmr2 / 2 ^ (12 + n) % 2 =
      break_bits wp dmr2 n (12 + n) (omega (arith, h)) ∙ ground (arith, h) in
    let rest = break_found wp dmr2 n (omega (arith, h)) in
    elim (Bool-cases (breaks dmr2 wp n)) [
      | inl now ↦ rw (mine, now) (or-true (any_break dmr2 wp n))
      | inr never ↦ rw (mine, never) (rest ∙ or-false (any_break dmr2 wp n))
    ]
