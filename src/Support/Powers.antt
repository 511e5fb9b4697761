-- ===== src/Support/Powers.antt =====
-- The helpers of or1ksim/support/misc.c on powers of two.
use native.Mathlib.Nat.{pow-suc, one-le-pow}
use openrisc_tools.Prelude.{
  ℕ, zero, suc, ◌+◌, ◌/◌, ◌%◌, ◌^◌, ◌≤◌, ◌<◌, ◌≡◌, refl, ap, ◌∙◌, true, false, ◌==◌, arith,
  Bool-cases, inl, inr, ◌≢◌, ◌↔◌, ==_ne,
}
use openrisc_tools.Support.Defs.{log2_loop, log2_int, odd_part, is_power2}

pub pow-pos : (k : ℕ) → 0 < 2 ^ k
pow-pos k = one-le-pow k 2 (omega arith)

lt-pow : (k : ℕ) → k < 2 ^ k
lt-pow zero = omega arith
lt-pow (suc k) = omega (arith, pow-suc 2 k, lt-pow k)

log2_loop-pow : (k fuel c : ℕ) → k < fuel → log2_loop fuel (2 ^ k) c ≡ c + k
unfolding log2_loop
log2_loop-pow k zero c h = absurd (omega arith)
log2_loop-pow zero (suc fuel) c h = omega arith
log2_loop-pow (suc k) (suc fuel) c h =
    let more : (2 ^ suc k == 1) ≡ false =
      ==_ne (2 ^ suc k) 1 (omega (arith, pow-suc 2 k, pow-pos k)) in
    let half : 2 ^ suc k / 2 ≡ 2 ^ k = omega (arith, pow-suc 2 k) in
    rw (more, half) (omega (arith, log2_loop-pow k fuel (c + 1) (omega arith)))

pub log2_int-pow : (k : ℕ) → log2_int (2 ^ k) ≡ k
unfolding log2_int
log2_int-pow k =
    rw (==_ne (2 ^ k) 0 (omega (arith, pow-pos k)))
      (omega (arith, log2_loop-pow k (2 ^ k) 0 (lt-pow k)))

-- A number that passes the loop with result 1 is a power of two.
odd_part-pow : (fuel x : ℕ) → x ≤ fuel → x ≢ 0 → odd_part fuel x ≡ 1 → (k : ℕ) × (x ≡ 2 ^ k)
unfolding odd_part
odd_part-pow zero x h ne e = absurd (ne (omega arith))
odd_part-pow (suc fuel) x h ne e = elim (Bool-cases (x % 2 == 0)) [
  | inl even ↦
      let halved = odd_part-pow fuel (x / 2) (omega arith) (ground arith) (rw even at e) in
      (suc halved.0, ground (arith, halved.1, pow-suc 2 halved.0))
  | inr odd ↦ (0, rw odd at e)
]

pub is_power2-pow : (x : ℕ) → is_power2 x ≡ true → (k : ℕ) × (x ≡ 2 ^ k)
unfolding is_power2
is_power2-pow x e = odd_part-pow x x (omega arith) (ground arith) (ground arith)

odd_part-odd : (k fuel : ℕ) → k ≤ fuel → odd_part fuel (2 ^ k) ≡ 1
unfolding odd_part
odd_part-odd zero zero h = refl
odd_part-odd zero (suc fuel) h = refl
odd_part-odd (suc k) zero h = absurd (omega arith)
odd_part-odd (suc k) (suc fuel) h =
    let even : (2 ^ suc k % 2 == 0) ≡ true = ground (arith, pow-suc 2 k) in
    let half : 2 ^ suc k / 2 ≡ 2 ^ k = omega (arith, pow-suc 2 k) in
    rw (even, half) (odd_part-odd k fuel (omega arith))

pow-is_power2 : (k : ℕ) → is_power2 (2 ^ k) ≡ true
unfolding is_power2
pow-is_power2 k =
    rw
      (==_ne (2 ^ k) 0 (omega (arith, pow-pos k)), odd_part-odd k (2 ^ k) (omega (arith, lt-pow k)))

-- `is_power2` accepts exactly the powers of two, and of such a number `log2_int` is the exponent.
pub is_power2_iff : (x : ℕ) → (is_power2 x ≡ true) ↔ ((k : ℕ) × (x ≡ 2 ^ k) × (log2_int x ≡ k))
is_power2_iff x = (
  λ e. let p = is_power2-pow x e in (p.0, p.1, ap log2_int p.1 ∙ log2_int-pow p.0),
  λ p. rw p.1 (pow-is_power2 p.0),
)
