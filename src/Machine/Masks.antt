-- ===== src/Machine/Masks.antt =====
-- What `|= m` and `&= ~m` do to a word, for a mask that need not be a numeral.
use native.Mathlib.Nat.{pow-suc, one-le-pow, mul-add}
use openrisc_tools.Prelude.{
  ℕ, zero, suc, ◌+◌, ap, ◌*◌, ◌%◌, ◌==◌, ◌⊎◌, inl, inr, Bool-cases, ◌-◌, ◌/◌, ◌^◌, ◌<◌, ◌≡◌, ◌∙◌,
  bit_and, bit_or, arith,
}
use openrisc_tools.Prelude.Bits.{
  bit_and_step, bit_and_assoc, bit_and-zero, bit_and-bit_or, bit_and_self, bit_or_absorb,
  bit_or_comm, bit_and_comm, mask_laws,
}
use openrisc_tools.Memory.Masks.{pow-pos, half-div}
use openrisc_tools.Machine.Access.{bit_not, clear, test}

complement-bit_and : (k m : ℕ) → m < 2 ^ k → bit_and (2 ^ k - 1 - m) m ≡ 0
complement-bit_and zero m h =
    let nothing : m ≡ 0 = omega arith in rw nothing (bit_and-zero (2 ^ 0 - 1 - 0))
complement-bit_and (suc k) m h =
    let half : (2 ^ suc k - 1 - m) / 2 ≡ 2 ^ k - 1 - m / 2 = omega (arith, pow-suc 2 k) in
    let rest = complement-bit_and k (m / 2) (omega (arith, pow-suc 2 k)) in
    bit_and_step (2 ^ suc k - 1 - m) m ∙ rw (half, rest) (omega (arith, pow-suc 2 k))

pub bit_not-bit_and : (m : ℕ) → m < 2 ^ 32 → bit_and (bit_not m) m ≡ 0
bit_not-bit_and m h = complement-bit_and 32 m h

-- A cleared field reads 0.
pub clear-bit_and : (x m : ℕ) → m < 2 ^ 32 → bit_and (clear x m) m ≡ 0
clear-bit_and x m h = rw (bit_and_assoc, bit_not-bit_and m h) (bit_and-zero x)

-- A field that was set reads as all ones.
pub bit_or-bit_and : (x m : ℕ) → bit_and (bit_or x m) m ≡ m
bit_or-bit_and x m =
    rw (bit_and-bit_or, bit_and_self, bit_or_comm (bit_and x m) m, bit_and_comm x m)
      (bit_or_absorb m x)

-- Clearing one field leaves a disjoint one.
pub clear-bit_and_ne : (x m n : ℕ) → bit_and (bit_not m) n ≡ n → bit_and (clear x m) n ≡ bit_and x n
clear-bit_and_ne x m n h = rw (bit_and_assoc, h)

-- Setting one field leaves a disjoint one.
pub bit_or-bit_and_ne : (x m n : ℕ) → bit_and m n ≡ 0 → bit_and (bit_or x m) n ≡ bit_and x n
bit_or-bit_and_ne x m n h = simp (bit_and-bit_or, h, mask_laws)

complement-bit_and_ne :
    (k m n : ℕ) → m < 2 ^ k → n < 2 ^ k → bit_and m n ≡ 0 → bit_and (2 ^ k - 1 - m) n ≡ n
complement-bit_and_ne zero m n h l d =
    let nothing : n ≡ 0 = omega arith in rw nothing (bit_and-zero (2 ^ 0 - 1 - m))
complement-bit_and_ne (suc k) m n h l d =
    let half : (2 ^ suc k - 1 - m) / 2 ≡ 2 ^ k - 1 - m / 2 = omega (arith, pow-suc 2 k) in
    let rest =
      complement-bit_and_ne k (m / 2) (n / 2) (omega (arith, pow-suc 2 k))
        (omega (arith, pow-suc 2 k)) (omega (arith, bit_and_step m n)) in
    bit_and_step (2 ^ suc k - 1 - m) n
    ∙ rw (half, rest) (omega (arith, pow-suc 2 k, bit_and_step m n))

-- Clearing a field leaves every field that is disjoint from it.
pub clear-bit_and_disjoint :
    (x m n : ℕ) → m < 2 ^ 32 → n < 2 ^ 32 → bit_and m n ≡ 0 → bit_and (clear x m) n ≡ bit_and x n
clear-bit_and_disjoint x m n h l d = clear-bit_and_ne x m n (complement-bit_and_ne 32 m n h l d)

-- Outside a cleared field a word is as it was.
pub clear-clear : (x y m : ℕ) → bit_and (clear x m) (clear y m) ≡ bit_and x (clear y m)
clear-clear x y m = rw (
  bit_and_comm y (bit_not m),
  bit_and_assoc,
  ← bit_and_assoc (bit_not m) (bit_not m) y,
  bit_and_self,
)

-- A mask of one bit reads 0 or itself.
pub single_bit : (k x : ℕ) → (bit_and x (2 ^ k) ≡ 0) ⊎ (bit_and x (2 ^ k) ≡ 2 ^ k)
single_bit zero x = elim (Bool-cases (x % 2 == 0)) [
  | inl even ↦ inl (ground (arith, bit_and_step x 1, bit_and-zero (x / 2)))
  | inr odd ↦ inr (ground (arith, bit_and_step x 1, bit_and-zero (x / 2)))
]
single_bit (suc k) x =
    let half : 2 ^ suc k / 2 ≡ 2 ^ k = omega (arith, pow-suc 2 k) in
    let even : 2 ^ suc k % 2 ≡ 0 = omega (arith, pow-suc 2 k) in
    let step : bit_and x (2 ^ suc k) ≡ bit_and (x / 2) (2 ^ k) * 2 =
      bit_and_step x (2 ^ suc k) ∙ rw (half, even) (omega arith) in
    elim (single_bit k (x / 2)) [
      | inl off ↦ inl (omega (arith, step, off))
      | inr on ↦ inr (omega (arith, step, on, pow-suc 2 k))
    ]

-- So the two ways of testing it agree.
pub single_bit-test : (k x : ℕ) → (bit_and x (2 ^ k) == 2 ^ k) ≡ test x (2 ^ k)
single_bit-test k x = elim (single_bit k x) [
  | inl off ↦ rw off (ground (arith, one-le-pow k 2 (omega arith)))
  | inr on ↦ rw on (ground (arith, one-le-pow k 2 (omega arith)))
]

-- One bit of a number.
pub bit_and-pow : (k x : ℕ) → bit_and x (2 ^ k) ≡ x / 2 ^ k % 2 * 2 ^ k
bit_and-pow zero x = bit_and_step x 1 ∙ rw (bit_and-zero (x / 2)) (omega arith)
bit_and-pow (suc k) x =
    let two : 2 ^ suc k ≡ 2 ^ k + 2 ^ k = omega (arith, pow-suc 2 k) in
    let half : 2 ^ suc k / 2 ≡ 2 ^ k = omega (arith, pow-suc 2 k) in
    let even : 2 ^ suc k % 2 ≡ 0 = omega (arith, pow-suc 2 k) in
    bit_and_step x (2 ^ suc k)
    ∙ rw (half, even, bit_and-pow k (x / 2), half-div k x)
        (omega
          (arith, ap (λ t. x / 2 / 2 ^ k % 2 * t) two, mul-add (x / 2 / 2 ^ k % 2) (2 ^ k) (2 ^ k)))

pub test-pow : (k x : ℕ) → test x (2 ^ k) ≡ (x / 2 ^ k % 2 == 1)
test-pow k x = elim (Bool-cases (x / 2 ^ k % 2 == 1)) [
  | inl on ↦
      let one : x / 2 ^ k % 2 ≡ 1 = ground (arith, on) in
      rw (bit_and-pow k x, one) (ground (arith, pow-pos k))
  | inr off ↦
      let nought : x / 2 ^ k % 2 ≡ 0 = ground (arith, off) in
      rw (bit_and-pow k x, nought) (ground arith)
]

-- The bits under a mask that begins at bit `k`.
pub bit_and-shift : (k x y : ℕ) → bit_and x (y * 2 ^ k) ≡ bit_and (x / 2 ^ k) y * 2 ^ k
bit_and-shift zero x y =
    let mask : y * 2 ^ 0 ≡ y = omega arith in
    let all : x / 2 ^ 0 ≡ x = omega arith in rw (mask, all) (omega arith)
bit_and-shift (suc k) x y =
    let two : y * 2 ^ suc k ≡ y * 2 ^ k + y * 2 ^ k =
      ap (λ t. y * t) (two_powers k) ∙ mul-add y (2 ^ k) (2 ^ k) in
    let half : y * 2 ^ suc k / 2 ≡ y * 2 ^ k = omega (arith, two) in
    let even : y * 2 ^ suc k % 2 ≡ 0 = omega (arith, two) in
    let q = bit_and (x / 2 / 2 ^ k) y in
    bit_and_step x (y * 2 ^ suc k)
    ∙ rw (half, even, bit_and-shift k (x / 2) y, half-div k x)
        (omega (arith, ap (λ t. q * t) (two_powers k), mul-add q (2 ^ k) (2 ^ k)))
  where
    two_powers : (k : ℕ) → 2 ^ suc k ≡ 2 ^ k + 2 ^ k
    two_powers k = omega (arith, pow-suc 2 k)
