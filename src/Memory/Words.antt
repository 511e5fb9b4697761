-- ===== src/Memory/Words.antt =====
-- The memory of or1ksim/peripheral/memory.c as its users see it: big-endian bytes.
use openrisc_tools.Prelude.{
  ℕ, ◌+◌, ◌-◌, ◌*◌, ◌/◌, ◌%◌, ◌^◌, ◌≤◌, ◌<◌, ◌≡◌, ◌∙◌, bit_xor, arith, ◌==◌, true, ◌⊎◌, inl, inr,
  Bool-cases, if◌then◌else◌, leb, ltb, ◌&&◌,
}
use openrisc_tools.Prelude.Bits.{bit_or_step, bit_or-zero}
use openrisc_tools.Prelude.Bits.{bit_xor_step, bit_xor-zero, differ-one}
use openrisc_tools.Memory.Ram.{
  byte_place, simmem_read32, simmem_read16, simmem_read8, simmem_write32, simmem_write16,
  simmem_write8,
}
use openrisc_tools.Memory.Masks.{bit_and-low, bit_and-high}

pub byte_place_lem : (addr : ℕ) → addr < 2 ^ 32 → byte_place addr ≡ addr / 4 * 4 + (3 - addr % 4)
unfolding byte_place
byte_place_lem addr h =
    let high = bit_and-high 2 30 addr h in
    let low = bit_and-low 2 addr in
    let one = bit_or_step (addr / 4 * 4) (3 - addr % 4) in
    let two = bit_or_step (addr / 4 * 4 / 2) ((3 - addr % 4) / 2) in
    let top : addr / 4 * 4 / 2 / 2 ≡ addr / 4 = omega arith in
    let none_left : (3 - addr % 4) / 2 / 2 ≡ 0 = omega arith in
    rw (high, low) (one ∙ rw (two, top, none_left, bit_or-zero (addr / 4)) (omega arith))

pub half_place : (addr : ℕ) → addr % 2 ≡ 0 → bit_xor addr 2 ≡ addr / 4 * 4 + (2 - addr % 4)
half_place addr h =
    let one : bit_xor addr 2 ≡ bit_xor (addr / 2) 1 * 2 =
      bit_xor_step addr 2 ∙ rw h (omega arith) in
    let two = bit_xor_step (addr / 2) 1 in
    let half : addr / 2 / 2 ≡ addr / 4 = omega arith in
    rw (one, two, bit_xor-zero (addr / 2 / 2), half, differ-one (addr / 2 % 2) (omega arith))
      (omega (arith, h))

-- The abstract memory: a value of `width` bytes is stored from `addr` on, the high byte first.
abbrev pub store_be : ℕ → ℕ → ℕ → (ℕ → ℕ) → ℕ → ℕ
store_be width addr value bytes x =
    if leb addr x && ltb x (addr + width)
    then value / 2 ^ (8 * (addr + width - 1 - x)) % 2 ^ 8
    else bytes x

-- The place of a byte in or outside of the part of a word.
cases4 :
    (addr x : ℕ)
    → (leb addr x && ltb x (addr + 4)) ≡ true
    → (x ≡ addr) ⊎ ((x ≡ addr + 1) ⊎ ((x ≡ addr + 2) ⊎ (x ≡ addr + 3)))
cases4 addr x h = elim (Bool-cases (x == addr)) [
  | inl a ↦ inl (ground (arith, a))
  | inr a ↦ elim (Bool-cases (x == addr + 1)) [
    | inl b ↦ inr (inl (ground (arith, b)))
    | inr b ↦ elim (Bool-cases (x == addr + 2)) [
      | inl c ↦ inr (inr (inl (ground (arith, c))))
      | inr c ↦ inr (inr (inr (ground (arith, h, a, b, c))))
    ]
  ]
]

module _ (addr value x : ℕ) (ram : ℕ → ℕ) (k : x < 2 ^ 32) where
  -- A byte of a word, by its distance from the word's address.
  word_byte : (i : ℕ) → addr % 4 ≡ 0 → x ≡ addr + i → i ≤ 3 → byte_place x ≡ addr + (3 - i)
  word_byte i aligned e h = omega (arith, byte_place_lem x k, aligned, e, h)

  -- A 32-bit write at a multiple of 4 stores four bytes, the high one first.
  pub simmem_write32_lem :
      addr % 4 ≡ 0
      → simmem_read8 x (simmem_write32 addr value ram)
        ≡ store_be 4 addr value (λ y. simmem_read8 y ram) x
  unfolding simmem_read8 simmem_write32
  simmem_write32_lem aligned = elim (Bool-cases (leb addr x && ltb x (addr + 4))) [
    | inl inside ↦ elim (cases4 addr x inside) [
      | inl e ↦
          let q : addr + 4 - 1 - x ≡ 3 = omega (arith, e) in
          rw (inside, word_byte 0 aligned (omega (arith, e)) (omega arith), q) (ground arith)
      | inr (inl e) ↦
          let q : addr + 4 - 1 - x ≡ 2 = omega (arith, e) in
          rw (inside, word_byte 1 aligned e (omega arith), q) (ground arith)
      | inr (inr (inl e)) ↦
          let q : addr + 4 - 1 - x ≡ 1 = omega (arith, e) in
          rw (inside, word_byte 2 aligned e (omega arith), q) (ground arith)
      | inr (inr (inr e)) ↦
          let q : addr + 4 - 1 - x ≡ 0 = omega (arith, e) in
          rw (inside, word_byte 3 aligned e (omega arith), q) (ground arith)
    ]
    | inr outside ↦ rw outside (ground (arith, byte_place_lem x k, aligned, outside))
  ]

  -- A 16-bit write at a multiple of 2 stores two bytes, the high one first.
  pub simmem_write16_lem :
      addr % 2 ≡ 0
      → simmem_read8 x (simmem_write16 addr value ram)
        ≡ store_be 2 addr value (λ y. simmem_read8 y ram) x
  unfolding simmem_read8 simmem_write16
  simmem_write16_lem aligned = elim (Bool-cases (leb addr x && ltb x (addr + 2))) [
    | inl inside ↦ elim (Bool-cases (x == addr)) [
      | inl e ↦
          let q : addr + 2 - 1 - x ≡ 1 = ground (arith, e) in
          rw (inside, q) (ground (arith, byte_place_lem x k, half_place addr aligned, aligned, e))
      | inr e ↦
          let q : addr + 2 - 1 - x ≡ 0 = ground (arith, e, inside) in
          rw (inside, q)
            (ground (arith, byte_place_lem x k, half_place addr aligned, aligned, e, inside))
    ]
    | inr outside ↦
        rw outside (ground (arith, byte_place_lem x k, half_place addr aligned, aligned, outside))
  ]

  pub simmem_write8_lem :
      addr < 2 ^ 32
      → simmem_read8 x (simmem_write8 addr value ram)
        ≡ store_be 1 addr value (λ y. simmem_read8 y ram) x
  unfolding simmem_read8 simmem_write8
  simmem_write8_lem h = elim (Bool-cases (x == addr)) [
    | inl e ↦ let q : addr + 1 - 1 - x ≡ 0 = ground (arith, e) in rw q (ground (arith, e))
    | inr e ↦ ground (arith, byte_place_lem x k, byte_place_lem addr h, e)
  ]

-- The wider reads put the bytes together, the high one first.
pub simmem_read16_lem :
    (addr : ℕ) (ram : ℕ → ℕ)
    → addr < 2 ^ 32
    → addr % 2 ≡ 0
    → simmem_read16 addr ram ≡ 2 ^ 8 * simmem_read8 addr ram + simmem_read8 (addr + 1) ram
unfolding simmem_read16 simmem_read8
simmem_read16_lem addr ram h aligned =
    let high : byte_place addr ≡ bit_xor addr 2 + 1 =
      omega (arith, byte_place_lem addr h, half_place addr aligned, aligned) in
    let low : byte_place (addr + 1) ≡ bit_xor addr 2 = omega (
      arith,
      byte_place_lem (addr + 1) (omega (arith, h, aligned)),
      half_place addr aligned,
      aligned,
    ) in
    rw (high, low) (omega arith)

pub simmem_read32_lem :
    (addr : ℕ) (ram : ℕ → ℕ)
    → addr < 2 ^ 32
    → addr % 4 ≡ 0
    → simmem_read32 addr ram ≡ 2 ^ 16 * simmem_read16 addr ram + simmem_read16 (addr + 2) ram
unfolding simmem_read32 simmem_read16
simmem_read32_lem addr ram h aligned =
    let high : bit_xor addr 2 ≡ addr + 2 =
      omega (arith, half_place addr (omega (arith, aligned)), aligned) in
    let low : bit_xor (addr + 2) 2 ≡ addr =
      omega (arith, half_place (addr + 2) (omega (arith, aligned)), aligned) in
    let last : addr + 2 + 1 ≡ addr + 3 = omega arith in rw (high, low, last) (omega arith)

digits2 : (v : ℕ) → v % 2 ^ 8 + 2 ^ 8 * (v / 2 ^ 8 % 2 ^ 8) ≡ v % 2 ^ 16
digits2 v = omega arith

-- What a write stores is what a read at the same address gives, cut to the width of the access.
pub simmem_read-simmem_write :
    (addr value : ℕ) (ram : ℕ → ℕ)
    → (simmem_read32 addr (simmem_write32 addr value ram) ≡ value % 2 ^ 32)
      × (simmem_read16 addr (simmem_write16 addr value ram) ≡ value % 2 ^ 16)
      × (simmem_read8 addr (simmem_write8 addr value ram) ≡ value % 2 ^ 8)
unfolding simmem_read32 simmem_read16 simmem_read8 simmem_write32 simmem_write16 simmem_write8
simmem_read-simmem_write addr value ram = (ground arith, ground arith, ground arith)
