-- ===== src/Dcache/Filled.antt =====
-- The refill of a line: in which order its words come, and that all of them do.
use openrisc_tools.Prelude.{
  ℕ, suc, ◌+◌, ◌-◌, ◌*◌, ◌/◌, ◌%◌, ◌^◌, ◌<◌, ◌≡◌, arith, ◌==◌, true, false, inl, inr, ◌⊎◌, ltb,
  Bool, ◌&&◌,
}
use openrisc_tools.Machine.{DcConfig}
use openrisc_tools.Memory.Masks.{bit_and-low, bit_and-high}
use openrisc_tools.Dcache.Lines.{refill_addr, slot_of, dc_rounds}

-- The block sizes that the configuration accepts.
abbrev pub IsBlock : DcConfig → Type 0
IsBlock c = (c.blocksize ≡ 16) ⊎ (c.blocksize ≡ 32)

-- The first byte of the block of an address, and the place of the address in it, in words.
abbrev pub block_of : DcConfig → ℕ → ℕ
block_of c addr = addr / c.blocksize * c.blocksize

abbrev pub first_of : DcConfig → ℕ → ℕ
first_of c addr = addr / 4 % dc_rounds c

-- Round `r` of the refill reads the word that stands `r` behind the one wanted, around the block,
-- and puts it where it belongs.
pub refill_place :
    (c : DcConfig) (addr r : ℕ)
    → IsBlock c
    → addr < 2 ^ 32
    → (refill_addr c addr (4 * r) ≡ block_of c addr + 4 * ((first_of c addr + r) % dc_rounds c))
      × (slot_of c ((addr + 4 * r) % 2 ^ 32) ≡ (first_of c addr + r) % dc_rounds c)
refill_place c addr r (inl e) h =
    let low = bit_and-high 4 28 addr h in
    let words = bit_and-high 2 30 addr h in
    rw e (
      rw (low, words, bit_and-low 4 ((addr / 4 * 4 + 4 * r) % 2 ^ 32)) (omega arith),
      rw (bit_and-low 4 ((addr + 4 * r) % 2 ^ 32)) (omega arith),
    )
refill_place c addr r (inr e) h =
    let low = bit_and-high 5 27 addr h in
    let words = bit_and-high 2 30 addr h in
    rw e (
      rw (low, words, bit_and-low 5 ((addr / 4 * 4 + 4 * r) % 2 ^ 32)) (omega arith),
      rw (bit_and-low 5 ((addr + 4 * r) % 2 ^ 32)) (omega arith),
    )

-- The word `j` comes before round `r`.
abbrev pub comes : DcConfig → ℕ → ℕ → ℕ → Bool
comes c addr r j = ltb j (dc_rounds c) && ltb ((j + dc_rounds c - first_of c addr) % dc_rounds c) r

pub comes_next :
    (c : DcConfig) (addr r j : ℕ)
    → IsBlock c
    → r < dc_rounds c
    → comes c addr (suc r) j ≡ true
    → (j == (first_of c addr + r) % dc_rounds c) ≡ false
    → comes c addr r j ≡ true
comes_next c addr r j (inl e) h now other = ground (arith, rw e at h, rw e at now, rw e at other, e)
comes_next c addr r j (inr e) h now other = ground (arith, rw e at h, rw e at now, rw e at other, e)

pub comes_all :
    (c : DcConfig) (addr j : ℕ) → IsBlock c → j < dc_rounds c → comes c addr (dc_rounds c) j ≡ true
comes_all c addr j (inl e) h = ground (arith, rw e at h, e)
comes_all c addr j (inr e) h = ground (arith, rw e at h, e)
