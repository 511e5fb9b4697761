-- ===== src/Insn/Overflow.antt =====
-- The tests for carry and overflow of the sums and differences of or1ksim/cpu/or32/insnset.c.
use openrisc_tools.Prelude.{
  ℕ, ◌+◌, ◌-◌, ◌%◌, ◌^◌, ◌<◌, ◌≡◌, Bool, true, false, not, ◌&&◌, ◌||◌, leb, ltb, if◌then◌else◌,
  arith,
}
use openrisc_tools.Prelude.Int.{ℤ, pos, negsuc, ◌+ℤ◌, ◌-ℤ◌, leb_ℤ}
use openrisc_tools.Insn.Flags.{signed}
use openrisc_tools.Insn.Arith.{add_overflows, sub_overflows}

-- The integer is in the range of `int32_t`.
abbrev pub fits : ℤ → Bool
fits z = leb_ℤ (negsuc (2 ^ 31 - 1)) z && leb_ℤ z (pos (2 ^ 31 - 1))

pub add-carry :
    (a b : ℕ) → a < 2 ^ 32 → b < 2 ^ 32 → ltb ((b + a) % 2 ^ 32) b ≡ leb (2 ^ 32) (a + b)
add-carry a b h k = ground arith

pub add_overflows-fits :
    (a b : ℕ)
    → a < 2 ^ 32
    → b < 2 ^ 32
    → add_overflows ((b + a) % 2 ^ 32) b a ≡ not (fits (signed a +ℤ signed b))
unfolding ◌+ℤ◌
add_overflows-fits a b h k = ground arith

-- The carry flag as a number.
abbrev pub carried : Bool → ℕ
carried c = if c then 1 else 0

pub addc_value :
    (a b : ℕ) (c : Bool)
    → (if c then ((b + a) % 2 ^ 32 + 1) % 2 ^ 32 else (b + a) % 2 ^ 32)
      ≡ (b + a + carried c) % 2 ^ 32
addc_value a b true = omega arith
addc_value a b false = omega arith

pub addc-carry :
    (a b : ℕ) (c : Bool)
    → a < 2 ^ 32
    → b < 2 ^ 32
    → (c && leb ((b + a + carried c) % 2 ^ 32) b || ltb ((b + a + carried c) % 2 ^ 32) b)
      ≡ leb (2 ^ 32) (a + b + carried c)
addc-carry a b true h k = ground arith
addc-carry a b false h k = ground arith

pub addc_overflows-fits :
    (a b : ℕ) (c : Bool)
    → a < 2 ^ 32
    → b < 2 ^ 32
    → add_overflows ((b + a + carried c) % 2 ^ 32) b a
      ≡ not (fits (signed a +ℤ signed b +ℤ pos (carried c)))
unfolding ◌+ℤ◌
addc_overflows-fits a b true h k = ground arith
addc_overflows-fits a b false h k = ground arith

pub sub_overflows-fits :
    (a b : ℕ)
    → a < 2 ^ 32
    → b < 2 ^ 32
    → sub_overflows ((a + 2 ^ 32 - b) % 2 ^ 32) a b ≡ not (fits (signed a -ℤ signed b))
unfolding ◌-ℤ◌
sub_overflows-fits a b h k = ground arith
