-- ===== src/Rsp/Hex.antt =====
-- Hexadecimal digits of or1ksim/debug/rsp-server.c. A character is its code.
use openrisc_tools.Prelude.{
  ℕ, zero, suc, ◌+◌, ◌-◌, ◌*◌, ◌/◌, ◌%◌, ◌^◌, ◌&&◌, leb, ltb, if◌then◌else◌, List, [], ◌∷◌, bit_or,
}
use openrisc_tools.Prelude.Int.{ℤ, pos, negsuc, to_u32}

-- `hexchars[d]`.
abbrev pub hexchars : ℕ → ℕ
hexchars d = if ltb d 10 then 0x30 + d else 0x61 + d - 10

unfoldable pub hex : ℕ → ℤ
hex c =
    if leb 0x61 c && leb c 0x66
    then pos (c - 0x61 + 10)
    else if leb 0x30 c && leb c 0x39
    then pos (c - 0x30)
    else if leb 0x41 c && leb c 0x46
    then pos (c - 0x41 + 10)
    else negsuc 0

-- The loop of `reg2hex` from digit `n` on, with `rounds` digits to go, on a little-endian host.
unfoldable pub reg2hex_from : ℕ → ℕ → ℕ → List ℕ
reg2hex_from zero n val = []
reg2hex_from (suc rounds) n val =
    hexchars (val / 2 ^ (28 - n * 4) % 16) ∷ reg2hex_from rounds (n + 1) val

unfoldable pub reg2hex : ℕ → List ℕ
unfolding reg2hex_from
reg2hex val = reg2hex_from 8 0 val

-- An `int` of 32 bits as an `unsigned long`, which has 64.
abbrev pub widened : ℕ → ℕ
widened x = if leb (2 ^ 31) x then 2 ^ 64 - 2 ^ 32 + x else x

-- The loop of `hex2reg`. The buffer has eight digits; a shorter one is not read on.
unfoldable pub hex2reg_from : ℕ → ℕ → List ℕ → ℕ → ℕ
unfolding hex
hex2reg_from zero n buf val = val
hex2reg_from (suc rounds) n [] val = val
hex2reg_from (suc rounds) n (c ∷ buf) val =
    hex2reg_from rounds (n + 1) buf
      (bit_or val (widened (to_u32 (hex c) * 2 ^ (28 - n * 4) % 2 ^ 32)))

unfoldable pub hex2reg : List ℕ → ℕ
unfolding hex2reg_from
hex2reg buf = hex2reg_from 8 0 buf 0
