-- ===== src/Memory/Ram.antt =====
-- The accesses of or1ksim/peripheral/memory.c to its bytes, as a little-endian host does them: a
-- word stands in the host's order, and a part of a word is found by turning its offset around.
use openrisc_tools.Prelude.{ℕ, ◌+◌, ◌-◌, ◌*◌, ◌/◌, ◌%◌, ◌^◌, bit_and, bit_or, bit_xor}
use openrisc_tools.Prelude.Update.{update}
use openrisc_tools.Machine.{bit_not}

-- A `uint32_t` or a `uint16_t` of the host at an offset.
abbrev pub host_read32 : ℕ → (ℕ → ℕ) → ℕ
host_read32 addr ram =
    ram addr + 2 ^ 8 * ram (addr + 1) + 2 ^ 16 * ram (addr + 2) + 2 ^ 24 * ram (addr + 3)

abbrev pub host_read16 : ℕ → (ℕ → ℕ) → ℕ
host_read16 addr ram = ram addr + 2 ^ 8 * ram (addr + 1)

abbrev pub host_write16 : ℕ → ℕ → (ℕ → ℕ) → ℕ → ℕ
host_write16 addr value ram =
    update (update ram addr (value % 2 ^ 8)) (addr + 1) (value / 2 ^ 8 % 2 ^ 8)

abbrev pub host_write32 : ℕ → ℕ → (ℕ → ℕ) → ℕ → ℕ
host_write32 addr value ram = host_write16 (addr + 2) (value / 2 ^ 16) (host_write16 addr value ram)

-- `(addr & ~3) | (3 - (addr & 3))`.
unfoldable pub byte_place : ℕ → ℕ
byte_place addr = bit_or (bit_and addr (bit_not 3)) (3 - bit_and addr 3)

unfoldable pub simmem_read32 : ℕ → (ℕ → ℕ) → ℕ
simmem_read32 addr ram = host_read32 addr ram

unfoldable pub simmem_read16 : ℕ → (ℕ → ℕ) → ℕ
simmem_read16 addr ram = host_read16 (bit_xor addr 2) ram

unfoldable pub simmem_read8 : ℕ → (ℕ → ℕ) → ℕ
simmem_read8 addr ram = ram (byte_place addr)

unfoldable pub simmem_write32 : ℕ → ℕ → (ℕ → ℕ) → ℕ → ℕ
simmem_write32 addr value ram = host_write32 addr value ram

unfoldable pub simmem_write16 : ℕ → ℕ → (ℕ → ℕ) → ℕ → ℕ
simmem_write16 addr value ram = host_write16 (bit_xor addr 2) value ram

unfoldable pub simmem_write8 : ℕ → ℕ → (ℕ → ℕ) → ℕ → ℕ
simmem_write8 addr value ram = update ram (byte_place addr) (value % 2 ^ 8)
