-- ===== src/Memory/Device.antt =====
-- The functions that or1ksim/peripheral/memory.c registers, and its reset. A device number stands
-- for one memory block, with the delays of its configuration; `random` is the C library's.
use openrisc_tools.Prelude.{ℕ, ◌%◌, ◌^◌, Bool, true, false, ◌==◌, ltb, if◌then◌else◌}
use openrisc_tools.Prelude.Update.{update}
use openrisc_tools.Machine.{Machine}
use openrisc_tools.Memory.Access.{Width, Bus}
use openrisc_tools.Memory.Ram.{
  simmem_read32, simmem_read16, simmem_read8, simmem_write32, simmem_write16, simmem_write8,
}

unfoldable pub simmem_read : Width → ℕ → (ℕ → ℕ) → ℕ
simmem_read Width.word = simmem_read32
simmem_read Width.half = simmem_read16
simmem_read Width.byte = simmem_read8

unfoldable pub simmem_write : Width → ℕ → ℕ → (ℕ → ℕ) → ℕ → ℕ
simmem_write Width.word = simmem_write32
simmem_write Width.half = simmem_write16
simmem_write Width.byte = simmem_write8

unfoldable pub set_ram : ℕ → (ℕ → ℕ) → Machine → Machine
set_ram d ram m = record m { mem = record m.mem { ram = update m.mem.ram d ram } }

unfoldable pub has_prog : Width → Bool
has_prog Width.half = false
has_prog _ = true

-- `memory_sec_end`: without a delay for reads a block reads as 0, and without one for writes it
-- ignores them, but for those of a loader.
unfoldable pub ram_bus : (ℕ → ℕ) → (ℕ → ℕ) → Bus
ram_bus delayr delayw = record {
  reads = λ d w. true;
  writes = λ d w. true;
  progs = λ d w. has_prog w;
  read = λ d w addr m. (m, if ltb 0 (delayr d) then simmem_read w addr (m.mem.ram d) else 0);
  write = λ d w addr value m.
      if ltb 0 (delayw d) then set_ram d (simmem_write w addr value (m.mem.ram d)) m else m;
  prog = λ d w addr value m. set_ram d (simmem_write w addr value (m.mem.ram d)) m;
}

-- How a block is filled: `MT_UNKNOWN`, `MT_PATTERN`, `MT_RANDOM` and `MT_EXITNOPS`.
pub data Filling : Type 0 where
  unknown exitnops random_bytes : Filling
  pattern_of : ℕ → Filling

-- The byte that stands at a place after the reset, from the bytes that `random` gives in turn.
unfoldable pub reset_byte : Filling → (ℕ → ℕ) → ℕ → ℕ → ℕ
reset_byte Filling.unknown random i old = old
reset_byte Filling.exitnops random i old =
    if i % 4 == 3 then 0x15 else if i % 4 == 0 then 0x01 else 0
reset_byte Filling.random_bytes random i old = random i % 2 ^ 8
reset_byte (Filling.pattern_of pattern) random i old = pattern % 2 ^ 8

unfoldable pub mem_reset : Filling → (ℕ → ℕ) → ℕ → ℕ → Machine → Machine
unfolding reset_byte set_ram
mem_reset filling random size d m =
    set_ram d
      (λ i. if ltb i size then reset_byte filling random i (m.mem.ram d i) else m.mem.ram d i) m
