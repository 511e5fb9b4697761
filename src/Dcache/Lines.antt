-- ===== src/Dcache/Lines.antt =====
-- The words of a line: their places, the parts of them, and the refill.
use openrisc_tools.Prelude.{
  ℕ, zero, suc, ◌+◌, ◌-◌, ◌*◌, ◌/◌, ◌%◌, ◌^◌, Bool, true, false, none, some, if◌then◌else◌, bit_and,
  bit_or,
}
use openrisc_tools.Prelude.Update.{update}
use openrisc_tools.Machine.{Machine, DcConfig, test, bit_not}
use openrisc_tools.Memory.{Width, Bus, evalsim_mem, current}
use openrisc_tools.Dcache.Ways.{set_ways, dc_drop_way}

-- `(dataaddr & (config.dc.blocksize - 1)) >> 2`.
abbrev pub slot_of : DcConfig → ℕ → ℕ
slot_of c dataaddr = bit_and dataaddr (c.blocksize - 1) / 4

-- The shifts of a half word and of a byte in its word.
abbrev pub shift_of : Width → ℕ → ℕ
shift_of Width.word dataaddr = 0
shift_of Width.half dataaddr = if test dataaddr 2 then 0 else 16
shift_of Width.byte dataaddr = 8 * (3 - bit_and dataaddr 3)

unfoldable pub take_part : Width → ℕ → ℕ → ℕ
take_part Width.word dataaddr tmp = tmp
take_part Width.half dataaddr tmp = bit_and (tmp / 2 ^ shift_of Width.half dataaddr) 0xffff
take_part Width.byte dataaddr tmp = bit_and (tmp / 2 ^ shift_of Width.byte dataaddr) 0xff

unfoldable pub put_part : Width → ℕ → ℕ → ℕ → ℕ
put_part Width.word dataaddr value tmp = value
put_part Width.half dataaddr value tmp =
    bit_or (bit_and tmp (0xffff * 2 ^ (16 - shift_of Width.half dataaddr)))
      (bit_and value 0xffff * 2 ^ shift_of Width.half dataaddr)
put_part Width.byte dataaddr value tmp =
    bit_or (bit_and tmp (bit_not (0xff * 2 ^ shift_of Width.byte dataaddr)))
      (bit_and value 0xff * 2 ^ shift_of Width.byte dataaddr)

abbrev pub set_line : ℕ → ℕ → ℕ → ℕ → Machine → Machine
set_line set way slot tmp m =
    let ways = m.dc.sets set in
    set_ways set (update ways way (record (ways way) { line = update (ways way).line slot tmp })) m

-- The address of the word that a round of the refill reads.
abbrev pub refill_addr : DcConfig → ℕ → ℕ → ℕ
refill_addr c dataaddr i =
    bit_and dataaddr (bit_not (c.blocksize - 1))
    + bit_and ((bit_and dataaddr (bit_not 3) + i) % 2 ^ 32) (c.blocksize - 1)

-- The loop of the refill, with `left` dc_rounds to go, and whether it gets to its end: an address
-- outside of the memory drops the way.
unfoldable pub refill_line : Bus → ℕ → ℕ → ℕ → ℕ → ℕ → Machine → Machine × Bool
refill_line bus dataaddr set way i zero m = (m, true)
refill_line bus dataaddr set way i (suc left) m =
    let (m1, tmp) = evalsim_mem bus Width.word (refill_addr m.config.dc dataaddr i) 0 m in
    let m2 = set_line set way (slot_of m.config.dc ((dataaddr + i) % 2 ^ 32)) tmp m1 in
    let rest = refill_line bus dataaddr set way (i + 4) left m2 in
    elim (current m2.mem) [
      | none ↦ (set_ways set (dc_drop_way way (m2.dc.sets set)) m2, false)
      | some a ↦ rest
    ]

-- The dc_rounds of `for (i = 0; i < (config.dc.blocksize); i += 4)`.
abbrev pub dc_rounds : DcConfig → ℕ
dc_rounds c = (c.blocksize + 3) / 4
