-- ===== src/Sbuf/Defs.antt =====
-- The ring of pending stores of or1ksim/cpu/or32/execute.c. The cycle counts are integers.
use openrisc_tools.Prelude.{ℕ, zero, suc, ◌+◌, ◌-◌, ◌%◌, ◌==◌, leb, if◌then◌else◌}
use openrisc_tools.Prelude.Int.{ℤ, ◌+ℤ◌, ◌-ℤ◌, leb_ℤ}
use openrisc_tools.Prelude.Update.{update}

-- `MAX_SBUF_LEN`.
abbrev pub max_sbuf_len : ℕ
max_sbuf_len = 256

-- The statics `sbuf_head` to `sbuf_prev_cycles`, and `runtime.sim.mem_cycles`.
pub record Sbuf : Type 0 where
  pub head : ℕ
  pub tail : ℕ
  pub count : ℕ
  pub buf : ℕ → ℤ
  pub prev_cycles : ℤ
  pub wait_cyc : ℤ
  pub total_cyc : ℤ
  pub mem_cycles : ℤ

abbrev pub take_out : Sbuf → Sbuf
take_out s = record s { tail = (s.tail + 1) % max_sbuf_len; count = s.count - 1 }

-- The stores that have been committed meanwhile, of `left` ones.
unfoldable pub take_committed : ℕ → ℤ → Sbuf → ℤ × Sbuf
take_committed zero delta s = (delta, s)
take_committed (suc left) delta s =
    let rest = take_committed left (delta -ℤ s.buf s.tail) (take_out s) in
    if leb_ℤ (s.buf s.tail) delta then rest else (delta, s)

-- And the part of the next one that has passed.
unfoldable pub catch_up : ℤ → Sbuf → Sbuf
unfolding take_committed
catch_up cycles s =
    let s1 = record s { prev_cycles = cycles } in
    let (delta, s2) = take_committed s1.count (cycles -ℤ s.prev_cycles) s1 in
    if s2.count == 0
    then s2
    else record s2 { buf = update s2.buf s2.tail (s2.buf s2.tail -ℤ delta) }

abbrev pub wait_one : Sbuf → Sbuf
wait_one s = take_out (record s {
  wait_cyc = s.wait_cyc +ℤ s.buf s.tail;
  mem_cycles = s.mem_cycles +ℤ s.buf s.tail;
  prev_cycles = s.prev_cycles +ℤ s.buf s.tail;
})

abbrev pub put_newest : ℤ → Sbuf → Sbuf
put_newest cyc s = record s {
  buf = update s.buf s.head cyc;
  head = (s.head + 1) % max_sbuf_len;
  count = s.count + 1;
}

-- `sbuf_len` is `config.cpu.sbuf_len`, and `cycles` is `runtime.sim.cycles`.
unfoldable pub sbuf_store : ℕ → ℤ → ℤ → Sbuf → Sbuf
unfolding catch_up
sbuf_store sbuf_len cycles cyc s =
    let s1 = catch_up cycles (record s { total_cyc = s.total_cyc +ℤ cyc }) in
    let s2 = if leb sbuf_len s1.count then wait_one s1 else s1 in put_newest cyc s2

unfoldable pub wait_all : ℕ → Sbuf → Sbuf
wait_all zero s = s
wait_all (suc left) s = wait_all left (wait_one s)

unfoldable pub sbuf_load : ℤ → Sbuf → Sbuf
unfolding catch_up wait_all
sbuf_load cycles s = let s1 = catch_up cycles s in wait_all s1.count s1
