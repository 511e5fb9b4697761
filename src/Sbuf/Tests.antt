-- ===== src/Sbuf/Tests.antt =====
-- The store buffer at the end of its ring.
use openrisc_tools.Prelude.{◌+◌, ◌-◌, ◌%◌, ◌≡◌, refl, arith}
use openrisc_tools.Prelude.Int.{pos, ◌+ℤ◌, ◌-ℤ◌}
use openrisc_tools.Sbuf.Defs.{max_sbuf_len, Sbuf, sbuf_store, sbuf_load}
use openrisc_tools.Sbuf.Ring.{IsRing, sbuf_store-IsRing}

-- Two stores of five cycles each.
abbrev wrapped : Sbuf
wrapped = record {
  head = 1;
  tail = 255;
  count = 2;
  buf = λ i. pos 5;
  prev_cycles = pos 100;
  wait_cyc = pos 0;
  total_cyc = pos 10;
  mem_cycles = pos 0;
}

sbuf_store-IsRing_example :
    let out = sbuf_store 2 (pos 103) (pos 7) wrapped in
    IsRing 2 out
    × (out.buf ((out.tail + out.count - 1) % max_sbuf_len) ≡ pos 7)
    × IsRing 0 (sbuf_load (pos 103) wrapped)
sbuf_store-IsRing_example =
    sbuf_store-IsRing 1 (pos 103) (pos 7) wrapped
      record { first = omega arith; last = refl; few = omega arith }

-- The oldest store has two cycles to go.
waited : (sbuf_store 2 (pos 103) (pos 7) wrapped).wait_cyc ≡ pos 2
unfolding sbuf_store ◌-ℤ◌ ◌+ℤ◌
waited = refl
