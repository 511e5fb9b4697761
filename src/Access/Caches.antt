-- ===== src/Access/Caches.antt =====
-- The operations of the caches that a write of a special purpose register calls. The width of the
-- prefetch is 4.
use openrisc_tools.Memory.{Width, Bus}
use openrisc_tools.Dcache.{dc_simulate_read, dc_inv}
use openrisc_tools.Icache.{ic_simulate_fetch, ic_inv}
use openrisc_tools.Sprs.{Caches}

unfoldable pub caches : Bus → Caches
caches bus = record {
  dc_simulate_read =
      λ dataaddr virt_addr width m. (dc_simulate_read bus dataaddr virt_addr Width.word m).0;
  dc_inv = dc_inv;
  ic_simulate_fetch = λ fetchaddr virt_addr m. (ic_simulate_fetch bus fetchaddr virt_addr m).0;
  ic_inv = ic_inv;
}
