-- ===== src/Memory/Access.antt =====
-- The physical accesses of the simulated processor. A device is its number, and its functions are
-- an argument: the record `Bus`.
use openrisc_tools.Prelude.{
  ℕ, ◌+◌, ◌%◌, ◌^◌, Bool, Option, none, some, ◌>>=◌, get_elem?, if◌then◌else◌, bit_and,
}
use openrisc_tools.Machine.{Machine, Memory, Area}
use openrisc_tools.Except.{except_handle, buserr}
use openrisc_tools.Memory.Areas.{verify_memoryarea}

pub data Width : Type 0 where
  byte half word : Width

unfoldable pub bits : Width → ℕ
bits Width.byte = 8
bits Width.half = 16
bits Width.word = 32

-- The conversion of an argument to the type of its width.
unfoldable pub cut : Width → ℕ → ℕ
unfolding bits
cut w value = value % 2 ^ bits w

-- `struct mem_ops` of or1ksim/cpu/common/abstract.h, for each device: which functions are there,
-- and the functions. `prog` is for the functions that a loader writes with.
pub record Bus : Type 0 where
  pub reads : ℕ → Width → Bool
  pub writes : ℕ → Width → Bool
  pub progs : ℕ → Width → Bool
  pub read : ℕ → Width → ℕ → Machine → Machine × ℕ
  pub write : ℕ → Width → ℕ → ℕ → Machine → Machine
  pub prog : ℕ → Width → ℕ → ℕ → Machine → Machine

-- `cur_area`.
unfoldable pub current : Memory → Option Area
current mem = mem.cur_area >>= get_elem? mem.dev_list

unfoldable pub lookup : ℕ → Machine → Machine
lookup addr m = record m { mem = verify_memoryarea addr m.mem }

-- `mem->ops.readfunc32 (...)` and its kin: without a function, `eval_mem_32_inv` and its kin.
unfoldable pub readfunc : Bus → Width → Area → ℕ → Machine → Machine × ℕ
readfunc bus w a memaddr m =
    if bus.reads a.device w
    then bus.read a.device w (bit_and memaddr a.size_mask) m
    else (except_handle buserr m.mem.cur_vadd m, 0)

unfoldable pub writefunc : Bus → Width → Area → ℕ → ℕ → Machine → Machine
writefunc bus w a memaddr value m =
    if bus.writes a.device w
    then bus.write a.device w (bit_and memaddr a.size_mask) value m
    else except_handle buserr m.mem.cur_vadd m

-- `evalsim_mem32`, `evalsim_mem16` and `evalsim_mem8`.
unfoldable pub evalsim_mem : Bus → Width → ℕ → ℕ → Machine → Machine × ℕ
unfolding lookup current
evalsim_mem bus w memaddr vaddr m =
    let m1 = lookup memaddr m in
    elim (current m1.mem) [
      | none ↦ (except_handle buserr vaddr m1, 0)
      | some a ↦ readfunc bus w a memaddr (record m1 { mem_cycles = m1.mem_cycles + a.delayr })
    ]

-- `setsim_mem32`, `setsim_mem16` and `setsim_mem8`.
unfoldable pub setsim_mem : Bus → Width → ℕ → ℕ → ℕ → Machine → Machine
unfolding lookup current
setsim_mem bus w memaddr vaddr value m =
    let m1 = lookup memaddr m in
    elim (current m1.mem) [
      | none ↦ except_handle buserr vaddr m1
      | some a ↦ writefunc bus w a memaddr (cut w value) (record m1 {
        mem = record m1.mem { cur_vadd = vaddr };
        mem_cycles = m1.mem_cycles + a.delayw;
      })
    ]
