-- ===== src/Lib.antt =====
-- A model of Or1ksim, the OpenRISC 1000 architectural simulator, in or1ksim/.
--
-- The simulator keeps the processor in globals: the registers of `cpu_state`, the pc of the next
-- instruction, the scheduler, and the state of each unit. The units work on them by calls, and
-- schedule work for later as jobs of the scheduler. The model gathers the globals in one record,
-- `Machine`, and every operation is a function from a `Machine`, so that what a unit leaves to
-- another is seen in the state.
--
-- The parts:
--   Prelude    the names shared by all files, tests on numbers, integers, laws of masks, and
--              functions changed at a point
--   Sched      or1ksim/support/sched.c: `sched_add`, `sched_find_remove`, `sched_next_insn`,
--              `sched_guard`, `sched_reset`, `sched_init`, and `take_job`, which is the part of
--              a round of `do_scheduler` before the job is called (`Execute` has the rest).
--              `Deadlines` has the abstract view: the list of jobs by the cycle they are due.
--              `Room` is what the clients use
--   Machine    or1ksim/cpu/common/execute.h, or1ksim/sim-config.h, or1ksim/cpu/or1k/spr-defs.h
--   Except     or1ksim/cpu/or1k/except.c: `except_handle`, and the filter in front of it in
--              or1ksim/debug/debug-unit.c and or1ksim/debug/rsp-server.c
--   Pic        or1ksim/pic/pic.c: interrupt lines, and the job that raises the interrupt
--   Tick       or1ksim/tick/tick.c: the timer, its registers and its three jobs
--   Support    or1ksim/support/misc.c: powers of two
--   Pcu        or1ksim/pcu/pcu.c: the performance counters
--   Pm         or1ksim/pm/pm.c: power management
--   Tlb        what or1ksim/mmu/dmmu.c and or1ksim/mmu/immu.c share: sets, ways and ages
--   Dmmu       or1ksim/mmu/dmmu.c: lookup, translation, peek, and the configuration section
--   Immu       or1ksim/mmu/immu.c: the same of the instruction side
--   Sprs       or1ksim/cpu/or1k/sprs.c: `mtspr` and `mfspr`, which join the units
--   Watch      or1ksim/debug/debug-unit.c: `check_debug_unit`, the matchpoints, the watchpoints
--              and their counters
--   Memory     or1ksim/cpu/common/abstract.c: the registration and the lookup of memory areas, and
--              the physical accesses `evalsim_mem32` to `setsim_mem8`, by their width. The functions
--              of a device are an argument, the record `Bus`; `ram_bus` is the one of
--              or1ksim/peripheral/memory.c. `Flat` has the abstract view: bytes at addresses
--   Dcache     or1ksim/cache/dcache-model.c: `dc_simulate_read`, `dc_simulate_write`, `dc_inv` and
--              the configuration
--   Icache     or1ksim/cache/icache-model.c: `ic_simulate_fetch`, `ic_inv` and the configuration
--   Access     or1ksim/cpu/common/abstract.c: the accesses of the processor, `eval_mem32` to
--              `set_mem8`, those of the simulator, `eval_direct32` to `set_program8`, and `eval_insn`
--   Predict    or1ksim/bpb/branch-predict.c: the branch prediction buffer and the target cache
--   Sbuf       or1ksim/cpu/or32/execute.c: the store buffer, `sbuf_store` and `sbuf_load`
--   Insn       or1ksim/cpu/or32/insnset.c: the integer instructions, with their flags and
--              exceptions, the delay slot, and the calls of the store buffer and of the branch
--              predictor
--   Execute    or1ksim/cpu/or32/execute.c and or1ksim/support/sched.c: `cpu_reset`, `cpu_clock`,
--              a round of `exec_main`, and `do_scheduler`, which calls the jobs. The decoder,
--              and the jobs of the devices, are arguments
--   Rsp        or1ksim/debug/rsp-server.c: hexadecimal digits, packets, and the requests for
--              registers and breakpoints
--   Sample     concrete states for the tests
--
-- How the source is read. A register is a natural number, and an operation that can leave 32 bits
-- is followed by `% 2 ^ 32`; the times of the scheduler, `int32_t` in the source, are integers. A
-- list linked by pointers is a List; the access through a null pointer is the result `none`. A
-- function pointer is a number, and so is the argument of a job. `switch` and early returns are
-- conditionals. Printing and warnings are left out. Calls that depend on `DYNAMIC_EXECUTION` are
-- left out: it is off.
--
-- The host is taken to be little-endian, with a `long` of 64 bits. The memory of a block is a
-- function from the device and the offset to a byte. A function that the source has in three widths
-- is one function of the width; delays are not negative.
--
-- Fuel. The two loops of misc.c take as much fuel as the number itself, which each round halves;
-- the loop of `bit_mask` takes 32 rounds, one for each bit; the loops over the ways of the
-- instruction cache take `last_way` rounds, and step by at least one. `do_scheduler` takes as
-- many rounds as jobs are due, where the timer has a period (`Execute/Jobs`). All other loops
-- run over a list, a count of ways, registers or digits, or the words of a cache line.
--
-- Not modelled: the floating point instructions; the tables and the automaton of the decoder;
-- what `exec_main` does while the debugger stalls the processor; the other peripherals and the
-- memory controller, whose functions are the argument `Bus`; the logs, histories and profiles,
-- which are only written, and the verification API; the other requests of the debugger; the
-- channels, JTAG, the loader and the configuration file; and argtable2 and softfloat, which are
-- copies of other projects' libraries.
pub mod Prelude
pub mod Sample
pub mod Sched
pub mod Machine
pub mod Except
pub mod Pic
pub mod Tick
pub mod Support
pub mod Pcu
pub mod Pm
pub mod Tlb
pub mod Dmmu
pub mod Immu
pub mod Sprs
pub mod Watch
pub mod Memory
pub mod Dcache
pub mod Icache
pub mod Access
pub mod Predict
pub mod Sbuf
pub mod Insn
pub mod Execute
pub mod Rsp
