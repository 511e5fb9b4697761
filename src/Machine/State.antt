-- ===== src/Machine/State.antt =====
-- The records: an MMU, the configuration, and the state of the machine.
use openrisc_tools.Prelude.{ℕ, Bool, List, Option}
use openrisc_tools.Prelude.Int.{ℤ}
use openrisc_tools.Sched.{Scheduler}
use openrisc_tools.Sbuf.{Sbuf}

-- `struct dmmu` of or1ksim/mmu/dmmu.h, and `struct immu` of or1ksim/mmu/immu.h, which has the
-- same fields.
pub record Mmu : Type 0 where
  pub enabled : ℕ
  pub nways : ℕ
  pub nsets : ℕ
  pub pagesize : ℕ
  pub pagesize_log2 : ℕ
  pub page_offset_mask : ℕ
  pub page_mask : ℕ
  pub vpn_mask : ℕ
  pub lru_reload : ℕ
  pub set_mask : ℕ
  pub entrysize : ℕ
  pub ustates : ℕ
  pub missdelay : ℕ
  pub hitdelay : ℕ

-- `struct dev_memarea` of or1ksim/cpu/common/abstract.h. The operations of an area are those of the
-- device that registered it, which is known by a number.
pub record Area : Type 0 where
  pub addr_mask : ℕ
  pub addr_compare : ℕ
  pub size : ℕ
  pub size_mask : ℕ
  pub valid : Bool
  pub delayr : ℕ
  pub delayw : ℕ
  pub device : ℕ

-- The memory map of or1ksim/cpu/common/abstract.c: a pointer to an area is its place in the list.
-- `ram` is what or1ksim/peripheral/memory.c allocates, byte by byte, for each device.
pub record Memory : Type 0 where
  pub dev_list : List Area
  pub mc_area : Option ℕ
  pub cur_area : Option ℕ
  pub cur_vadd : ℕ
  pub ram : ℕ → ℕ → ℕ

-- One way of a set of the data cache, or1ksim/cache/dcache-model.c.
pub record Way : Type 0 where
  pub line : ℕ → ℕ
  pub tagaddr : ℕ
  pub lru : ℕ

pub record Dcache : Type 0 where
  pub sets : ℕ → ℕ → Way
  pub readhit : ℕ
  pub readmiss : ℕ
  pub writehit : ℕ
  pub writemiss : ℕ

pub record DcConfig : Type 0 where
  pub enabled : Bool
  pub nways : ℕ
  pub nsets : ℕ
  pub blocksize : ℕ
  pub ustates : ℕ
  pub store_missdelay : ℕ
  pub store_hitdelay : ℕ
  pub load_missdelay : ℕ
  pub load_hitdelay : ℕ

-- `struct ic` of or1ksim/cache/icache-model.h, with its statistics. `mem` is by bytes.
pub record Icache : Type 0 where
  pub mem : ℕ → ℕ
  pub lrus : ℕ → ℕ
  pub tags : ℕ → ℕ
  pub enabled : Bool
  pub nways : ℕ
  pub nsets : ℕ
  pub blocksize : ℕ
  pub ustates : ℕ
  pub missdelay : ℕ
  pub hitdelay : ℕ
  pub blocksize_log2 : ℕ
  pub set_mask : ℕ
  pub tagaddr_mask : ℕ
  pub last_way : ℕ
  pub block_offset_mask : ℕ
  pub block_mask : ℕ
  pub ustates_reload : ℕ
  pub readhit : ℕ
  pub readmiss : ℕ

-- An entry of a branch buffer, or1ksim/bpb/branch-predict.c. The target buffer has no `taken`.
pub record Branch : Type 0 where
  pub addr : ℕ
  pub taken : ℕ
  pub lru : ℕ

pub record Predictor : Type 0 where
  pub bpb : ℕ → ℕ → Branch
  pub btic : ℕ → ℕ → Branch
  pub bpb_hit : ℕ
  pub bpb_miss : ℕ
  pub correct : ℕ
  pub incorrect : ℕ
  pub btic_hit : ℕ
  pub btic_miss : ℕ

pub record Config : Type 0 where
  pub pic_enabled : Bool
  pub pic_edge_trigger : Bool
  pub pic_use_nmi : Bool
  pub pcu_enabled : Bool
  pub rsp_enabled : Bool
  pub strict_npc : Bool
  pub hardfloat : Bool
  pub pm_enabled : ℕ
  pub debug_enabled : Bool
  pub bpb_enabled : Bool
  pub btic : Bool
  pub sbuf_len : ℕ
  pub clkcycle_ps : ℕ
  pub is_library : Bool
  pub dc : DcConfig

pub record Machine : Type 0 where
  -- `cpu_state`, and `pcnext`, `next_delay_insn`, `except_pending`, `data_ci` and `insn_ci`.
  pub reg : ℕ → ℕ
  pub sprs : ℕ → ℕ
  pub pc : ℕ
  pub pc_delay : ℕ
  pub pcnext : ℕ
  pub delay_insn : Bool
  pub next_delay_insn : Bool
  pub npc_not_valid : Bool
  pub except_pending : Bool
  pub data_ci : ℕ
  pub insn_ci : ℕ
  -- `runtime.cpu`, `development[DEVELOPINT_RISCOP]` and `rsp.sigval`.
  pub stalled : Bool
  pub halted : Bool
  pub riscop : ℕ
  pub sigval : ℕ
  -- `in_reset` of debug-unit.c, and `breakpoint` of execute.c.
  pub in_reset : Bool
  pub breakpoint : ℕ
  -- `runtime.sim`.
  pub cycles : ℕ
  pub mem_cycles : ℕ
  pub sched : Scheduler
  -- The statics of tick.c.
  pub tick_counting : ℕ
  pub cycle_count_at_tick_start : ℤ
  -- `*dmmu_state`, `*immu_state` and their statistics.
  pub dmmu : Mmu
  pub immu : Mmu
  pub loads_tlbhit : ℕ
  pub loads_tlbmiss : ℕ
  pub fetch_tlbhit : ℕ
  pub fetch_tlbmiss : ℕ
  -- `or1k_mstats`: `byteadd`, and the branches by `taken` and `fwd`.
  pub byteadd : ℕ
  pub bf : ℕ → ℕ → ℕ
  pub bnf : ℕ → ℕ → ℕ
  -- `cpu_state.iqueue`: the address and the word of the instruction.
  pub insn_addr : ℕ
  pub insn : ℕ
  -- `runtime`: the counts of instructions and their marks, and `hush`.
  pub instructions : ℕ
  pub reset_cycles : ℕ
  pub reset_instructions : ℕ
  pub hush : Bool
  -- The list of breakpoints of the command line, and `break_just_hit` of `fetch`.
  pub breakpoints : List ℕ
  pub break_just_hit : Bool
  -- The statics of the store buffer.
  pub sbuf : Sbuf
  pub mem : Memory
  pub dc : Dcache
  pub ic : Icache
  pub predictor : Predictor
  pub config : Config
