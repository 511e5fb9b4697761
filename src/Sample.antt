-- ===== src/Sample.antt =====
-- Concrete states for the tests: a processor out of reset with a small scheduler.
use openrisc_tools.Prelude.{ℕ, true, false, [], ◌∷◌, none}
use openrisc_tools.Prelude.Int.{pos}
use openrisc_tools.Prelude.Update.{update}
use openrisc_tools.Sched.{Entry, Scheduler, sched_guard_fn, sched_time_max}
use openrisc_tools.Sbuf.{Sbuf}
use openrisc_tools.Machine.{
  Machine, Mmu, Config, Memory, Dcache, DcConfig, Icache, Predictor, spr_sr, spr_upr,
}

abbrev pub blank : Entry
blank = record { time = pos 0; param = 0; func = 0 }

abbrev pub guard_entry : Entry
guard_entry = record { time = sched_time_max; param = 0; func = sched_guard_fn }

abbrev pub device_entry : Entry
device_entry = record { time = pos 7; param = 4; func = 9 }

abbrev pub two_jobs : Scheduler
two_jobs = record {
  free_job_queue = blank ∷ blank ∷ blank ∷ [];
  job_queue = device_entry ∷ record guard_entry { time = pos 100 } ∷ [];
}

-- Pages of 8 KB, 64 sets of one way.
abbrev pub small_mmu : Mmu
small_mmu = record {
  enabled = 1;
  nways = 1;
  nsets = 64;
  pagesize = 8192;
  pagesize_log2 = 13;
  page_offset_mask = 0x1fff;
  page_mask = 0xffff_e000;
  vpn_mask = 0xfff8_0000;
  lru_reload = 0xc0;
  set_mask = 63;
  entrysize = 1;
  ustates = 2;
  missdelay = 1;
  hitdelay = 1;
}

-- Two areas of 64 KB.
abbrev pub two_areas : Memory
two_areas = record {
  dev_list =
      record {
        addr_mask = 0xffff_0000;
        addr_compare = 0;
        size = 0x1_0000;
        size_mask = 0xffff;
        valid = true;
        delayr = 1;
        delayw = 2;
        device = 0;
      }
      ∷ record {
        addr_mask = 0xffff_0000;
        addr_compare = 0x4_0000;
        size = 0x1_0000;
        size_mask = 0xffff;
        valid = true;
        delayr = 1;
        delayw = 2;
        device = 1;
      }
      ∷ [];
  mc_area = none;
  cur_area = none;
  cur_vadd = 0;
  ram = λ d a. 0;
}

-- Lines of 16 bytes, 4 sets of 2 ways.
abbrev pub usual_dc : DcConfig
usual_dc = record {
  enabled = true;
  nways = 2;
  nsets = 4;
  blocksize = 16;
  ustates = 2;
  store_missdelay = 3;
  store_hitdelay = 0;
  load_missdelay = 3;
  load_hitdelay = 0;
}

abbrev pub empty_dc : Dcache
empty_dc = record {
  sets = λ s w. record { line = λ i. 0; tagaddr = 0xffff_ffff; lru = 0 };
  readhit = 0;
  readmiss = 0;
  writehit = 0;
  writemiss = 0;
}

abbrev pub small_ic : Icache
small_ic = record {
  mem = λ a. 0;
  lrus = λ w. 0;
  tags = λ w. 0xffff_ffff;
  enabled = true;
  nways = 2;
  nsets = 4;
  blocksize = 16;
  ustates = 2;
  missdelay = 1;
  hitdelay = 1;
  blocksize_log2 = 4;
  set_mask = 0x30;
  tagaddr_mask = 0xffff_ffc0;
  last_way = 8;
  block_offset_mask = 0xf;
  block_mask = 0xffff_fff0;
  ustates_reload = 1;
  readhit = 0;
  readmiss = 0;
}

abbrev pub empty_predictor : Predictor
empty_predictor = record {
  bpb = λ e w. record { addr = 0; taken = 0; lru = 0 };
  btic = λ e w. record { addr = 0; taken = 0; lru = 0 };
  bpb_hit = 0;
  bpb_miss = 0;
  correct = 0;
  incorrect = 0;
  btic_hit = 0;
  btic_miss = 0;
}

abbrev pub usual_config : Config
usual_config = record {
  pic_enabled = true;
  pic_edge_trigger = true;
  pic_use_nmi = false;
  pcu_enabled = false;
  rsp_enabled = false;
  strict_npc = false;
  hardfloat = false;
  pm_enabled = 0;
  debug_enabled = false;
  bpb_enabled = true;
  btic = true;
  sbuf_len = 0;
  clkcycle_ps = 4000;
  is_library = false;
  dc = usual_dc;
}

-- SR has supervisor mode, the interrupts, the data MMU and the fixed bit; UPR has the data MMU.
abbrev pub sample_sprs : ℕ → ℕ
sample_sprs = update (update (λ n. 0) spr_sr 0x8027) spr_upr 0x19

abbrev pub empty_sbuf : Sbuf
empty_sbuf = record {
  head = 0;
  tail = 0;
  count = 0;
  buf = λ i. pos 0;
  prev_cycles = pos 0;
  wait_cyc = pos 0;
  total_cyc = pos 0;
  mem_cycles = pos 0;
}

abbrev pub sample : Machine
sample = record {
  reg = λ n. 0;
  sprs = sample_sprs;
  pc = 0x2000;
  pc_delay = 0;
  pcnext = 0x2004;
  delay_insn = false;
  next_delay_insn = false;
  npc_not_valid = false;
  except_pending = false;
  data_ci = 0;
  insn_ci = 0;
  stalled = false;
  halted = false;
  riscop = 0;
  sigval = 0;
  in_reset = false;
  breakpoint = 0;
  cycles = 500;
  mem_cycles = 0;
  sched = two_jobs;
  tick_counting = 0;
  cycle_count_at_tick_start = pos 0;
  dmmu = small_mmu;
  immu = small_mmu;
  loads_tlbhit = 0;
  loads_tlbmiss = 0;
  fetch_tlbhit = 0;
  fetch_tlbmiss = 0;
  byteadd = 0;
  bf = λ taken fwd. 0;
  bnf = λ taken fwd. 0;
  insn_addr = 0;
  insn = 0;
  instructions = 0;
  reset_cycles = 0;
  reset_instructions = 0;
  hush = true;
  breakpoints = [];
  break_just_hit = false;
  sbuf = empty_sbuf;
  mem = two_areas;
  dc = empty_dc;
  ic = small_ic;
  predictor = empty_predictor;
  config = usual_config;
}

-- The same processor with the data MMU and the caches off, and a word of store buffer.
abbrev pub bare_sample : Machine
bare_sample = record sample {
  sprs = update sample_sprs spr_sr 0x8001;
  ic = record small_ic { enabled = false };
  config = record usual_config { dc = record usual_dc { enabled = false }; sbuf_len = 1 };
}
