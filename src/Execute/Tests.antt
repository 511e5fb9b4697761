-- ===== src/Execute/Tests.antt =====
-- The loop of the scheduler at concrete queues.
use openrisc_tools.Prelude.{
  ℕ, ◌+◌, ◌%◌, ◌^◌, ◌<◌, ◌≡◌, refl, arith, true, false, some, none, ◌∷◌, [], ◌==◌, if◌then◌else◌,
}
use mathlib.Core.Option.{none-ne-some}
use openrisc_tools.Prelude.Int.{pos, ◌+ℤ◌}
use openrisc_tools.Prelude.Update.{update}
use openrisc_tools.Sample.{sample, bare_sample, guard_entry, two_jobs, two_areas}
use openrisc_tools.Sched.Overdue.{overdue}
use openrisc_tools.Sched.Deadlines.{deadlines}
use openrisc_tools.Machine.{Machine, spr_ttmr, spr_pmr, tick_restart_fn, tick_raise_except_fn}
use openrisc_tools.Memory.{
  ram_bus, evalsim_mem, readfunc, current, lookup, verify_memoryarea, holds, find_area, is_in,
  simmem_read, simmem_read32, simmem_write32,
}
use openrisc_tools.Memory.Tests.{plain, low_area, two_areas-IsMapped}
use openrisc_tools.Except.{dsr_mask}
use openrisc_tools.Sprs.{ran}
use openrisc_tools.Insn.{l_jr}
use openrisc_tools.Execute.Defs.{Decoder, clocked, cpu_clock}
use openrisc_tools.Execute.Fetch.{IsPlain, IsReachable}
use openrisc_tools.Execute.Slots.{cpu_clock-l_jr}
use openrisc_tools.Execute.Illegal.{IsIllegal, cpu_clock-IsIllegal}
use openrisc_tools.Execute.Sleep.{exec_round_clocks}
use openrisc_tools.Execute.Main.{
  end_round, exec_round, call_job, do_scheduler, running, head_is_due,
}
use openrisc_tools.Execute.Rounds.{Ends}
use openrisc_tools.Execute.Jobs.{HasPeriod, do_scheduler_lem}
use openrisc_tools.Execute.Stuck.{IsStuck, do_scheduler-IsStuck}

-- The restart and the interrupt of a timer of period 7 are due.
abbrev busy : Machine
busy = record sample {
  sprs = update sample.sprs spr_ttmr 0x6000_0007;
  sched = record two_jobs {
    job_queue =
        record { time = pos 0; param = 0; func = tick_raise_except_fn }
        ∷ record { time = pos 0; param = 0; func = tick_restart_fn }
        ∷ guard_entry
        ∷ [];
  };
}

do_scheduler_lem_example : Ends HasPeriod (do_scheduler (call_job (λ f p m. none)) 2 busy)
unfolding overdue deadlines head_is_due ◌+ℤ◌
do_scheduler_lem_example =
    do_scheduler_lem (λ f p m. none) (λ f p m m' h e. absurd (none-ne-some m' e)) 2 busy
      (omega arith) refl (omega arith)

-- A timer of period 0.
abbrev stuck : Machine
stuck = record sample {
  sprs = update sample.sprs spr_ttmr 0x6000_0000;
  sched = record two_jobs {
    job_queue = record { time = pos 0; param = 0; func = tick_restart_fn } ∷ guard_entry ∷ [];
  };
}

stuck-IsStuck : IsStuck stuck
unfolding ◌+ℤ◌
stuck-IsStuck = record {
  period = refl;
  cur = record { time = pos 0; param = 0; func = tick_restart_fn };
  next = guard_entry;
  rest = [];
  queue = refl;
  restart = refl;
  due = omega arith;
  later = omega arith;
}

do_scheduler-IsStuck_example :
    (m' : Machine) × (do_scheduler (call_job (λ f p m. none)) 100 stuck ≡ running m') × IsStuck m'
do_scheduler-IsStuck_example = do_scheduler-IsStuck (λ f p m. none) 100 stuck stuck-IsStuck

-- A program of three words: `l.jr r5`, `l.nop`, and one that is no instruction.
abbrev program : ℕ → ℕ
program =
    simmem_write32 0x2000 0x4400_2800
      (simmem_write32 0x2004 0x1500_0000 (simmem_write32 0x2008 0xffff_ffff (λ a. 0)))

abbrev jump : Machine
jump = record bare_sample {
  mem = record two_areas { ram = λ d. program };
  reg = update bare_sample.reg 5 0x2040;
}

-- A decoder of these two instructions.
abbrev two_insns : Decoder
two_insns = record {
  insn_decode =
      λ insn. if insn == 0x4400_2800 then some 0 else if insn == 0x1500_0000 then some 1 else none;
  exec = λ i m. if i == 0 then ran (l_jr (m.reg 5) m) else ran m;
}

at_rest : (pc pcnext : ℕ) → IsPlain (record jump { pc = pc; pcnext = pcnext })
at_rest pc pcnext = record {
  bare = record {
    mmu = refl;
    cache = refl;
    debug = refl;
    counters = refl;
    quiet = refl;
    unbroken = refl;
  };
  insn_mmu = refl;
  insn_cache = refl;
  no_breakpoints = refl;
}

in_low_area : (addr : ℕ) → addr < 2 ^ 16 → IsReachable addr jump.mem
in_low_area addr h = record {
  low = omega (arith, h);
  mapped = record { areas = two_areas-IsMapped.areas; apart = two_areas-IsMapped.apart };
  place = 0;
  area = low_area;
  there = refl;
  inside = ground (arith, h);
}

cpu_clock-l_jr_example :
    (m1 m2 : Machine) × (cpu_clock two_insns plain jump ≡ clocked m1)
    × (cpu_clock two_insns plain m1 ≡ clocked m2)
    × (m1.pc ≡ 0x2004)
    × (m1.delay_insn ≡ true)
    × (m2.pc ≡ 0x2040)
    × (m2.pcnext ≡ (0x2040 + 4) % 2 ^ 32)
    × (m2.delay_insn ≡ false)
unfolding evalsim_mem readfunc current lookup verify_memoryarea holds find_area is_in simmem_read
    simmem_read32 simmem_write32 ram_bus
cpu_clock-l_jr_example =
    cpu_clock-l_jr (λ d. 1) (λ d. 1) two_insns jump (at_rest 0x2000 0x2004)
      (in_low_area 0x2000 (omega arith)) 0 1 5 (λ m. m) (in_low_area 0x2004 (omega arith)) refl refl
      refl (λ q e. refl) (λ q e. refl)
      (λ q. record { next = refl; no_slot = refl; unbroken = refl })

-- The third word.
abbrev lost : Machine
lost = record jump { pc = 0x2008; pcnext = 0x200c }

cpu_clock-IsIllegal_example :
    (m' : Machine) × (cpu_clock two_insns plain lost ≡ clocked m')
    × IsIllegal
        (λ d. 1)
        (λ d. 1)
        two_insns
        lost
        (at_rest 0x2008 0x200c)
        (in_low_area 0x2008 (omega arith))
        m'
unfolding evalsim_mem readfunc current lookup verify_memoryarea holds find_area is_in simmem_read
    simmem_read32 simmem_write32 dsr_mask ram_bus
cpu_clock-IsIllegal_example =
    cpu_clock-IsIllegal (λ d. 1) (λ d. 1) two_insns lost (at_rest 0x2008 0x200c)
      (in_low_area 0x2008 (omega arith)) refl refl

-- The doze mode.
abbrev dozing : Machine
dozing = record jump {
  sprs = update jump.sprs spr_pmr 0x10;
  config = record jump.config { pm_enabled = 1 };
}

exec_round_clocks_example :
    exec_round two_insns plain (λ f p m. none) 9 dozing
    ≡ end_round (λ f p m. none) 9 500 (cpu_clock two_insns plain dozing)
exec_round_clocks_example = exec_round_clocks two_insns plain (λ f p m. none) 9 dozing (omega arith)
