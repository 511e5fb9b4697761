-- ===== src/Execute/Fetch.antt =====
-- The fetch of or1ksim/cpu/or32/execute.c on a processor that uses neither MMUs nor caches.
use openrisc_tools.Prelude.{
  ℕ, ◌+◌, ◌^◌, ◌<◌, ◌≡◌, ◌∙◌, sym, refl, ap, Bool, true, false, not, ◌==◌, some, if◌then◌else◌,
  if_true, if_false, get_elem?, bit_and, ltb, [],
}
use openrisc_tools.Machine.{Machine, Memory, Area, spr_pcmr_if, spr_eear_base}
use openrisc_tools.Memory.{Width, Bus, current, lookup, ram_bus, evalsim_mem, readfunc, simmem_read}
use openrisc_tools.Memory.Map.{IsMapped, covers, verify_memoryarea-keeps}
use openrisc_tools.Memory.Stored.{found}
use openrisc_tools.Memory.Same.{SameBut, SameBut-trans, evalsim_mem-SameBut}
use openrisc_tools.Immu.{is_off, uncached, immu_translate}
use openrisc_tools.Icache.{ic_simulate_fetch}
use openrisc_tools.Watch.{Action}
use openrisc_tools.Except.{except_handle, trap}
use openrisc_tools.Access.{watch, count_event, fetch, eval_insn}
use openrisc_tools.Access.Bare.{IsBare, watch-off}
use openrisc_tools.Execute.Defs.{
  Decoder, clocked, stopped, at_breakpoint, fetch_insn, update_pc, execute, decode_execute_wrapper,
  advanced, cpu_clock,
}

-- Neither MMUs nor caches, neither debug unit nor counters, no breakpoints, and nothing pending.
pub record IsPlain (m : Machine) : Type 0 where
  pub bare : IsBare m
  pub insn_mmu : is_off m ≡ true
  pub insn_cache : m.ic.enabled ≡ false
  pub no_breakpoints : m.breakpoints ≡ []

-- The address is in an area of a memory map in order.
pub record IsReachable (addr : ℕ) (mem : Memory) : Type 0 where
  pub low : addr < 2 ^ 32
  pub mapped : IsMapped mem
  pub place : ℕ
  pub area : Area
  pub there : get_elem? mem.dev_list place ≡ some area
  pub inside : covers area addr ≡ true

-- The same areas and bytes; which area is the current one is left open.
pub record SameMemory (mem mem' : Memory) : Type 0 where
  pub areas : mem'.dev_list ≡ mem.dev_list
  pub bytes : mem'.ram ≡ mem.ram

pub SameMemory-IsReachable :
    (addr : ℕ) (mem mem' : Memory)
    → SameMemory mem mem'
    → IsReachable addr mem
    → IsReachable addr mem'
SameMemory-IsReachable addr mem mem' s r = record {
  low = r.low;
  mapped = record { areas = rw (s.areas) r.mapped.areas; apart = rw (s.areas) r.mapped.apart };
  place = r.place;
  area = r.area;
  there = rw (s.areas) r.there;
  inside = r.inside;
}

at_breakpoint-none : (m : Machine) → m.breakpoints ≡ [] → at_breakpoint m ≡ (m, false)
unfolding at_breakpoint
at_breakpoint-none m e = rw e refl

module _ (delayr delayw : ℕ → ℕ) where
  abbrev bus : Bus
  bus = ram_bus delayr delayw

  -- The word of the program at an address.
  abbrev pub word_at : ℕ → Machine → ℕ
  word_at addr m = (evalsim_mem bus Width.word addr addr m).1

  -- What a read of the memory blocks gives.
  abbrev read_at : ℕ → Area → (ℕ → ℕ → ℕ) → ℕ
  read_at addr a ram =
      if ltb 0 (delayr a.device)
      then simmem_read Width.word (bit_and addr a.size_mask) (ram a.device)
      else 0

  word_at_lem :
      (addr n : ℕ) (a : Area) (m : Machine)
      → addr < 2 ^ 32
      → IsMapped m.mem
      → get_elem? m.mem.dev_list n ≡ some a
      → covers a addr ≡ true
      → (evalsim_mem bus Width.word addr addr m).1 ≡ read_at addr a m.mem.ram
  unfolding evalsim_mem ram_bus readfunc current lookup
  word_at_lem addr n a m h p e c =
      let place = found addr n a m.mem h p e c in
      rw (evalsim_mem, place) (ap (read_at addr a) (verify_memoryarea-keeps addr m.mem).1)

  pub word_at-SameMemory :
      (addr : ℕ) (m m' : Machine)
      → SameMemory m.mem m'.mem
      → IsReachable addr m.mem
      → word_at addr m' ≡ word_at addr m
  word_at-SameMemory addr m m' s r =
      let r' = SameMemory-IsReachable addr m.mem m'.mem s r in
      word_at_lem addr r.place r.area m' r.low r'.mapped
        (ap (λ areas. get_elem? areas r.place) s.areas ∙ r.there) r.inside
      ∙ ap (read_at addr r.area) s.bytes
      ∙ sym (word_at_lem addr r.place r.area m r.low r.mapped r.there r.inside)

  evalsim_mem-SameMemory :
      (addr : ℕ) (m : Machine)
      → IsReachable addr m.mem
      → SameMemory m.mem (evalsim_mem bus Width.word addr addr m).0.mem
  unfolding evalsim_mem ram_bus readfunc current lookup
  evalsim_mem-SameMemory addr m r =
      let place = found addr r.place r.area m.mem r.low r.mapped r.there r.inside in
      let keeps = verify_memoryarea-keeps addr m.mem in
      record { areas = rw (evalsim_mem, place) keeps.0; bytes = rw (evalsim_mem, place) keeps.1 }

  evalsim_mem-insn_addr :
      (addr : ℕ) (m : Machine)
      → IsReachable addr m.mem
      → (evalsim_mem bus Width.word addr addr m).0.insn_addr ≡ m.insn_addr
  unfolding evalsim_mem ram_bus readfunc current lookup
  evalsim_mem-insn_addr addr m r =
      let place = found addr r.place r.area m.mem r.low r.mapped r.there r.inside in
      rw (evalsim_mem, place) refl

  module _ (m : Machine) (plain : IsPlain m) (r : IsReachable m.pc m.mem) where
    -- The state in front of the fetch, and behind its translation.
    abbrev begun : Machine
    begun = record m { except_pending = false; next_delay_insn = false }

    abbrev pub start : Machine
    start = record begun { breakpoint = 0; insn_addr = m.pc; insn_ci = uncached m.pc }

    abbrev out : Machine × ℕ
    out = evalsim_mem bus Width.word m.pc m.pc start

    abbrev pub fetched : Machine
    fetched = record out.0 {
      insn = out.1;
      instructions = if out.0.except_pending then out.0.instructions else out.0.instructions + 1;
    }

    out-SameBut : SameBut start out.0
    out-SameBut =
        evalsim_mem-SameBut delayr delayw Width.word m.pc m.pc r.place r.area start r.low r.mapped
          r.there r.inside

    pub fetched-SameBut : SameBut start fetched
    fetched-SameBut = SameBut-trans start out.0 fetched out-SameBut refl

    pub fetched-SameMemory : SameMemory m.mem fetched.mem
    fetched-SameMemory = evalsim_mem-SameMemory m.pc start r

    pub fetched_insn_addr : fetched.insn_addr ≡ m.pc
    fetched_insn_addr = evalsim_mem-insn_addr m.pc start r

    fetch-plain : fetch bus m.pc m.pc start ≡ out
    unfolding fetch
    fetch-plain =
        let counted : count_event spr_pcmr_if (watch Action.insn_fetch m.pc start) ≡ start =
          ap (count_event spr_pcmr_if) (watch-off Action.insn_fetch m.pc start plain.bare.debug)
          ∙ if_false _ _ plain.bare.counters in
        ap
          (λ (q : Machine).
            let o : Machine × ℕ =
              if q.ic.enabled
              then ic_simulate_fetch bus m.pc m.pc q
              else evalsim_mem bus Width.word m.pc m.pc q in
            (watch Action.load_data o.1 o.0, o.1))
          counted
        ∙ ap (λ (o : Machine × ℕ). (watch Action.load_data o.1 o.0, o.1))
            (if_false _ _ plain.insn_cache)
        ∙ ap (λ q. (q, out.1))
            (watch-off Action.load_data out.1 out.0
              (ap (λ (q : Machine). q.config.debug_enabled) out-SameBut ∙ plain.bare.debug))

    fetch_insn-plain : fetch_insn bus begun ≡ fetched
    unfolding fetch_insn eval_insn immu_translate
    fetch_insn-plain =
        let done = λ (o : Machine × ℕ). record o.0 {
          insn = o.1;
          instructions = if o.0.except_pending then o.0.instructions else o.0.instructions + 1;
        } in
        ap
          (λ (t : Machine × ℕ).
            done (if t.0.except_pending then (t.0, 0) else fetch bus m.pc t.1 t.0))
          (if_true _ _ plain.insn_mmu)
        ∙ ap done fetch-plain

    -- A clock is the execution of the word at the pc.
    pub cpu_clock-plain :
        (d : Decoder) → cpu_clock d bus m ≡ advanced (decode_execute_wrapper d fetched)
    unfolding cpu_clock execute
    cpu_clock-plain d =
        let raised = λ (q : Machine). except_handle trap (q.sprs spr_eear_base) q in
        let quiet : fetched.except_pending ≡ false =
          ap (λ (q : Machine). q.except_pending) fetched-SameBut in
        let unbroken : not (fetched.breakpoint == 0) ≡ false =
          ap (λ (q : Machine). not (q.breakpoint == 0)) fetched-SameBut in
        ap (λ (p : Machine × Bool). if p.1 then stopped p.0 else execute d (fetch_insn bus p.0))
          (at_breakpoint-none begun plain.no_breakpoints)
        ∙ ap (execute d) fetch_insn-plain
        ∙ if_false _ _ quiet
        ∙ if_false (clocked (record (update_pc (raised fetched)) { except_pending = false })) _
            unbroken
