-- ===== src/Insn/Transfer.antt =====
-- A load after a store, from the instruction to the memory and back: or1ksim/cpu/or32/insnset.c,
-- or1ksim/cpu/common/abstract.c and or1ksim/peripheral/memory.c.
use mathlib.Core.Path.{subst}
use openrisc_tools.Prelude.{
  ℕ, ◌-◌, ◌%◌, ◌^◌, ◌≤◌, ◌<◌, ◌≡◌, ◌∙◌, sym, refl, ap, true, false, not, ◌||◌, ◌==◌, some,
  if◌then◌else◌, if_true, in_both, get_elem?,
}
use openrisc_tools.Prelude.Int.{pos}
use openrisc_tools.Prelude.Update.{update}
use openrisc_tools.Machine.{Machine, Memory, Area}
use openrisc_tools.Memory.{Width, Bus, cut, ram_bus, evalsim_mem, setsim_mem}
use openrisc_tools.Memory.Map.{IsMapped, covers}
use openrisc_tools.Memory.Same.{
  SameBut, SameBut-trans, setsim_mem-SameBut, evalsim_mem-SameBut, evalsim_mem-same,
}
use openrisc_tools.Memory.Flat.{OwnDevices}
use openrisc_tools.Memory.Stored.{bytes, kept, after-IsMapped, evalsim_mem-setsim_mem}
use openrisc_tools.Access.Bare.{
  IsBare, aligned-misaligned, cut-cut, translated, set_mem-bare, eval_mem-bare,
}
use openrisc_tools.Access.{eval_mem}
use openrisc_tools.Sbuf.{Sbuf, sbuf_store, sbuf_load}
use openrisc_tools.Insn.Flags.{setsim_reg}
use openrisc_tools.Insn.Memory.{with_sbuf, l_store, l_load}

SameBut-IsBare : (m m' : Machine) → SameBut m m' → IsBare m → IsBare m'
SameBut-IsBare m m' s p =
    let sprs = ap (λ (q : Machine). q.sprs) s in
    let config = ap (λ (q : Machine). q.config) s in
    record {
      mmu = rw sprs p.mmu;
      cache = rw config p.cache;
      debug = rw config p.debug;
      counters = rw config p.counters;
      quiet = ap (λ (q : Machine). q.except_pending) s ∙ p.quiet;
      unbroken = ap (λ (q : Machine). q.breakpoint) s ∙ p.unbroken;
    }

-- The store buffer changes no more than the cycles.
with_sbuf-SameBut : (f : Sbuf → Sbuf) (m : Machine) → SameBut m (with_sbuf f m)
with_sbuf-SameBut f m = refl

module _ (delayr delayw : ℕ → ℕ) (w : Width) (addr value n : ℕ) (a : Area) (m : Machine)
    (bare : IsBare m) (h : addr < 2 ^ 32) (aligned : addr % bytes w ≡ 0) (p : IsMapped m.mem)
    (own : OwnDevices m.mem.dev_list) (e : get_elem? m.mem.dev_list n ≡ some a)
    (c : covers a addr ≡ true) (writable : 0 < delayw a.device) (readable : 0 < delayr a.device)
    (large : 4 ≤ a.size) where
  abbrev bus : Bus
  bus = ram_bus delayr delayw

  abbrev written : Machine
  written = setsim_mem bus w addr addr (cut w value) (translated addr m)

  -- The state after the store.
  record IsStored (m' : Machine) : Type 0 where
    same : SameBut m m'
    memory : m'.mem ≡ written.mem

  written-SameBut : SameBut m written
  written-SameBut =
      SameBut-trans m (translated addr m) written refl
        (setsim_mem-SameBut delayr delayw w addr addr n a (translated addr m) h p e c (cut w value))

  l_store-IsStored : IsStored (l_store bus w addr value m)
  unfolding l_store
  l_store-IsStored =
      let buffered = λ (q : Machine).
        with_sbuf (sbuf_store m.config.sbuf_len (pos q.cycles) (pos (q.mem_cycles - m.mem_cycles)))
          (record q { mem_cycles = m.mem_cycles }) in
      let finish = λ (q : Machine). if m.config.sbuf_len == 0 then q else buffered q in
      let done : IsStored (finish written) =
        in_both IsStored (m.config.sbuf_len == 0) written (buffered written)
          (record { same = written-SameBut; memory = refl })
          (record {
            same = SameBut-trans m written (buffered written) written-SameBut refl;
            memory = refl;
          }) in
      subst (λ q. IsStored (finish q))
        (sym (set_mem-bare bus w addr value m bare (aligned-misaligned w addr aligned))) done

  -- A load from such a state.
  load_value : (m' : Machine) → IsStored m' → (evalsim_mem bus w addr addr m').1 ≡ cut w value
  load_value m' s =
      evalsim_mem-same delayr delayw w addr addr written m' s.memory
      ∙ evalsim_mem-setsim_mem delayr delayw w addr addr (cut w value) n a (translated addr m) h
          aligned p own e c writable large addr readable
      ∙ cut-cut w value

  abbrev stored : Machine
  stored = l_store bus w addr value m

  abbrev loading : Machine
  loading =
      if stored.config.sbuf_len == 0
      then stored
      else with_sbuf (sbuf_load (pos stored.cycles)) stored

  loading-IsStored : IsStored loading
  loading-IsStored =
      let s = l_store-IsStored in
      in_both IsStored (stored.config.sbuf_len == 0) stored
        (with_sbuf (sbuf_load (pos stored.cycles)) stored) s
        record {
          same =
              SameBut-trans m stored (with_sbuf (sbuf_load (pos stored.cycles)) stored) s.same
                (with_sbuf-SameBut (sbuf_load (pos stored.cycles)) stored);
          memory = s.memory;
        }

  -- What the load finds.
  abbrev out : Machine × ℕ
  out = evalsim_mem bus w addr addr (translated addr loading)

  out-SameBut : SameBut m out.0
  out-SameBut =
      let s = loading-IsStored in
      let kept_areas =
        kept delayr delayw w addr addr (cut w value) n a (translated addr m) h aligned p own e c
          writable large in
      let mapped =
        after-IsMapped delayr delayw w addr addr (cut w value) n a (translated addr m) h aligned p
          own e c writable large in
      SameBut-trans m loading out.0 s.same (
        SameBut-trans loading (translated addr loading) out.0 refl (
          evalsim_mem-SameBut delayr delayw w addr addr n a (translated addr loading) h
            (subst IsMapped (sym s.memory) mapped)
            (ap (λ (x : Memory). get_elem? x.dev_list n) s.memory ∙ rw kept_areas e) c))

  -- For a processor with the data MMU, the data cache, the debug unit and the counters off and
  -- nothing pending, a memory map in order whose areas are of different devices, and an area of at
  -- least four bytes that is read and written: a load instruction at the address and of the width
  -- of a store instruction before it, both aligned, with a store buffer of any length in between,
  -- writes the value stored, cut to its width and converted, and 0 to register 0. The other
  -- registers are as they were.
  pub l_load-l_store :
      (convert : ℕ → ℕ) (d i : ℕ)
      → (l_load bus w convert d addr (l_store bus w addr value m)).reg i
        ≡ (if i == d then (if d == 0 then 0 else convert (cut w value)) else m.reg i)
  unfolding l_load setsim_reg
  l_load-l_store convert d i =
      let s = loading-IsStored in
      let bare' = SameBut-IsBare m loading s.same bare in
      let finish = λ (q : Machine × ℕ).
        if not (q.0.except_pending || not (q.0.breakpoint == 0))
        then setsim_reg d (convert q.1) q.0
        else q.0 in
      let found_out : eval_mem bus w addr loading ≡ (out.0, cut w out.1) =
        eval_mem-bare bus w addr loading bare' (aligned-misaligned w addr aligned)
          (ap (λ (q : Machine). q.config.debug_enabled) out-SameBut ∙ bare.debug) in
      let free : not (out.0.except_pending || not (out.0.breakpoint == 0)) ≡ true =
        ap (λ b. not (b || not (out.0.breakpoint == 0)))
          (ap (λ (q : Machine). q.except_pending) out-SameBut ∙ bare.quiet)
        ∙ ap (λ (k : ℕ). not (false || not (k == 0)))
            (ap (λ (q : Machine). q.breakpoint) out-SameBut ∙ bare.unbroken) in
      let val : cut w out.1 ≡ cut w value =
        ap (cut w) (
          load_value (translated addr loading) (record {
            same = SameBut-trans m loading (translated addr loading) s.same refl;
            memory = s.memory;
          }))
        ∙ cut-cut w value in
      let same : (l_load bus w convert d addr stored).reg
          ≡ update out.0.reg d (if d == 0 then 0 else convert (cut w out.1)) =
        ap (λ q. (finish q).reg) found_out ∙ ap (λ (q : Machine). q.reg) (if_true _ _ free) in
      ap (λ f. f i) same
      ∙ ap (λ v. if i == d then (if d == 0 then 0 else convert v) else out.0.reg i) val
      ∙ ap (λ (f : ℕ → ℕ). if i == d then (if d == 0 then 0 else convert (cut w value)) else f i)
          (ap (λ (q : Machine). q.reg) out-SameBut)
