-- ===== src/Execute/Slots.antt =====
-- Two clocks of or1ksim/cpu/or32/execute.c around a jump.
use mathlib.Core.Path.{subst}
use openrisc_tools.Prelude.{ℕ, ◌+◌, ◌%◌, ◌^◌, ◌≡◌, ◌∙◌, sym, refl, ap, true, false, some, if_false}
use openrisc_tools.Machine.{Machine, test}
use openrisc_tools.Memory.{Bus, ram_bus}
use openrisc_tools.Except.{Exception, except_handle}
use openrisc_tools.Sprs.{ran}
use openrisc_tools.Insn.{l_jr}
use openrisc_tools.Execute.Defs.{Decoder, clocked, update_pc, cpu_clock}
use openrisc_tools.Execute.Fetch.{
  IsPlain, IsReachable, SameMemory, SameMemory-IsReachable, word_at, word_at-SameMemory,
  fetched-SameBut, fetched-SameMemory,
}
use openrisc_tools.Execute.Clock.{ready, ready_insn, runs}

-- An instruction that neither jumps, nor raises an exception, nor hits a watchpoint.
pub record IsSteady (m m' : Machine) : Type 0 where
  pub next : m'.pcnext ≡ m.pcnext
  pub no_slot : m'.next_delay_insn ≡ m.next_delay_insn
  pub unbroken : m'.breakpoint ≡ m.breakpoint

module _ (delayr delayw : ℕ → ℕ) (d : Decoder) where
  abbrev bus : Bus
  bus = ram_bus delayr delayw

  module _ (m : Machine) (plain : IsPlain m) (r : IsReachable m.pc m.mem) where
    -- A jump through a register, up to its delay slot.
    abbrev jumping : ℕ → Machine
    jumping k = update_pc (record (ready delayr delayw d m plain r) {
      pc_delay = (ready delayr delayw d m plain r).reg k;
      next_delay_insn = true;
    })

    jumping-IsPlain : (k : ℕ) → IsPlain (jumping k)
    unfolding update_pc
    jumping-IsPlain k =
        let s = fetched-SameBut delayr delayw m plain r in
        let sprs = ap (λ (q : Machine). q.sprs) s in
        let config = ap (λ (q : Machine). q.config) s in
        record {
          bare = record {
            mmu = rw sprs plain.bare.mmu;
            cache = rw config plain.bare.cache;
            debug = rw config plain.bare.debug;
            counters = rw config plain.bare.counters;
            quiet = ap (λ (q : Machine). q.except_pending) s;
            unbroken = refl;
          };
          insn_mmu = rw sprs plain.insn_mmu;
          insn_cache = ap (λ (q : Machine). q.ic.enabled) s ∙ plain.insn_cache;
          no_breakpoints = ap (λ (q : Machine). q.breakpoints) s ∙ plain.no_breakpoints;
        }

    jumping-SameMemory : (k : ℕ) → SameMemory m.mem (jumping k).mem
    unfolding update_pc
    jumping-SameMemory k = fetched-SameMemory delayr delayw m plain r

    jumping-pc : (k : ℕ) → (jumping k).pc ≡ m.pcnext
    unfolding update_pc
    jumping-pc k = ap (λ (q : Machine). q.pcnext) (fetched-SameBut delayr delayw m plain r)

    jumping-pcnext : (k : ℕ) → (jumping k).pcnext ≡ m.reg k
    unfolding update_pc
    jumping-pcnext k = ap (λ (q : Machine). q.reg k) (fetched-SameBut delayr delayw m plain r)

    jumps :
        (i k : ℕ)
        → test (m.reg k) 3 ≡ false
        → d.insn_decode (word_at delayr delayw m.pc m) ≡ some i
        → d.exec i (ready delayr delayw d m plain r)
          ≡ ran (l_jr ((ready delayr delayw d m plain r).reg k) (ready delayr delayw d m plain r))
        → cpu_clock d bus m ≡ clocked (jumping k)
    unfolding l_jr
    jumps i k aligned known does =
        let q = ready delayr delayw d m plain r in
        let target : test (q.reg k) 3 ≡ false =
          ap (λ (x : Machine). test (x.reg k) 3) (fetched-SameBut delayr delayw m plain r)
          ∙ aligned in
        runs delayr delayw d m plain r i (record q { pc_delay = q.reg k; next_delay_insn = true })
          known (does ∙ ap ran (if_false (except_handle Exception.align q.pc q) _ target)) refl

    -- For a processor without MMUs, caches, debug unit, counters and breakpoints, whose pc and next
    -- pc are in areas of a memory map in order: where the first word is an `l.jr` through a register
    -- that holds a multiple of 4, and the second word is any instruction that neither jumps, nor
    -- raises an exception, nor hits a watchpoint, the first clock goes on to the second word, in the
    -- delay slot, and the second clock to the address in the register, which the register held
    -- before the delay slot, and out of the delay slot.
    pub cpu_clock-l_jr :
        (i j k : ℕ) (step : Machine → Machine)
        → IsReachable m.pcnext m.mem
        → test (m.reg k) 3 ≡ false
        → d.insn_decode (word_at delayr delayw m.pc m) ≡ some i
        → d.insn_decode (word_at delayr delayw m.pcnext m) ≡ some j
        → ((q : Machine)
            → q.insn ≡ word_at delayr delayw m.pc m
            → d.exec i q ≡ ran (l_jr (q.reg k) q))
        → ((q : Machine) → q.insn ≡ word_at delayr delayw m.pcnext m → d.exec j q ≡ ran (step q))
        → ((q : Machine) → IsSteady q (step q))
        → (m1 m2 : Machine) × (cpu_clock d bus m ≡ clocked m1)
          × (cpu_clock d bus m1 ≡ clocked m2)
          × (m1.pc ≡ m.pcnext)
          × (m1.delay_insn ≡ true)
          × (m2.pc ≡ m.reg k)
          × (m2.pcnext ≡ (m.reg k + 4) % 2 ^ 32)
          × (m2.delay_insn ≡ false)
    unfolding update_pc
    cpu_clock-l_jr i j k step r' aligned known known' first second steady =
        let m1 = jumping k in
        let same = jumping-SameMemory k in
        let r1 : IsReachable m1.pc m1.mem =
          subst (λ pc. IsReachable pc m1.mem) (sym (jumping-pc k))
            (SameMemory-IsReachable m.pcnext m.mem m1.mem same r') in
        let word : word_at delayr delayw m1.pc m1 ≡ word_at delayr delayw m.pcnext m =
          ap (λ pc. word_at delayr delayw pc m1) (jumping-pc k)
          ∙ word_at-SameMemory delayr delayw m.pcnext m m1 same r' in
        let q = ready delayr delayw d m1 (jumping-IsPlain k) r1 in
        let s = fetched-SameBut delayr delayw m1 (jumping-IsPlain k) r1 in
        let next : (step q).pcnext ≡ m.reg k =
          (steady q).next ∙ ap (λ (x : Machine). x.pcnext) s ∙ jumping-pcnext k in
        let no_slot : (step q).next_delay_insn ≡ false =
          (steady q).no_slot ∙ ap (λ (x : Machine). x.next_delay_insn) s in
        (
          m1,
          update_pc (step q),
          jumps i k aligned known
              (first (ready delayr delayw d m plain r) (ready_insn delayr delayw d m plain r)),
          runs delayr delayw d m1 (jumping-IsPlain k) r1 j (step q) (ap d.insn_decode word ∙ known')
              (second q (ready_insn delayr delayw d m1 (jumping-IsPlain k) r1 ∙ word))
              (steady q).unbroken,
          jumping-pc k,
          refl,
          next,
          rw no_slot (ap (λ a. (a + 4) % 2 ^ 32) next),
          no_slot,
        )
