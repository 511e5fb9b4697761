-- ===== src/Execute/Illegal.antt =====
-- The clock of a word that is no instruction, or1ksim/cpu/or32/execute.c.
use openrisc_tools.Prelude.{
  ℕ, ◌+◌, ◌%◌, ◌^◌, ◌≡◌, ◌∙◌, refl, ap, false, none, if◌then◌else◌, in_both, bit_and,
}
use openrisc_tools.Machine.{
  Machine, test, spr_sr, spr_dsr, spr_ppc, spr_epcr_base, spr_esr_base, spr_eear_base, spr_sr_sm,
  spr_sr_eph,
}
use openrisc_tools.Memory.{Bus, ram_bus}
use openrisc_tools.Except.{
  except_handle, illegal, before_delay, dsr_mask, debug_ignore_exception, set_stall_state, deliver,
  vector, exception_pc, save_pc,
}
use openrisc_tools.Except.Delivery.{except_handle-IsDelivered, handler_bits, entered}
use openrisc_tools.Execute.Defs.{Decoder, clocked, update_pc, cpu_clock, l_invalid, prefix}
use openrisc_tools.Execute.Fetch.{IsPlain, IsReachable, word_at, fetched-SameBut, fetched_insn_addr}
use openrisc_tools.Execute.Clock.{ready, unknown}

module _ (delayr delayw : ℕ → ℕ) (d : Decoder) where
  abbrev bus : Bus
  bus = ram_bus delayr delayw

  module _ (m : Machine) (plain : IsPlain m) (r : IsReachable m.pc m.mem) where
    -- What the handler of a word that is no instruction finds.
    pub record IsIllegal (m' : Machine) : Type 0 where
      pub at_vector : m'.pc ≡ 0x700 + prefix m
      pub behind : m'.pcnext ≡ (0x700 + prefix m + 4) % 2 ^ 32
      pub no_delay : m'.delay_insn ≡ false
      pub supervisor : bit_and (m'.sprs spr_sr) handler_bits ≡ spr_sr_sm
      pub saved_status : m'.sprs spr_esr_base ≡ m.sprs spr_sr
      pub saved_address : m'.sprs spr_eear_base ≡ m.pc
      pub saved_pc : m'.sprs spr_epcr_base ≡ before_delay m m.pc
      pub previous : m'.sprs spr_ppc ≡ m.pc

    -- The exception leaves the rest of the state of a clock.
    kept_by :
        (q : Machine)
        → let q' = l_invalid q in
          (q'.breakpoint ≡ q.breakpoint) × (q'.next_delay_insn ≡ q.next_delay_insn) × (q'.pc ≡ q.pc)
    unfolding l_invalid except_handle debug_ignore_exception set_stall_state deliver
    kept_by q =
        let out = debug_ignore_exception illegal q in
        in_both
          (λ (q' : Machine).
            (q'.breakpoint ≡ q.breakpoint)
            × (q'.next_delay_insn ≡ q.next_delay_insn)
            × (q'.pc ≡ q.pc))
          out.1 out.0 (deliver illegal q.insn_addr out.0) (refl, refl, refl) (refl, refl, refl)

    -- For a processor without MMUs, caches, debug unit, counters and breakpoints, whose pc is in
    -- an area of a memory map in order, and an exception that the debugger does not mask: the
    -- clock of a word that cannot be decoded goes on at the vector of the illegal instruction,
    -- in supervisor mode and out of a delay slot, with the status, the address of the word, and
    -- the address to come back to, which is the jump in front of a delay slot, saved.
    pub cpu_clock-IsIllegal :
        d.insn_decode (word_at delayr delayw m.pc m) ≡ none
        → bit_and (m.sprs spr_dsr) (dsr_mask illegal) ≡ 0
        → (m' : Machine) × (cpu_clock d bus m ≡ clocked m') × IsIllegal m'
    unfolding update_pc l_invalid entered vector exception_pc save_pc before_delay
    cpu_clock-IsIllegal strange unmasked =
        let q = ready delayr delayw d m plain r in
        let s = fetched-SameBut delayr delayw m plain r in
        let sprs = ap (λ (x : Machine). x.sprs) s in
        let (unbroken, no_slot, here) = kept_by q in
        let out = l_invalid q in
        let p =
          except_handle-IsDelivered illegal q.insn_addr q
            (ap (λ (f : ℕ → ℕ). bit_and (f spr_dsr) (dsr_mask illegal)) sprs ∙ unmasked) in
        let slot : out.next_delay_insn ≡ false =
          no_slot ∙ ap (λ (x : Machine). x.next_delay_insn) s in
        let target : out.pcnext ≡ 0x700 + prefix m =
          p.enters
          ∙ ap (λ (f : ℕ → ℕ). 0x700 + (if test (f spr_sr) spr_sr_eph then 0xf000_0000 else 0))
              sprs in
        let address = fetched_insn_addr delayr delayw m plain r in
        (
          update_pc out,
          unknown delayr delayw d m plain r strange unbroken,
          record {
            at_vector = target;
            behind = rw slot (ap (λ a. (a + 4) % 2 ^ 32) target);
            no_delay = slot;
            supervisor = p.supervisor;
            saved_status = p.saved_status ∙ ap (λ (f : ℕ → ℕ). f spr_sr) sprs;
            saved_address = p.saved_address ∙ address;
            saved_pc = p.saved_pc ∙ ap (λ (x : Machine). before_delay x x.pc) s;
            previous = here ∙ ap (λ (x : Machine). x.pc) s;
          },
        )
