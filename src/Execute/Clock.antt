-- ===== src/Execute/Clock.antt =====
-- A clock of or1ksim/cpu/or32/execute.c whose instruction raises no trap of the debug unit.
use openrisc_tools.Prelude.{ℕ, ◌≡◌, ◌∙◌, refl, ap, ◌==◌, none, some, Option, if_true}
use openrisc_tools.Machine.{Machine, spr_eear_base}
use openrisc_tools.Memory.{Bus, ram_bus}
use openrisc_tools.Except.{except_handle, trap}
use openrisc_tools.Sprs.{Outcome, ran}
use openrisc_tools.Execute.Defs.{
  Decoder, clocked, update_pc, decode_execute, decode_execute_wrapper, trapped, advanced, cpu_clock,
  l_invalid,
}
use openrisc_tools.Execute.Fetch.{
  IsPlain, IsReachable, word_at, word_at-SameMemory, fetched, start, cpu_clock-plain,
}

module _ (delayr delayw : ℕ → ℕ) (d : Decoder) where
  abbrev bus : Bus
  bus = ram_bus delayr delayw

  module _ (m : Machine) (plain : IsPlain m) (r : IsReachable m.pc m.mem) where
    -- The state that the instruction runs on.
    abbrev pub ready : Machine
    ready = record (fetched delayr delayw m plain r) { breakpoint = 0 }

    pub ready_insn : ready.insn ≡ word_at delayr delayw m.pc m
    ready_insn =
        word_at-SameMemory delayr delayw m.pc m (start delayr delayw m plain r)
          (record { areas = refl; bytes = refl }) r

    clock_ran :
        (m' : Machine)
        → decode_execute d ready ≡ ran m'
        → m'.breakpoint ≡ 0
        → cpu_clock d bus m ≡ clocked (update_pc m')
    unfolding decode_execute_wrapper trapped advanced
    clock_ran m' e unbroken =
        cpu_clock-plain delayr delayw m plain r d
        ∙ ap (λ (o : Outcome). advanced (trapped o)) e
        ∙ ap (λ q. clocked (update_pc q))
            (if_true m' (except_handle trap (m'.sprs spr_eear_base) m')
              (ap (λ (k : ℕ). k == 0) unbroken))

    pub runs :
        (i : ℕ) (m' : Machine)
        → d.insn_decode (word_at delayr delayw m.pc m) ≡ some i
        → d.exec i ready ≡ ran m'
        → m'.breakpoint ≡ 0
        → cpu_clock d bus m ≡ clocked (update_pc m')
    unfolding decode_execute
    runs i m' known does unbroken =
        let decoded : d.insn_decode ready.insn ≡ some i = ap d.insn_decode ready_insn ∙ known in
        clock_ran m'
          (ap (λ (o : Option ℕ). elim o [ none ↦ ran (l_invalid ready) | some k ↦ d.exec k ready ])
              decoded
            ∙ does)
          unbroken

    pub unknown :
        d.insn_decode (word_at delayr delayw m.pc m) ≡ none
        → (l_invalid ready).breakpoint ≡ 0
        → cpu_clock d bus m ≡ clocked (update_pc (l_invalid ready))
    unfolding decode_execute
    unknown strange unbroken =
        let decoded : d.insn_decode ready.insn ≡ none = ap d.insn_decode ready_insn ∙ strange in
        clock_ran (l_invalid ready)
          (ap (λ (o : Option ℕ). elim o [ none ↦ ran (l_invalid ready) | some k ↦ d.exec k ready ])
            decoded)
          unbroken
