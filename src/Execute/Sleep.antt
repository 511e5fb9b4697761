-- ===== src/Execute/Sleep.antt =====
-- The doze and sleep modes of `exec_main`, or1ksim/cpu/or32/execute.c.
use openrisc_tools.Prelude.{
  ℕ, ◌≤◌, ◌==◌, arith, false, ◌≡◌, ◌∙◌, ap, true, not, ◌||◌, Option, if◌then◌else◌, bit_and, bit_or,
  Bool-cases, inl, inr,
}
use openrisc_tools.Prelude.Bits.{bit_and_comm, bit_and_assoc, bit_and-zero}
use openrisc_tools.Machine.{Machine, spr_pmr, spr_pmr_dme, spr_pmr_sme}
use openrisc_tools.Memory.{Bus}
use openrisc_tools.Execute.Defs.{Decoder, clocked, cpu_clock}
use openrisc_tools.Execute.Main.{is_asleep, end_round, exec_round}

-- The bit of the configuration is not one of the register.
no_mode : (pmr : ℕ) → bit_and 1 (bit_and pmr (bit_or spr_pmr_dme spr_pmr_sme)) ≡ 0
no_mode pmr = bit_and_comm 1 (bit_and pmr 0x30) ∙ bit_and_assoc pmr 0x30 1 ∙ bit_and-zero pmr

is_asleep-never :
    (m : Machine) → m.config.pm_enabled ≤ 1 → (m.config.pm_enabled == 0 || not (is_asleep m)) ≡ true
is_asleep-never m h = elim (Bool-cases (m.config.pm_enabled == 0)) [
  | inl off ↦ rw off
  | inr on ↦
      let one : m.config.pm_enabled ≡ 1 = ground (arith, h, on) in
      ap
        (λ (enabled : ℕ).
          enabled == 0
          || not (if bit_and enabled (bit_and (m.sprs spr_pmr) 0x30) == 0 then false else true))
        one
      ∙ ap (λ (k : ℕ). not (if k == 0 then false else true)) (no_mode (m.sprs spr_pmr))
]

-- Where power management is enabled by a 1, or not at all: every round of the main loop has its
-- clock of the processor, whatever mode the power management register asks for.
pub exec_round_clocks :
    (d : Decoder) (bus : Bus) (call : ℕ → ℕ → Machine → Option Machine) (fuel : ℕ) (m : Machine)
    → m.config.pm_enabled ≤ 1
    → exec_round d bus call fuel m
      ≡ end_round call fuel m.cycles (cpu_clock d bus (record m { mem_cycles = 0 }))
unfolding exec_round
exec_round_clocks d bus call fuel m h =
    let m1 = record m { mem_cycles = 0 } in
    ap (λ b. end_round call fuel m.cycles (if b then cpu_clock d bus m1 else clocked m1))
      (is_asleep-never m h)
