-- ===== src/Rsp/Settings.antt =====
-- A register that the debugger writes is the register that it reads, or1ksim/debug/rsp-server.c.
use openrisc_tools.Prelude.{
  ℕ, ◌%◌, ◌^◌, ◌<◌, ◌≡◌, ◌∙◌, refl, ap, arith, true, false, ltb, ◌==◌, Bool-cases, inl, inr, Option,
  none, some, List, IfOr,
}
use openrisc_tools.Prelude.Update.{update_self}
use openrisc_tools.Machine.{Machine, set_reg, set_spr, spr_ppc, spr_sr}
use openrisc_tools.Rsp.Hex.{hex2reg, reg2hex}
use openrisc_tools.Rsp.Digits.{hex2reg-reg2hex}
use openrisc_tools.Rsp.Registers.{
  num_gprs, ppc_regnum, npc_regnum, sr_regnum, set_npc, reg_value, set_value, rsp_read_reg,
  rsp_write_reg,
}

set_npc-pc :
    (addr v : ℕ) (m : Machine) → m.pc < 2 ^ 32 → addr % 2 ^ 32 ≡ v → (set_npc addr m).pc ≡ v
unfolding set_npc
set_npc-pc addr v m small e = ground (arith, small, e)

-- The register that was set has the value.
Holds : ℕ → ℕ → Machine → Type 0
Holds regnum v m =
    (m' : Machine) × (set_value regnum v m ≡ some m') × (reg_value regnum m' ≡ some (v % 2 ^ 32))

set_value-Holds : (regnum v : ℕ) (m : Machine) → m.pc < 2 ^ 32 → regnum < 35 → Holds regnum v m
unfolding Holds set_value reg_value
set_value-Holds regnum v m small known =
    let w = v % 2 ^ 32 in
    elim (Bool-cases (ltb regnum num_gprs)) [
      | inl gpr ↦ (
        set_reg regnum w m,
        rw (set_value, gpr) refl,
        rw (reg_value, gpr) (ap some (update_self m.reg regnum w)),
      )
      | inr no_gpr ↦ elim (Bool-cases (regnum == ppc_regnum)) [
        | inl ppc ↦ (
          set_spr spr_ppc w m,
          rw (set_value, no_gpr, ppc) refl,
          rw (reg_value, no_gpr, ppc) refl,
        )
        | inr no_ppc ↦ elim (Bool-cases (regnum == npc_regnum)) [
          | inl npc ↦ (
            set_npc v m,
            rw (set_value, no_gpr, no_ppc, npc) refl,
            rw (reg_value, no_gpr, no_ppc, npc) (ap some (set_npc-pc v w m small refl)),
          )
          | inr no_npc ↦
              let sr : (regnum == sr_regnum) ≡ true = ground arith in
              (
                set_spr spr_sr w m,
                rw (set_value, no_gpr, no_ppc, no_npc, sr) refl,
                rw (reg_value, no_gpr, no_ppc, no_npc, sr) refl,
              )
        ]
      ]
    ]

unknown :
    (regnum v : ℕ) (m : Machine)
    → ltb regnum 35 ≡ false
    → (set_value regnum v m ≡ none) × (reg_value regnum m ≡ none)
unfolding set_value reg_value
unknown regnum v m e =
    let gpr : ltb regnum num_gprs ≡ false = ground arith in
    let ppc : (regnum == ppc_regnum) ≡ false = ground arith in
    let npc : (regnum == npc_regnum) ≡ false = ground arith in
    let sr : (regnum == sr_regnum) ≡ false = ground arith in
    (rw (set_value, gpr, ppc, npc, sr) refl, rw (reg_value, gpr, ppc, npc, sr) refl)

-- For a 32-bit pc and value: a request to write a register, one of the 32 general ones, the previous
-- pc, the pc or SR, is answered with a state in which a request to read it gives the digits that
-- were written; any other register is refused by both requests.
pub rsp_read_reg-rsp_write_reg :
    (regnum v : ℕ) (m : Machine)
    → m.pc < 2 ^ 32
    → v < 2 ^ 32
    → IfOr
        (ltb regnum 35)
        ((m' : Machine) × (rsp_write_reg (some (regnum, reg2hex v)) m ≡ some m')
          × (rsp_read_reg (some regnum) m' ≡ some (reg2hex v)))
        ((rsp_write_reg (some (regnum, reg2hex v)) m ≡ none)
          × (rsp_read_reg (some regnum) m ≡ none))
unfolding rsp_read_reg rsp_write_reg Holds
rsp_read_reg-rsp_write_reg regnum v m small h =
    let reply = λ (o : Option ℕ).
      let r : Option (List ℕ) = elim o [ none ↦ none | some x ↦ some (reg2hex x) ] in r in
    elim (Bool-cases (ltb regnum 35)) [
      | inl known ↦
          let (m', set, same) =
            set_value-Holds regnum (hex2reg (reg2hex v)) m small (ground (arith, known)) in
          inl (known, (m', set, ap reply same ∙ ap (λ x. some (reg2hex x)) (hex2reg-reg2hex v h)))
      | inr strange ↦
          let (refused, nothing) = unknown regnum (hex2reg (reg2hex v)) m strange in
          inr (strange, (refused, ap reply nothing))
    ]
