-- ===== src/Insn/Branch.antt =====
-- Conditional branches with the branch predictor, `l.j`, and the shifts of
-- or1ksim/cpu/or32/insnset.c.
use openrisc_tools.Prelude.{
  ℕ, ◌+◌, ◌-◌, ◌*◌, ◌/◌, ◌%◌, ◌^◌, Bool, true, not, leb, ltb, ◌==◌, if◌then◌else◌, Option, none,
  some, bit_or, bit_and,
}
use openrisc_tools.Prelude.Update.{update}
use openrisc_tools.Machine.{Machine, test, spr_sr, spr_sr_f}
use openrisc_tools.Predict.{bpb_update, btic_update}
use openrisc_tools.Sprs.{Outcome, ran, ended}
use openrisc_tools.Insn.Flags.{setsim_reg, is_negative}

abbrev pub flag : Machine → Bool
flag m = test (m.sprs spr_sr) spr_sr_f

abbrev pub count_branch : (ℕ → ℕ → ℕ) → ℕ → ℕ → ℕ → ℕ → ℕ
count_branch counts taken fwd =
    update counts taken (update (counts taken) fwd (counts taken fwd + 1))

-- The branch itself: the operand is the distance in words.
unfoldable pub branch_if : Bool → ℕ → Machine → Machine
unfolding btic_update
branch_if taken a m =
    if taken
    then record (btic_update m.pcnext (record m { pc_delay = (m.pc + a * 4) % 2 ^ 32 })) {
      next_delay_insn = true;
    }
    else btic_update m.pc m

unfoldable pub l_bf : ℕ → Machine → Machine
unfolding branch_if bpb_update
l_bf a m =
    let taken = if flag m then 1 else 0 in
    let fwd = if leb m.pc a then 1 else 0 in
    let counted = record m { bf = count_branch m.bf taken fwd } in
    let m1 = if m.config.bpb_enabled then bpb_update m.insn_addr taken counted else m in
    branch_if (flag m1) a m1

unfoldable pub l_bnf : ℕ → Machine → Machine
unfolding branch_if bpb_update
l_bnf a m =
    let taken = if flag m then 0 else 1 in
    let fwd = if leb m.pc a then 1 else 0 in
    let counted = record m { bnf = count_branch m.bnf taken fwd } in
    let m1 = if m.config.bpb_enabled then bpb_update m.insn_addr taken counted else m in
    branch_if (not (flag m1)) a m1

-- A jump to itself is the end of the program: the memory is dumped and the simulation is over.
unfoldable pub l_j : ℕ → Machine → Outcome
l_j a m =
    if a == 0
    then ended
    else ran (record m { pc_delay = (m.pc + a * 4) % 2 ^ 32; next_delay_insn = true })

-- Shifts. By 32 and more they are not defined in C, and give `none`.
unfoldable pub l_sll : ℕ → ℕ → ℕ → Machine → Option Machine
unfolding setsim_reg
l_sll d a b m = if ltb b 32 then some (setsim_reg d (a * 2 ^ b % 2 ^ 32) m) else none

unfoldable pub l_srl : ℕ → ℕ → ℕ → Machine → Option Machine
unfolding setsim_reg
l_srl d a b m = if ltb b 32 then some (setsim_reg d (a / 2 ^ b) m) else none

-- An arithmetic shift: ones come in from the left of a negative number.
unfoldable pub l_sra : ℕ → ℕ → ℕ → Machine → Option Machine
unfolding setsim_reg
l_sra d a b m =
    let shifted = a / 2 ^ b in
    let value = if is_negative a then 2 ^ 32 - 2 ^ (32 - b) + shifted else shifted in
    if ltb b 32 then some (setsim_reg d value m) else none

-- A rotation by 0 shifts by 32.
unfoldable pub l_ror : ℕ → ℕ → ℕ → Machine → Option Machine
unfolding setsim_reg
l_ror d a b m =
    let k = bit_and b 0x1f in
    if k == 0 then none else some (setsim_reg d (bit_or (a / 2 ^ k) (a * 2 ^ (32 - k) % 2 ^ 32)) m)
