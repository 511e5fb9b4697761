-- ===== src/Machine/Access.antt =====
-- Reads and writes that the modelled functions make all over, and masks on 32-bit words.
use openrisc_tools.Prelude.{
  ℕ, ◌-◌, ◌^◌, Bool, true, false, Option, some, ◌>>=◌, ◌==◌, if◌then◌else◌, bit_and,
}
use openrisc_tools.Prelude.Int.{ℤ}
use openrisc_tools.Prelude.Update.{update}
use openrisc_tools.Sched.{Scheduler, sched_add}
use openrisc_tools.Machine.State.{Machine}

-- `~m` on a 32-bit word.
abbrev pub bit_not : ℕ → ℕ
bit_not m = 2 ^ 32 - 1 - m

-- `x & m` as a condition.
abbrev pub test : ℕ → ℕ → Bool
test x m = if bit_and x m == 0 then false else true

-- `x &= ~m`.
abbrev pub clear : ℕ → ℕ → ℕ
clear x m = bit_and x (bit_not m)

-- `cpu_state.sprs[n] = v`.
abbrev pub set_spr : ℕ → ℕ → Machine → Machine
set_spr n v m = record m { sprs = update m.sprs n v }

-- `cpu_state.reg[n] = v`.
abbrev pub set_reg : ℕ → ℕ → Machine → Machine
set_reg n v m = record m { reg = update m.reg n v }

-- A call of the scheduler, which has its own part of the state.
abbrev pub with_sched : (Scheduler → Option Scheduler) → Machine → Option Machine
with_sched f m = f m.sched >>= λ s. some (record m { sched = s })

-- `SCHED_ADD (f, p, t)`.
abbrev pub schedule_job : ℕ → ℕ → ℤ → Machine → Option Machine
schedule_job f p t = with_sched (sched_add f p t)

-- The addresses of the job functions of pic.c and tick.c.
abbrev pub pic_rep_int_fn : ℕ
pic_rep_int_fn = 2

abbrev pub tick_raise_except_fn : ℕ
tick_raise_except_fn = 3

abbrev pub tick_restart_fn : ℕ
tick_restart_fn = 4

abbrev pub tick_one_shot_fn : ℕ
tick_one_shot_fn = 5
