-- ===== src/Sched/Next.antt =====
-- `sched_next_insn`: the time at which it files the job.
use openrisc_tools.Prelude.{All, ℕ, suc, ◌≡◌, refl, ap, List, [], ◌∷◌, arith, true, false}
use openrisc_tools.Prelude.Int.{ℤ, pos, negsuc, ◌-ℤ◌, ◌≤ℤ◌, ltb_ℤ, int_laws}
use openrisc_tools.Sched.Defs.{Entry, Scheduler, overdue_cycles, sched_add, sched_next_insn}
use openrisc_tools.Sched.Deadlines.{IsOrdered}

overdue_cycles-NonNeg :
    (c : ℤ) (es : List Entry) → All (λ e. pos 0 ≤ℤ e.time) es → overdue_cycles c es ≡ c
unfolding overdue_cycles
overdue_cycles-NonNeg c [] a = refl
overdue_cycles-NonNeg c (e ∷ es) a =
    let late : ltb_ℤ e.time (pos 0) ≡ false = ground arith in rw late

-- The cycles by which the first job is late.
unfoldable pub lateness : ℤ → ℕ
lateness (pos n) = 0
lateness (negsuc n) = suc n

overdue_cycles_lem :
    (cur : Entry) (rest : List Entry) (t : ℤ)
    → cur.time ≡ t
    → IsOrdered (cur ∷ rest)
    → overdue_cycles (pos 1) (cur ∷ rest) ≡ pos (suc (lateness t))
unfolding overdue_cycles lateness
overdue_cycles_lem cur rest (pos n) e a = rw e (ground arith)
overdue_cycles_lem cur rest (negsuc n) e a =
    let sum : pos 1 -ℤ negsuc n ≡ pos (suc (suc n)) = omega int_laws in
    let late : ltb_ℤ (negsuc n) (pos 0) ≡ true = ground arith in
    rw (e, late, sum) (overdue_cycles-NonNeg (pos (suc (suc n))) rest a)

-- In an ordered queue the job is filed one cycle from now only if the first job is not overdue; it
-- is filed as many cycles later as the first job is late.
pub sched_next_insn_lem :
    (s : Scheduler) (f p : ℕ) (cur : Entry) (rest : List Entry)
    → s.job_queue ≡ cur ∷ rest
    → IsOrdered s.job_queue
    → sched_next_insn f p s ≡ sched_add f p (pos (suc (lateness cur.time))) s
unfolding sched_next_insn
sched_next_insn_lem s f p cur rest jobs a =
    ap (λ c. sched_add f p c s) (rw jobs (overdue_cycles_lem cur rest cur.time refl (rw jobs at a)))
