-- ===== src/Tick/Count.antt =====
-- The count: TTCR across writes and cycles, and the cycles until the next match.
use openrisc_tools.Prelude.{
  ℕ, ◌+◌, ◌%◌, ◌^◌, ◌<◌, ◌≡◌, ◌≢◌, refl, ◌∙◌, ◌==◌, arith, Bool-cases, inl, inr, ==_ne,
}
use openrisc_tools.Prelude.Int.{ℤ, pos, negsuc, ◌-ℤ◌, to_u32, int_laws}
use openrisc_tools.Machine.{Machine, set_spr, clear, spr_ttmr, spr_ttcr, spr_ttmr_ip}
use openrisc_tools.Tick.Defs.{
  latch_count, resume_count, spr_read_ttcr, cycles_until_except, start_timer,
}

-- For a period and a count of 28 bits, the wait until the match is below 2 ^ 28, so it fits an
-- `int32_t`, and after it the counted part of TTCR equals the period.
pub cycles_until_except_lem :
    (match_ttmr match_ttcr : ℕ)
    → match_ttmr < 2 ^ 28
    → match_ttcr < 2 ^ 28
    → let wait = cycles_until_except match_ttmr match_ttcr in
      (wait < 2 ^ 28) × ((match_ttcr + wait) % 2 ^ 28 ≡ match_ttmr)
unfolding cycles_until_except
cycles_until_except_lem a b h k = ground arith

-- `k` cycles go by.
abbrev pub pass : ℕ → Machine → Machine
pass k m = record m { cycles = m.cycles + k }

count-restarted : (c k v : ℕ) → pos (c + k) -ℤ (pos c -ℤ pos v) ≡ pos (v + k)
count-restarted c k v = omega int_laws

pub count-now : (c v : ℕ) → pos c -ℤ (pos c -ℤ pos v) ≡ pos v
count-now c v = omega int_laws

-- The start of the count that a write of TTCR sets.
pub read-restart :
    (m : Machine) (k v : ℕ)
    → m.tick_counting ≢ 0
    → m.cycle_count_at_tick_start ≡ pos m.cycles -ℤ pos v
    → spr_read_ttcr (pass k m) ≡ (v + k) % 2 ^ 32
unfolding spr_read_ttcr to_u32
read-restart m k v on e = rw (==_ne m.tick_counting 0 on, e, count-restarted m.cycles k v)

to_u32-lt : (z : ℤ) → to_u32 z < 2 ^ 32
unfolding to_u32
to_u32-lt (pos n) = omega arith
to_u32-lt (negsuc n) = omega arith

latch_count_lem :
    (m : Machine)
    → m.sprs spr_ttcr < 2 ^ 32
    → ((latch_count m).sprs spr_ttcr ≡ spr_read_ttcr m) × ((latch_count m).sprs spr_ttcr < 2 ^ 32)
unfolding latch_count spr_read_ttcr
latch_count_lem m h = elim (Bool-cases (m.tick_counting == 0)) [
  | inl off ↦ rw off (refl, h)
  | inr on ↦ rw on (refl, to_u32-lt (pos m.cycles -ℤ m.cycle_count_at_tick_start))
]

read-resume_count :
    (value : ℕ) (m : Machine)
    → m.sprs spr_ttcr < 2 ^ 32
    → spr_read_ttcr (resume_count value m) ≡ m.sprs spr_ttcr
unfolding resume_count spr_read_ttcr to_u32
read-resume_count value m h = rw (count-now m.cycles (m.sprs spr_ttcr)) (ground arith)

-- A write of TTMR, whatever it turns the timer into, leaves the count that TTCR reads.
pub read-start_timer :
    (m : Machine) → m.sprs spr_ttcr < 2 ^ 32 → spr_read_ttcr (start_timer m) ≡ spr_read_ttcr m
unfolding start_timer
read-start_timer m h =
    let written = set_spr spr_ttmr (clear (m.sprs spr_ttmr) spr_ttmr_ip) m in
    let latched = latch_count_lem written h in
    read-resume_count (m.sprs spr_ttmr) (latch_count written) latched.1
    ∙ latched.0
    ∙ (unfold spr_read_ttcr in refl)
