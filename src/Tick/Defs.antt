-- ===== src/Tick/Defs.antt =====
-- The registers, the jobs and the operations. The cycle counter is a `long long` that only grows;
-- the start of the count is one that can be negative.
use openrisc_tools.Prelude.{
  ℕ, ◌+◌, ◌-◌, ◌%◌, ◌^◌, not, ◌&&◌, Option, some, ◌>>=◌, ◌==◌, leb, if◌then◌else◌, bit_and, bit_or,
}
use openrisc_tools.Prelude.Int.{pos, ◌-ℤ◌, to_u32}
use openrisc_tools.Sched.{sched_find_remove, sched_next_insn}
use openrisc_tools.Machine.{
  Machine, set_spr, test, clear, schedule_job, with_sched, tick_raise_except_fn, tick_restart_fn,
  tick_one_shot_fn, spr_ttmr, spr_ttcr, spr_sr, spr_eear_base, spr_sr_tee, spr_ttmr_tp, spr_ttmr_ip,
  spr_ttmr_ie, spr_ttmr_m, spr_ttmr_rt, spr_ttmr_sr, spr_ttmr_cr,
}
use openrisc_tools.Except.{except_handle}
use openrisc_tools.Except

unfoldable pub tick_reset : Machine → Machine
tick_reset m = record (set_spr spr_ttmr 0 (set_spr spr_ttcr 0 m)) { tick_counting = 0 }

unfoldable pub tick_raise_except : Machine → Option Machine
tick_raise_except m = do
  m' ←
      with_sched (sched_next_insn tick_raise_except_fn 0)
        (set_spr spr_ttmr (bit_or (m.sprs spr_ttmr) spr_ttmr_ip) m)
  some (
      if test (m'.sprs spr_sr) spr_sr_tee
      then except_handle Except.tick (m'.sprs spr_eear_base) m'
      else m')

unfoldable pub tick_restart : Machine → Option Machine
tick_restart m =
    let m' = record (set_spr spr_ttcr 0 m) { cycle_count_at_tick_start = pos m.cycles } in
    schedule_job tick_restart_fn 0 (pos (bit_and (m'.sprs spr_ttmr) spr_ttmr_tp)) m'

unfoldable pub tick_one_shot : Machine → Machine
tick_one_shot m = record (set_spr spr_ttcr (bit_and (m.sprs spr_ttmr) spr_ttmr_tp) m) {
  tick_counting = 0;
}

unfoldable pub spr_read_ttcr : Machine → ℕ
spr_read_ttcr m =
    if m.tick_counting == 0
    then m.sprs spr_ttcr
    else to_u32 (pos m.cycles -ℤ m.cycle_count_at_tick_start)

-- The cycles until the counted part of TTCR meets TTMR[TP], which may be after it wraps.
unfoldable pub cycles_until_except : ℕ → ℕ → ℕ
cycles_until_except match_ttmr match_ttcr =
    if leb match_ttcr match_ttmr
    then match_ttmr - match_ttcr
    else (match_ttmr + (0x0fff_ffff - match_ttcr) + 1) % 2 ^ 32

-- `SCHED_FIND_REMOVE (f, NULL)`.
abbrev pub unschedule : ℕ → Machine → Machine
unschedule f m = record m { sched = sched_find_remove f 0 m.sched }

-- The jobs of the previous mode are taken off.
unfoldable pub drop_timer_jobs : ℕ → Machine → Machine
drop_timer_jobs prev_ttmr m =
    let ttmr = m.sprs spr_ttmr in
    let m1 =
      if test prev_ttmr spr_ttmr_ie && not (test ttmr spr_ttmr_ip)
      then unschedule tick_raise_except_fn m
      else m in
    let mode = bit_and prev_ttmr spr_ttmr_m in
    if mode == spr_ttmr_rt
    then unschedule tick_restart_fn m1
    else if mode == spr_ttmr_sr
    then unschedule tick_one_shot_fn m1
    else m1

-- `if ((ttmr & SPR_TTMR_IE) && !(ttmr & SPR_TTMR_IP)) SCHED_ADD (tick_raise_except, NULL, t)`.
unfoldable pub add_raise : ℕ → ℕ → Machine → Option Machine
add_raise ttmr t m =
    if test ttmr spr_ttmr_ie && not (test ttmr spr_ttmr_ip)
    then schedule_job tick_raise_except_fn 0 (pos t) m
    else some m

-- The `switch` on the new mode.
unfoldable pub add_timer_jobs : ℕ → ℕ → Machine → Option Machine
unfolding add_raise
add_timer_jobs ttmr t m =
    let mode = bit_and ttmr spr_ttmr_m in
    if mode == 0
    then if t == 0 then add_raise ttmr 0 m else some m
    else if mode == spr_ttmr_rt
    then schedule_job tick_restart_fn 0 (pos t) m >>= add_raise ttmr t
    else if mode == spr_ttmr_sr
    then if m.tick_counting == 0
      then some m
      else schedule_job tick_one_shot_fn 0 (pos t) m >>= add_raise ttmr t
    else if mode == spr_ttmr_cr
    then add_raise ttmr t m
    else some m

unfoldable pub sched_timer_job : ℕ → Machine → Option Machine
unfolding spr_read_ttcr cycles_until_except drop_timer_jobs add_timer_jobs
sched_timer_job prev_ttmr m =
    let ttmr = m.sprs spr_ttmr in
    let match_ttmr = bit_and ttmr spr_ttmr_tp in
    let match_ttcr = bit_and (spr_read_ttcr m) spr_ttmr_tp in
    add_timer_jobs ttmr (cycles_until_except match_ttmr match_ttcr) (drop_timer_jobs prev_ttmr m)

unfoldable pub spr_write_ttcr : ℕ → Machine → Option Machine
unfolding sched_timer_job
spr_write_ttcr value m =
    let m' = record m { cycle_count_at_tick_start = pos m.cycles -ℤ pos value } in
    sched_timer_job (m'.sprs spr_ttmr) m'

-- A timer that counts stores its count in TTCR.
unfoldable pub latch_count : Machine → Machine
latch_count m =
    if m.tick_counting == 0
    then m
    else set_spr spr_ttcr (to_u32 (pos m.cycles -ℤ m.cycle_count_at_tick_start)) m

-- The end of `spr_write_ttmr` before it schedules: the count goes on from TTCR.
unfoldable pub resume_count : ℕ → Machine → Machine
resume_count value m =
    let mode = bit_and value spr_ttmr_m in
    let at_match = m.sprs spr_ttcr == bit_and value spr_ttmr_tp in
    record m {
      cycle_count_at_tick_start = pos m.cycles -ℤ pos (m.sprs spr_ttcr);
      tick_counting = if mode == spr_ttmr_cr && at_match then 0 else mode;
    }

unfoldable pub start_timer : Machine → Machine
unfolding latch_count resume_count
start_timer m =
    let value = m.sprs spr_ttmr in
    resume_count value (latch_count (set_spr spr_ttmr (clear value spr_ttmr_ip) m))

unfoldable pub spr_write_ttmr : ℕ → Machine → Option Machine
unfolding start_timer sched_timer_job
spr_write_ttmr prev_val m = sched_timer_job prev_val (start_timer m)
