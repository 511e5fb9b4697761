-- ===== src/Sprs/Links.antt =====
-- Writes that are read back, or1ksim/cpu/or1k/sprs.c.
use openrisc_tools.Prelude.{
  ℕ, ◌+◌, ◌-◌, ◌%◌, ◌^◌, ◌<◌, ◌≤◌, ◌≡◌, refl, ap, sym, false, [], ◌∷◌, ◌==◌, if◌then◌else◌, ◌&&◌,
  arith, Bool-cases, inl, inr,
}
use openrisc_tools.Prelude.Int.{pos, ◌-ℤ◌, to_u32}
use openrisc_tools.Prelude.Update.{Frame}
use openrisc_tools.Machine.{Machine, set_spr, set_reg, spr_ttcr, spr_ttmr, spr_npc}
use openrisc_tools.Sched.Room.{HasRoom}
use openrisc_tools.Tick.{spr_read_ttcr, spr_write_ttcr}
use openrisc_tools.Tick.Count.{count-now}
use openrisc_tools.Tick.Jobs.{sched_timer_job_lem}
use openrisc_tools.Sprs.Defs.{
  Caches, ran, mtspr, mfspr, run_hooks, write_cache, write_other, mask_dtlb, mask_itlb, write_npc,
  after,
}

-- A general purpose register is written and read through its number among the special ones: it
-- reads back the value, and no other general purpose register and no other special one changes.
pub mfspr-mtspr_link :
    (c : Caches) (regno value : ℕ) (m : Machine)
    → 0x400 ≤ regno
    → regno < 0x420
    → (m' : Machine) × (mtspr c regno value m ≡ ran m')
      × (mfspr regno m' ≡ value)
      × (m'.reg (regno - 0x400) ≡ value)
      × Frame ((regno - 0x400) ∷ []) m.reg m'.reg
      × Frame (regno ∷ []) m.sprs m'.sprs
unfolding mtspr mfspr run_hooks write_cache write_other mask_dtlb mask_itlb
mfspr-mtspr_link c regno value m h k = (
  set_reg (regno - 0x400) value (set_spr regno value m),
  ground arith,
  ground arith,
  ground arith,
  λ n. ground arith,
  λ n. ground arith,
)

-- With the guard queued and two free job structures, a 32-bit value written to TTCR reads back at
-- once, whether or not the timer counts.
pub mfspr-mtspr_ttcr :
    (c : Caches) (value : ℕ) (m : Machine)
    → HasRoom 2 m.sched
    → value < 2 ^ 32
    → (m' : Machine) × (mtspr c spr_ttcr value m ≡ ran m') × (mfspr spr_ttcr m' ≡ value)
unfolding mtspr mfspr run_hooks after spr_write_ttcr
mfspr-mtspr_ttcr c value m r h =
    let m1 = record (set_spr spr_ttcr value m) {
      cycle_count_at_tick_start = pos m.cycles -ℤ pos value;
    } in
    let (s, e, d) = sched_timer_job_lem (m1.sprs spr_ttmr) m1 r in
    (record m1 { sched = s }, ap after e, reads (record m1 { sched = s }) refl refl)
  where
    reads :
        (m' : Machine)
        → m'.sprs spr_ttcr ≡ value
        → m'.cycle_count_at_tick_start ≡ pos m'.cycles -ℤ pos value
        → spr_read_ttcr m' ≡ value
    reads m' stored start = elim (Bool-cases (m'.tick_counting == 0)) [
      | inl off ↦ unfold spr_read_ttcr in rw off stored
      | inr on ↦
          unfold spr_read_ttcr to_u32 in rw (on, start, count-now m'.cycles value) (omega arith)
    ]

-- A write of NPC moves the pc, sets the next one behind it and leaves the delay slot; it reads back
-- unless the configuration and the stall make it read 0. A write of the pc's own value keeps the
-- next pc and the delay slot.
pub mfspr-mtspr_npc :
    (c : Caches) (value : ℕ) (m : Machine)
    → (m' : Machine) × (mtspr c spr_npc value m ≡ ran m')
      × (m'.pc ≡ value)
      × (mfspr spr_npc m' ≡ (if m.config.strict_npc && m'.npc_not_valid then 0 else value))
      × (m'.delay_insn ≡ (if value == m.pc then m.delay_insn else false))
      × (m'.pcnext ≡ (if value == m.pc then m.pcnext else (value + 4) % 2 ^ 32))
unfolding mtspr mfspr run_hooks write_npc
mfspr-mtspr_npc c value m = elim (Bool-cases (value == m.pc)) [
  | inl same ↦
      let e : value ≡ m.pc = ground arith in
      (_, refl, rw same (sym e), rw same (ground (arith, e)), rw same, rw same)
  | inr new ↦ (_, refl, rw new, rw new, rw new, rw new)
]
