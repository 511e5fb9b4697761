-- ===== src/Pcu.antt =====
-- The performance counters unit, or1ksim/pcu/pcu.c.
use openrisc_tools.Prelude.{
  ℕ, zero, suc, ◌+◌, ◌-◌, ◌%◌, ◌^◌, Bool, not, ◌&&◌, ◌||◌, if◌then◌else◌, bit_or,
}
use openrisc_tools.Machine.{
  Machine, set_spr, test, clear, spr_sr, spr_sr_sm, spr_upr, spr_pcmr_cism, spr_pcmr_cium,
  spr_upr_pcup, spr_pcmr_cp,
}

abbrev pub spr_pccr : ℕ → ℕ
spr_pccr n = 0x3800 + n

abbrev pub spr_pcmr : ℕ → ℕ
spr_pcmr n = 0x3800 + 8 + n

-- The test of one round: the event is selected, in the mode that the processor is in.
unfoldable pub counts : ℕ → ℕ → Machine → Bool
counts event i m =
    let mode = m.sprs (spr_pcmr i) in
    test event mode
    && (test mode spr_pcmr_cism && test (m.sprs spr_sr) spr_sr_sm
        || test mode spr_pcmr_cium && not (test (m.sprs spr_sr) spr_sr_sm))

unfoldable pub count_one : ℕ → ℕ → Machine → Machine
unfolding counts
count_one event i m =
    if counts event i m then set_spr (spr_pccr i) ((m.sprs (spr_pccr i) + 1) % 2 ^ 32) m else m

-- The loop, from counter 8 - left on.
unfoldable pub count_loop : ℕ → ℕ → Machine → Machine
unfolding count_one
count_loop event zero m = m
count_loop event (suc left) m = count_loop event left (count_one event (8 - suc left) m)

unfoldable pub pcu_count_event : ℕ → Machine → Machine
unfolding count_loop
pcu_count_event event m = count_loop event 8 m

-- The eight assignments of the setter.
unfoldable pub set_pcmrs : ℕ → ℕ → Machine → Machine
set_pcmrs v zero m = m
set_pcmrs v (suc left) m = set_pcmrs v left (set_spr (spr_pcmr (8 - suc left)) v m)

-- The setter of the configuration.
unfoldable pub set_pcu_enabled : Bool → Machine → Machine
unfolding set_pcmrs
set_pcu_enabled val m =
    let upr = m.sprs spr_upr in
    let m' =
      if val
      then set_pcmrs spr_pcmr_cp 8 (set_spr spr_upr (bit_or upr spr_upr_pcup) m)
      else set_spr spr_upr (clear upr spr_upr_pcup) m in
    record m' { config = record m'.config { pcu_enabled = val } }
