-- ===== src/Sprs/Defs.antt =====
-- The two operations, and the registers that a write treats in its own way.
use openrisc_tools.Prelude.{
  ℕ, ◌+◌, ◌-◌, ◌*◌, ◌%◌, ◌^◌, Bool, true, false, not, ◌&&◌, Option, none, some, ◌==◌, leb, ltb,
  if◌then◌else◌, bit_and, bit_or,
}
use openrisc_tools.Machine.{
  Machine, set_spr, set_reg, test, spr_ttcr, spr_ttmr, spr_dcbpr, spr_dcbfr, spr_dcbir, spr_dcbwr,
  spr_dcblr, spr_icbpr, spr_icbir, spr_icblr, spr_sr, spr_npc, spr_picsr, spr_picmr, spr_pmr,
  spr_fpcsr, spr_sr_fo, spr_sr_iee, spr_pmr_sume, spr_dtlbmr_v, spr_dtlbmr_pl1, spr_dtlbmr_cid,
  spr_dtlbmr_lru, spr_dtlbtr_cc, spr_dtlbtr_ci, spr_dtlbtr_wbc, spr_dtlbtr_wom, spr_dtlbtr_a,
  spr_dtlbtr_d, spr_dtlbtr_ure, spr_dtlbtr_uwe, spr_dtlbtr_sre, spr_dtlbtr_swe, spr_itlbmr_v,
  spr_itlbmr_pl1, spr_itlbmr_cid, spr_itlbmr_lru, spr_itlbtr_cc, spr_itlbtr_ci, spr_itlbtr_wbc,
  spr_itlbtr_wom, spr_itlbtr_a, spr_itlbtr_d, spr_itlbtr_sxe, spr_itlbtr_uxe,
}
use openrisc_tools.Pic.{pic_ints_en}
use openrisc_tools.Tick.{spr_write_ttcr, spr_write_ttmr, spr_read_ttcr}
use openrisc_tools.Dmmu.{peek_into_dtlb, spr_dtlbmr_base}
use openrisc_tools.Immu.{peek_into_itlb, spr_itlbmr_base}

-- The operations of the caches that a write calls, on the state they share with it.
pub record Caches : Type 0 where
  pub dc_simulate_read : ℕ → ℕ → ℕ → Machine → Machine
  pub dc_inv : ℕ → Machine → Machine
  pub ic_simulate_fetch : ℕ → ℕ → Machine → Machine
  pub ic_inv : ℕ → Machine → Machine

-- A write returns, reads through a null pointer in the scheduler, or ends the simulation.
pub data Outcome : Type 0 where
  ran : Machine → Outcome
  faulted ended : Outcome

unfoldable pub after : Option Machine → Outcome
after none = faulted
after (some m) = ran m

unfoldable pub write_dcbpr : Caches → ℕ → Machine → Machine
write_dcbpr c value m =
    let (m', phys) = peek_into_dtlb value false true m in
    set_spr spr_dcbpr 0 (c.dc_simulate_read phys value 4 m')

unfoldable pub write_icbpr : Caches → ℕ → Machine → Machine
write_icbpr c value m = set_spr spr_icbpr 0 (c.ic_simulate_fetch (peek_into_itlb value m) value m)

unfoldable pub write_sr : ℕ → ℕ → Machine → Option Machine
write_sr prev_val value m =
    let m' = set_spr spr_sr (bit_or (m.sprs spr_sr) spr_sr_fo) m in
    if test value spr_sr_iee && not (test prev_val spr_sr_iee) then pic_ints_en m' else some m'

-- The debugger has moved the pc; a delayed branch is forgotten.
unfoldable pub write_npc : ℕ → Machine → Machine
write_npc value m = if value == m.pc then m else record m {
  pc = value;
  delay_insn = false;
  pcnext = (value + 4) % 2 ^ 32;
  npc_not_valid = if m.stalled then true else m.npc_not_valid;
}

unfoldable pub write_picsr : ℕ → Machine → Machine
write_picsr prev_val m = if m.config.pic_edge_trigger then m else set_spr spr_picsr prev_val m

unfoldable pub write_picmr : Machine → Option Machine
write_picmr m =
    let m' =
      if m.config.pic_use_nmi then set_spr spr_picmr (bit_or (m.sprs spr_picmr) 3) m else m in
    if test (m'.sprs spr_sr) spr_sr_iee then pic_ints_en m' else some m'

-- The fields that a match and a translation register of the data TLB keep, beside the page.
abbrev pub dtlbmr_kept : ℕ
dtlbmr_kept = spr_dtlbmr_v + spr_dtlbmr_pl1 + spr_dtlbmr_cid + spr_dtlbmr_lru

abbrev pub dtlbtr_kept : ℕ
dtlbtr_kept =
    spr_dtlbtr_cc + spr_dtlbtr_ci + spr_dtlbtr_wbc + spr_dtlbtr_wom + spr_dtlbtr_a + spr_dtlbtr_d
    + spr_dtlbtr_ure + spr_dtlbtr_uwe + spr_dtlbtr_sre + spr_dtlbtr_swe

abbrev pub itlbmr_kept : ℕ
itlbmr_kept = spr_itlbmr_v + spr_itlbmr_pl1 + spr_itlbmr_cid + spr_itlbmr_lru

abbrev pub itlbtr_kept : ℕ
itlbtr_kept =
    spr_itlbtr_cc + spr_itlbtr_ci + spr_itlbtr_wbc + spr_itlbtr_wom + spr_itlbtr_a + spr_itlbtr_d
    + spr_itlbtr_sxe + spr_itlbtr_uxe

-- `regno >= BASE (0) && regno < LAST (3)`: the last register of the unit is not below the bound.
abbrev pub in_tlb : ℕ → ℕ → Bool
in_tlb base regno = leb base regno && ltb regno (base + 0xff + 3 * 0x100)

unfoldable pub mask_dtlb : ℕ → ℕ → Machine → Machine
mask_dtlb regno value m =
    if in_tlb (spr_dtlbmr_base 0) regno
    then set_spr regno
        (bit_or (bit_and value m.dmmu.page_mask)
          (bit_and value (if ltb (regno % 256) 0x80 then dtlbmr_kept else dtlbtr_kept)))
        m
    else m

unfoldable pub mask_itlb : ℕ → ℕ → Machine → Machine
mask_itlb regno value m =
    if in_tlb (spr_itlbmr_base 0) regno
    then set_spr regno
        (bit_or (bit_and value m.immu.page_mask)
          (bit_and value (if ltb (regno % 256) 0x80 then itlbmr_kept else itlbtr_kept)))
        m
    else m

-- `regno >= 0x0400 && regno < 0x0420`.
abbrev pub is_link : ℕ → Bool
is_link regno = leb 0x400 regno && ltb regno 0x420

-- The `default` case.
unfoldable pub write_other : ℕ → ℕ → Machine → Machine
unfolding mask_dtlb mask_itlb
write_other regno value m =
    let m' = mask_itlb regno value (mask_dtlb regno value m) in
    if is_link regno then set_reg (regno - 0x400) value m' else m'

-- The cases of the caches' registers, and the `default` case.
unfoldable pub write_cache : Caches → ℕ → ℕ → Machine → Machine
unfolding write_dcbpr write_icbpr write_other
write_cache c regno value m =
    if regno == spr_dcbpr
    then write_dcbpr c value m
    else if regno == spr_dcbfr
    then set_spr spr_dcbfr (2 ^ 32 - 1) (c.dc_inv value m)
    else if regno == spr_dcbir
    then set_spr spr_dcbir 0 (c.dc_inv value m)
    else if regno == spr_dcbwr
    then set_spr spr_dcbwr 0 m
    else if regno == spr_dcblr
    then set_spr spr_dcblr 0 m
    else if regno == spr_icbpr
    then write_icbpr c value m
    else if regno == spr_icbir
    then set_spr spr_icbir 0 (c.ic_inv value m)
    else if regno == spr_icblr
    then set_spr spr_icblr 0 m
    else write_other regno value m

-- The register hooks, once the value is stored.
unfoldable pub run_hooks : Caches → ℕ → ℕ → ℕ → Machine → Outcome
unfolding after write_sr write_npc write_picsr write_picmr write_cache
run_hooks c regno prev_val value m =
    if regno == spr_ttcr
    then after (spr_write_ttcr value m)
    else if regno == spr_ttmr
    then after (spr_write_ttmr prev_val m)
    else if regno == spr_sr
    then after (write_sr prev_val value m)
    else if regno == spr_npc
    then ran (write_npc value m)
    else if regno == spr_picsr
    then ran (write_picsr prev_val m)
    else if regno == spr_picmr
    then after (write_picmr m)
    else if regno == spr_pmr
    then if not (m.config.pm_enabled == 0) && test value spr_pmr_sume then ended else ran m
    else ran (write_cache c regno value m)

unfoldable pub mtspr : Caches → ℕ → ℕ → Machine → Outcome
unfolding run_hooks
mtspr c regno value m = run_hooks c regno (m.sprs regno) value (set_spr regno value m)

unfoldable pub mfspr : ℕ → Machine → ℕ
mfspr regno m =
    if regno == spr_npc
    then if m.config.strict_npc && m.npc_not_valid then 0 else m.pc
    else if regno == spr_ttcr
    then spr_read_ttcr m
    else if regno == spr_fpcsr
    then if m.config.hardfloat then m.sprs spr_fpcsr else 0
    else if is_link regno
    then m.reg (regno - 0x400)
    else m.sprs regno
