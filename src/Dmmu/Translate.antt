-- ===== src/Dmmu/Translate.antt =====
-- The branches of the translation of or1ksim/mmu/dmmu.c.
use openrisc_tools.Prelude.{
  ℕ, ◌+◌, ◌*◌, ◌<◌, ◌≡◌, ap, sym, ◌∙◌, Bool, true, false, none, some, inl, inr, Bool-cases, arith,
  if◌then◌else◌, IfOr, bit_and,
}
use openrisc_tools.Dmmu.Search.{found_at}
use mathlib.Core.Path.{subst}
use openrisc_tools.Prelude.Update.{Frame-at}
use openrisc_tools.Machine.{Machine, spr_dsr, spr_pcmr_dtlbm}
use openrisc_tools.Except.{dsr_mask, dpf, dtlbmiss, except_handle}
use openrisc_tools.Except.Delivery.{IsDelivered, written_sprs, except_handle-IsDelivered}
use openrisc_tools.Pcu.{pcu_count_event}
use openrisc_tools.Dmmu.Defs.{
  first_way, dmmu_find_tlbmr, touch, is_denied, is_off, hit, miss, uncached, dmmu_translate,
}
use openrisc_tools.Tlb.{physical, IsConfigured}
use openrisc_tools.Dmmu.Touch.{touch-tr, touch-high, denied_after}

-- With translation switched off, or with no data MMU, an address is its own translation; the access
-- goes round the cache from 0x80000000 on, and nothing else changes.
pub dmmu_translate_off :
    (virtaddr : ℕ) (write_access : Bool) (m : Machine)
    → is_off m ≡ true
    → dmmu_translate virtaddr write_access m ≡ (record m { data_ci = uncached virtaddr }, virtaddr)
unfolding dmmu_translate
dmmu_translate_off virtaddr write_access m off = rw off

-- What a translation leaves on a hit of the register `r`.
pub record IsHit (virtaddr r : ℕ) (write_access : Bool) (m : Machine) (out : Machine × ℕ)
    : Type 0 where
  pub address : out.1 ≡ physical m.dmmu (m.sprs (r + 128)) virtaddr
  pub fault :
      IfOr
        (is_denied m write_access (m.sprs (r + 128)))
        (IsDelivered dpf virtaddr (touch virtaddr r m) out.0)
        (out.0 ≡ touch virtaddr r m)

hit-IsHit :
    (virtaddr w : ℕ) (write_access : Bool) (m : Machine)
    → IsConfigured m.dmmu
    → w < m.dmmu.nways
    → bit_and (m.sprs spr_dsr) (dsr_mask dpf) ≡ 0
    → let r = first_way m.dmmu virtaddr + w * 256 in
      IsHit virtaddr r write_access m (hit virtaddr write_access r m)
hit-IsHit virtaddr w write_access m c lt unmasked =
    elim (Bool-cases (is_denied m write_access (m.sprs (r + 128)))) [
      | inl denied ↦ record {
        address =
            unfold hit in
            rw (test denied)
              (ap (λ tr. physical m.dmmu tr virtaddr) (kept ∙ touch-tr virtaddr w m));
        fault = inl (denied, unfold hit in rw (test denied) faults);
      }
      | inr allowed ↦ record {
        address =
            unfold hit in
            rw (test allowed) (ap (λ tr. physical m.dmmu tr virtaddr) (touch-tr virtaddr w m));
        fault = inr (allowed, unfold hit in rw (test allowed));
      }
    ]
  where
    r : ℕ
    r = first_way m.dmmu virtaddr + w * 256

    touched : Machine
    touched = touch virtaddr r m

    test :
        {b : Bool}
        → is_denied m write_access (m.sprs (r + 128)) ≡ b
        → is_denied touched write_access (touched.sprs (r + 128)) ≡ b
    test e = denied_after virtaddr w write_access m ∙ e

    faults : IsDelivered dpf virtaddr touched (except_handle dpf virtaddr touched)
    faults = except_handle-IsDelivered dpf virtaddr touched (
        ap (λ d. bit_and d (dsr_mask dpf)) (touch-high virtaddr w spr_dsr m c lt (omega arith))
        ∙ unmasked)

    kept : (except_handle dpf virtaddr touched).sprs (r + 128) ≡ touched.sprs (r + 128)
    kept = Frame-at written_sprs touched.sprs _ (r + 128) faults.others (ground arith)

-- With translation switched on, at most four ways of at most 128 sets, and the page fault not
-- masked by the debug unit, a page that the TLB holds is translated by its translation register and
-- the offset of the address. An access that the protection bits deny in the mode of SR delivers the
-- data page fault with that address; any other leaves only what the hit itself does.
pub dmmu_translate-IsHit :
    (virtaddr r : ℕ) (write_access : Bool) (m : Machine)
    → IsConfigured m.dmmu
    → bit_and (m.sprs spr_dsr) (dsr_mask dpf) ≡ 0
    → is_off m ≡ false
    → dmmu_find_tlbmr virtaddr m ≡ some r
    → IsHit virtaddr r write_access m (dmmu_translate virtaddr write_access m)
unfolding dmmu_translate
dmmu_translate-IsHit virtaddr r write_access m c unmasked on e =
    let (w, lt, at) = found_at virtaddr r m e in
    rw (on, e)
      (subst (λ r. IsHit virtaddr r write_access m (hit virtaddr write_access r m)) (sym at)
        (hit-IsHit virtaddr w write_access m c lt unmasked))

-- The state in which a miss raises its exception.
abbrev pub missed : Machine → Machine
missed m = record m {
  loads_tlbmiss = m.loads_tlbmiss + 1;
  mem_cycles = m.mem_cycles + m.dmmu.missdelay;
}

-- With translation switched on and the TLB miss not masked by the debug unit, a page that no way
-- holds delivers the data TLB miss with the address, is counted where the performance counters are
-- enabled, and answers 0.
pub dmmu_translate_miss :
    (virtaddr : ℕ) (write_access : Bool) (m : Machine)
    → bit_and (m.sprs spr_dsr) (dsr_mask dtlbmiss) ≡ 0
    → is_off m ≡ false
    → dmmu_find_tlbmr virtaddr m ≡ none
    → let out = dmmu_translate virtaddr write_access m in
      (out.1 ≡ 0)
      × (m' : Machine) × IsDelivered dtlbmiss virtaddr (missed m) m'
      × (out.0 ≡ (if m'.config.pcu_enabled then pcu_count_event spr_pcmr_dtlbm m' else m'))
unfolding dmmu_translate miss
dmmu_translate_miss virtaddr write_access m unmasked on e = (
  rw (on, e),
  except_handle dtlbmiss virtaddr (missed m),
  except_handle-IsDelivered dtlbmiss virtaddr (missed m) unmasked,
  rw (on, e),
)
