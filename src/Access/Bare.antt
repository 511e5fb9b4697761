-- ===== src/Access/Bare.antt =====
-- The accesses of or1ksim/cpu/common/abstract.c on a processor that uses neither MMU nor cache.
use openrisc_tools.Prelude.{
  ℕ, ◌%◌, ◌≡◌, ◌∙◌, refl, ap, arith, Bool, true, false, if◌then◌else◌, if_true, if_false,
}
use openrisc_tools.Machine.{Machine}
use openrisc_tools.Memory.{Width, Bus, bits, cut, evalsim_mem, setsim_mem}
use openrisc_tools.Memory.Stored.{bytes}
use openrisc_tools.Memory.Masks.{bit_and-low}
use openrisc_tools.Dmmu.{is_off, dmmu_translate, uncached}
use openrisc_tools.Machine.{spr_pcmr_sa, spr_pcmr_la}
use openrisc_tools.Watch.{Action}
use openrisc_tools.Dcache.{dc_simulate_read, dc_simulate_write}
use openrisc_tools.Except.{except_handle, align}
use openrisc_tools.Access.Data.{count_event, misaligned, watch, load, store, eval_mem, set_mem}

-- The data MMU, the data cache, the debug unit and the counters are off, and nothing is pending.
pub record IsBare (m : Machine) : Type 0 where
  pub mmu : is_off m ≡ true
  pub cache : m.config.dc.enabled ≡ false
  pub debug : m.config.debug_enabled ≡ false
  pub counters : m.config.pcu_enabled ≡ false
  pub quiet : m.except_pending ≡ false
  pub unbroken : m.breakpoint ≡ 0

pub aligned-misaligned : (w : Width) (addr : ℕ) → addr % bytes w ≡ 0 → misaligned w addr ≡ false
unfolding misaligned bits
aligned-misaligned Width.byte addr e = refl
aligned-misaligned Width.half addr e = let low = bit_and-low 1 addr in ground (arith, low, e)
aligned-misaligned Width.word addr e = let low = bit_and-low 2 addr in ground (arith, low, e)

pub cut-cut : (w : Width) (value : ℕ) → cut w (cut w value) ≡ cut w value
unfolding cut bits
cut-cut Width.byte value = omega arith
cut-cut Width.half value = omega arith
cut-cut Width.word value = omega arith

-- The accesses of a bare processor are those of the memory.
abbrev pub translated : ℕ → Machine → Machine
translated addr m = record m { data_ci = uncached addr }

pub translated-IsBare : (addr : ℕ) (m : Machine) → IsBare m → IsBare (translated addr m)
translated-IsBare addr m p = record {
  mmu = p.mmu;
  cache = p.cache;
  debug = p.debug;
  counters = p.counters;
  quiet = p.quiet;
  unbroken = p.unbroken;
}

pub watch-off :
    (action : Action) (udata : ℕ) (m : Machine)
    → m.config.debug_enabled ≡ false
    → watch action udata m ≡ m
unfolding watch
watch-off action udata m e = if_false _ _ e

translate-off :
    (addr : ℕ) (write : Bool) (m : Machine)
    → is_off m ≡ true
    → dmmu_translate addr write m ≡ (translated addr m, addr)
unfolding dmmu_translate
translate-off addr write m e = if_true _ _ e

store-bare :
    (bus : Bus) (w : Width) (addr value : ℕ) (m : Machine)
    → IsBare m
    → store bus w addr addr value m ≡ setsim_mem bus w addr addr value m
unfolding store
store-bare bus w addr value m p =
    let counted : count_event spr_pcmr_sa m ≡ m = if_false _ _ p.counters in
    let first : watch Action.store_address addr (count_event spr_pcmr_sa m) ≡ m =
      ap (watch Action.store_address addr) counted
      ∙ watch-off Action.store_address addr m p.debug in
    let second : watch Action.store_data value
          (watch Action.store_address addr (count_event spr_pcmr_sa m))
        ≡ m =
      ap (watch Action.store_data value) first ∙ watch-off Action.store_data value m p.debug in
    ap
      (λ (q : Machine).
        if q.config.dc.enabled
        then dc_simulate_write bus addr addr value w q
        else setsim_mem bus w addr addr value q)
      second
    ∙ if_false _ _ p.cache

pub set_mem-bare :
    (bus : Bus) (w : Width) (addr value : ℕ) (m : Machine)
    → IsBare m
    → misaligned w addr ≡ false
    → set_mem bus w addr value m ≡ setsim_mem bus w addr addr (cut w value) (translated addr m)
unfolding set_mem
set_mem-bare bus w addr value m p e =
    ap
      (λ (q : Machine × ℕ).
        if misaligned w addr
        then except_handle align addr m
        else if q.0.except_pending
        then q.0
        else store bus w addr q.1 (cut w value) q.0)
      (translate-off addr true m p.mmu)
    ∙ if_false _ _ e
    ∙ if_false _ _ p.quiet
    ∙ store-bare bus w addr (cut w value) (translated addr m) (translated-IsBare addr m p)

load-bare :
    (bus : Bus) (w : Width) (addr : ℕ) (m : Machine)
    → IsBare m
    → (evalsim_mem bus w addr addr m).0.config.debug_enabled ≡ false
    → let out = evalsim_mem bus w addr addr m in load bus w addr addr m ≡ (out.0, cut w out.1)
unfolding load
load-bare bus w addr m p still =
    let counted : count_event spr_pcmr_la m ≡ m = if_false _ _ p.counters in
    let first : watch Action.load_address addr (count_event spr_pcmr_la m) ≡ m =
      ap (watch Action.load_address addr) counted ∙ watch-off Action.load_address addr m p.debug in
    let out = evalsim_mem bus w addr addr m in
    ap
      (λ (q : Machine).
        let r : Machine × ℕ =
          if q.config.dc.enabled
          then dc_simulate_read bus addr addr w q
          else evalsim_mem bus w addr addr q in
        (watch Action.load_data (cut w r.1) r.0, cut w r.1))
      first
    ∙ ap (λ (r : Machine × ℕ). (watch Action.load_data (cut w r.1) r.0, cut w r.1))
        (if_false _ _ p.cache)
    ∙ ap (λ q. (q, cut w out.1)) (watch-off Action.load_data (cut w out.1) out.0 still)

pub eval_mem-bare :
    (bus : Bus) (w : Width) (addr : ℕ) (m : Machine)
    → IsBare m
    → misaligned w addr ≡ false
    → (evalsim_mem bus w addr addr (translated addr m)).0.config.debug_enabled ≡ false
    → let out = evalsim_mem bus w addr addr (translated addr m) in
      eval_mem bus w addr m ≡ (out.0, cut w out.1)
unfolding eval_mem
eval_mem-bare bus w addr m p e still =
    ap
      (λ (q : Machine × ℕ).
        let r : Machine × ℕ =
          if misaligned w addr
          then (except_handle align addr m, 0)
          else if q.0.except_pending
          then (q.0, 0)
          else load bus w addr q.1 q.0 in
        r)
      (translate-off addr false m p.mmu)
    ∙ if_false _ _ e
    ∙ if_false _ _ p.quiet
    ∙ load-bare bus w addr (translated addr m) (translated-IsBare addr m p) still
