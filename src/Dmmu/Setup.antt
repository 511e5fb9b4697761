-- ===== src/Dmmu/Setup.antt =====
-- A whole configuration section of or1ksim/mmu/dmmu.c: its start, its lines in any order, and its
-- end.
use openrisc_tools.Prelude.{
  ℕ, ◌^◌, ◌≤◌, ◌<◌, ◌≡◌, refl, List, [], ◌∷◌, arith, ◌&&◌, leb, Bool-cases, inl, inr,
}
use openrisc_tools.Machine.{Machine, Mmu}
use openrisc_tools.Support.{is_power2}
use openrisc_tools.Support.Powers.{is_power2_iff, pow-pos, log2_int-pow}
use openrisc_tools.Dmmu.Config.{
  show_dmp, dmmu_enabled, dmmu_nsets, dmmu_nways, dmmu_pagesize, dmmu_entrysize, dmmu_ustates,
  dmmu_missdelay, dmmu_hitdelay, dmmu_start_sec, dmmu_end_sec,
}
use openrisc_tools.Tlb.{IsConfigured}

-- The lines of the section.
pub data Setting : Type 0 where
  enabled nsets nways pagesize entrysize ustates missdelay hitdelay : ℕ → Setting

unfoldable pub configure : Setting → Machine → Machine
configure (enabled v) = dmmu_enabled v
configure (nsets v) = dmmu_nsets v
configure (nways v) = dmmu_nways v
configure (pagesize v) = dmmu_pagesize v
configure (entrysize v) = dmmu_entrysize v
configure (ustates v) = dmmu_ustates v
configure (missdelay v) = dmmu_missdelay v
configure (hitdelay v) = dmmu_hitdelay v

unfoldable pub configure_all : List Setting → Machine → Machine
configure_all [] m = m
configure_all (s ∷ ss) m = configure_all ss (configure s m)

-- The sizes that the setters accept.
pub record IsSized (nways nsets pagesize : ℕ) : Type 0 where
  pub ways : nways ≤ 4
  pub some_sets : 0 < nsets
  pub sets : nsets ≤ 128
  pub log_page : ℕ
  pub page : pagesize ≡ 2 ^ log_page

abbrev Sized : Mmu → Type 0
Sized mmu = IsSized mmu.nways mmu.nsets mmu.pagesize

configure-Sized : (s : Setting) (m : Machine) → Sized m.dmmu → Sized (configure s m).dmmu
unfolding configure dmmu_enabled show_dmp dmmu_nsets dmmu_nways dmmu_pagesize dmmu_entrysize
    dmmu_ustates dmmu_missdelay dmmu_hitdelay
configure-Sized (enabled v) m z = z
configure-Sized (nsets v) m z = elim (Bool-cases (is_power2 v && leb v 128)) [
  | inl fits ↦
      let p = (is_power2_iff v).0 (ground arith) in
      rw fits record {
        ways = z.ways;
        some_sets = ground (arith, p.1, pow-pos p.0);
        sets = ground arith;
        log_page = z.log_page;
        page = z.page;
      }
  | inr odd ↦ rw odd z
]
configure-Sized (nways v) m z = elim (Bool-cases (leb 1 v && leb v 4)) [
  | inl fits ↦ rw fits record {
    ways = ground arith;
    some_sets = z.some_sets;
    sets = z.sets;
    log_page = z.log_page;
    page = z.page;
  }
  | inr odd ↦ rw odd z
]
configure-Sized (pagesize v) m z = elim (Bool-cases (is_power2 v)) [
  | inl is_pow ↦
      let p = (is_power2_iff v).0 is_pow in
      rw is_pow
        record { ways = z.ways; some_sets = z.some_sets; sets = z.sets; log_page = p.0; page = p.1 }
  | inr odd ↦ rw odd z
]
configure-Sized (entrysize v) m z = elim (Bool-cases (is_power2 v)) [
  | inl is_pow ↦ rw is_pow z
  | inr odd ↦ rw odd z
]
configure-Sized (ustates v) m z = elim (Bool-cases (leb 2 v && leb v 4)) [
  | inl fits ↦ rw fits z
  | inr odd ↦ rw odd z
]
configure-Sized (missdelay v) m z = z
configure-Sized (hitdelay v) m z = z

configure_all-Sized :
    (ss : List Setting) (m : Machine) → Sized m.dmmu → Sized (configure_all ss m).dmmu
unfolding configure_all
configure_all-Sized [] m z = z
configure_all-Sized (s ∷ ss) m z = configure_all-Sized ss (configure s m) (configure-Sized s m z)

start-Sized : (fresh : Mmu) (m : Machine) → Sized (dmmu_start_sec fresh m).dmmu
unfolding dmmu_start_sec show_dmp
start-Sized fresh m = record {
  ways = omega arith;
  some_sets = omega arith;
  sets = omega arith;
  log_page = 13;
  page = refl;
}

-- What the end of a section computes from accepted sizes.
pub record IsReady (mmu : Mmu) : Type 0 where
  pub configured : IsConfigured mmu
  pub log_page : ℕ
  pub page : mmu.pagesize ≡ 2 ^ log_page
  pub shift : mmu.pagesize_log2 ≡ log_page

end-IsReady : (m : Machine) → Sized m.dmmu → IsReady (dmmu_end_sec m).dmmu
unfolding dmmu_end_sec
end-IsReady m z = record {
  configured = record { ways = z.ways; sets = omega (arith, z.sets, z.some_sets) };
  log_page = z.log_page;
  page = z.page;
  shift = rw z.page (log2_int-pow z.log_page);
}

-- After the section's start, any lines, and its end, the data MMU has at most four ways of at most
-- 128 sets, and shifts addresses by exactly the size of its pages.
pub dmmu_section-IsReady :
    (fresh : Mmu) (ss : List Setting) (m : Machine)
    → IsReady (dmmu_end_sec (configure_all ss (dmmu_start_sec fresh m))).dmmu
dmmu_section-IsReady fresh ss m =
    end-IsReady (configure_all ss (dmmu_start_sec fresh m))
      (configure_all-Sized ss (dmmu_start_sec fresh m) (start-Sized fresh m))
