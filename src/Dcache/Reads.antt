-- ===== src/Dcache/Reads.antt =====
-- Loads of words through the cache.
use mathlib.Core.Path.{subst}
use mathlib.Core.Bool.{true≢false}
use openrisc_tools.Prelude.{
  ℕ, ◌+◌, ◌-◌, ◌*◌, ◌%◌, ◌^◌, ◌<◌, ◌≡◌, ◌∙◌, sym, refl, ap, arith, ◌==◌, ==_refl, true, not, some,
  Option-cases, inl, inr, Bool-cases, if◌then◌else◌, ltb, ◌&&◌,
}
use openrisc_tools.Machine.{Area, Machine, Way, DcConfig}
use openrisc_tools.Memory.{Width, Bus, ram_bus, evalsim_mem}
use openrisc_tools.Memory.Map.{IsMapped}
use openrisc_tools.Memory.Flat.{area_of}
use openrisc_tools.Dcache.Ways.{
  dc_set, dc_tag, dc_find_way, dc_min_way, use_way, fill_way, set_ways,
}
use openrisc_tools.Dcache.Lines.{slot_of, dc_rounds, take_part, refill_line}
use openrisc_tools.Dcache.Simulate.{dc_is_off, count_miss, read_hit, read_miss, dc_simulate_read}
use openrisc_tools.Dcache.Backing.{word_of, evalsim_mem-IsRead}
use openrisc_tools.Dcache.Filled.{IsBlock, block_of, first_of, comes_all}
use openrisc_tools.Dcache.Refilled.{IsFilling, refill_line-IsFilling}
use openrisc_tools.Dcache.Coherent.{
  IsCoherent, HoldsWord, HoldsWord-same, holds_block, use_way-keeps, fill_way-line,
  dc_find_way_sound, count_miss-keeps, own_slot, own_word, first-lt, own_tag, own_block,
}

-- The result is the word in the memory, and the cache agrees with the memory.
abbrev pub IsFaithful : (ℕ → ℕ) → ℕ → Machine → Machine × ℕ → Type 0
IsFaithful delayr addr m out = (out.1 ≡ word_of delayr m.mem addr) × IsCoherent delayr out.0

-- A word of a way, in a later state with the same memory.
HoldsWord-later :
    (delayr : ℕ → ℕ) (m m' : Machine) (s j : ℕ) (old new : Way)
    → m'.mem.ram ≡ m.mem.ram
    → m'.mem.dev_list ≡ m.mem.dev_list
    → m'.config ≡ m.config
    → new.tagaddr ≡ old.tagaddr
    → new.line j ≡ old.line j
    → HoldsWord delayr m.mem m.config.dc s old j
    → HoldsWord delayr m'.mem m'.config.dc s new j
unfolding word_of area_of
HoldsWord-later delayr m m' s j old new ram list config tag line h =
    let words : (x : ℕ) → word_of delayr m'.mem x ≡ word_of delayr m.mem x =
      λ x. rw (ram, list) refl in
    subst (λ q. HoldsWord delayr m'.mem q.dc s new j) (sym config)
      (HoldsWord-same delayr m.mem m'.mem m.config.dc s j old new words tag line h)

module _ (delayr delayw : ℕ → ℕ) (addr vaddr : ℕ) (m : Machine) (h : addr < 2 ^ 32)
    (aligned : addr % 4 ≡ 0) (sized : IsBlock m.config.dc) (some_sets : 0 < m.config.dc.nsets)
    (p : IsMapped m.mem) (areas : ℕ → Area)
    (inside : (j : ℕ)
      → area_of m.mem (block_of m.config.dc addr + 4 * (j % dc_rounds m.config.dc))
        ≡ some (areas j))
    (fine : IsCoherent delayr m) where
  abbrev c : DcConfig
  c = m.config.dc

  abbrev set : ℕ
  set = dc_set c addr

  abbrev bus : Bus
  bus = ram_bus delayr delayw

  -- Round the cache.
  passed : IsFaithful delayr addr m (evalsim_mem bus Width.word addr vaddr m)
  passed =
      let q = evalsim_mem-IsRead delayr delayw addr vaddr m h p in
      (
        q.value,
        λ s w j.
            let out = (evalsim_mem bus Width.word addr vaddr m).0 in
            let way : out.dc.sets s w ≡ m.dc.sets s w = ap (λ d. d.sets s w) q.dc in
            HoldsWord-later delayr m out s j (m.dc.sets s w) (out.dc.sets s w) q.ram q.areas
              q.config (ap (λ x. x.tagaddr) way) (ap (λ x. x.line j) way) (fine s w j),
      )

  -- The word wanted, in a way with its tag.
  held :
      (w : ℕ)
      → (m.dc.sets set w).tagaddr ≡ dc_tag c addr
      → (m.dc.sets set w).line (first_of c addr) ≡ word_of delayr m.mem addr
  held w tag = elim (fine set w (first_of c addr)) [
    | inl (own, e) ↦
        e
        ∙ ap (λ b. word_of delayr m.mem (b + 4 * first_of c addr))
            (own_block c addr sized h (m.dc.sets set w) some_sets tag)
        ∙ ap (word_of delayr m.mem) (own_word c addr sized h aligned)
    | inr (free, e) ↦
        absurd
          (true≢false (sym (rw (tag, own_tag c addr sized h, first-lt c addr sized h) refl) ∙ free))
  ]

  hit :
      (w : ℕ)
      → dc_find_way (m.dc.sets set) (dc_tag c addr) c.nways ≡ some w
      → IsFaithful delayr addr m (read_hit Width.word addr w m)
  unfolding read_hit take_part
  hit w e =
      let used = use_way-keeps c w (m.dc.sets set) in
      let tag = dc_find_way_sound (m.dc.sets set) (dc_tag c addr) c.nways w e in
      (
        rw (==_refl set) (
            ap (λ f. f (slot_of c addr)) (used w).0
            ∙ ap (m.dc.sets set w).line (own_slot c addr sized h)
            ∙ held w tag),
        λ s i j. elim (Bool-cases (s == set)) [
          | inl here ↦
              let same : set ≡ s = ground (arith, here) in
              rw here (
                HoldsWord-same delayr m.mem m.mem c s j (m.dc.sets set i)
                  (use_way c w (m.dc.sets set) i) (λ x. refl) (used i).1 (ap (λ f. f j) (used i).0)
                  (subst (λ q. HoldsWord delayr m.mem c s (m.dc.sets q i) j) (sym same)
                    (fine s i j)))
          | inr other ↦ rw other (fine s i j)
        ],
      )

  -- The states of a miss.
  abbrev minway : ℕ
  minway = (dc_min_way (m.dc.sets set) (c.ustates - 1) c.nways).1

  abbrev m1 : Machine
  m1 = record m { dc = record m.dc { readmiss = m.dc.readmiss + 1 } }

  abbrev m2 : Machine
  m2 = (refill_line bus addr set minway 0 (dc_rounds c) m1).0

  abbrev m3 : Machine
  m3 =
      let put = set_ways set (fill_way c minway (dc_tag c addr) (m2.dc.sets set)) m2 in
      record put { mem_cycles = put.mem_cycles + c.load_missdelay }

  begins : IsFilling delayr addr set minway 0 m1 m1
  begins = record {
    ram = refl;
    areas = refl;
    config = refl;
    others = λ s w. elim (Bool-cases (s == set && w == minway)) [
      | inl mine ↦ inl (mine, tt)
      | inr theirs ↦ inr (theirs, refl)
    ];
    filled = λ j. inr (ground arith, tt);
  }

  marked :
      (s i : ℕ)
      → ((m3.dc.sets s i).line ≡ (m2.dc.sets s i).line)
        × ((m3.dc.sets s i).tagaddr
            ≡ (if s == set && i == minway then dc_tag c addr else (m2.dc.sets s i).tagaddr))
  marked s i = elim (Bool-cases (s == set)) [
    | inl here ↦
        let same : set ≡ s = ground (arith, here) in
        let f = fill_way-line c minway (dc_tag c addr) (m2.dc.sets set) i in
        rw here (
          f.0 ∙ ap (λ q. (m2.dc.sets q i).line) same,
          f.1 ∙ ap (λ q. if i == minway then dc_tag c addr else (m2.dc.sets q i).tagaddr) same,
        )
    | inr other ↦ rw other (refl, refl)
  ]

  -- The lines are refilled.
  filled_line :
      (f : IsFilling delayr addr set minway (dc_rounds c) m1 m2) (j : ℕ)
      → ltb j (dc_rounds c) ≡ true
      → (m3.dc.sets set minway).line j ≡ word_of delayr m.mem (block_of c addr + 4 * j)
  filled_line f j k =
      let inside_block : j < dc_rounds c = ground (arith, k) in
      elim (f.filled j) [
        | inl (now, e) ↦ ap (λ l. l j) (marked set minway).0 ∙ e
        | inr (never, e) ↦ absurd (true≢false (sym (comes_all c addr j sized inside_block) ∙ never))
      ]

  filled_way :
      (f : IsFilling delayr addr set minway (dc_rounds c) m1 m2) (j : ℕ)
      → HoldsWord delayr m.mem c set (m3.dc.sets set minway) j
  filled_way f j =
      let tag : (m3.dc.sets set minway).tagaddr ≡ dc_tag c addr =
        (marked set minway).1 ∙ rw (==_refl set, ==_refl minway) refl in
      let holds : holds_block (m3.dc.sets set minway) ≡ true =
        ap (λ q. not (q == 2 ^ 32 - 1)) tag ∙ rw (own_tag c addr sized h) refl in
      elim (Bool-cases (ltb j (dc_rounds c))) [
        | inl k ↦
            let block = own_block c addr sized h (m3.dc.sets set minway) some_sets tag in
            inl (
              ap (λ q. q && ltb j (dc_rounds c)) holds ∙ k,
              filled_line f j k ∙ ap (λ b. word_of delayr m.mem (b + 4 * j)) (sym block),
            )
        | inr k ↦ inr (ap (λ q. q && ltb j (dc_rounds c)) holds ∙ k, tt)
      ]

  -- The state before the misses are counted agrees with the memory.
  refilled : IsFilling delayr addr set minway (dc_rounds c) m1 m2 → IsCoherent delayr m3
  refilled f s i j = elim (f.others s i) [
    | inl (mine, e) ↦
        let in_set : set ≡ s = ground (arith, mine) in
        let in_way : minway ≡ i = ground (arith, mine) in
        let here =
          HoldsWord-later delayr m m3 set j (m3.dc.sets set minway) (m3.dc.sets set minway) f.ram
            f.areas f.config refl refl (filled_way f j) in
        subst (λ q. HoldsWord delayr m3.mem m3.config.dc q (m3.dc.sets q i) j) in_set
          (subst (λ q. HoldsWord delayr m3.mem m3.config.dc set (m3.dc.sets set q) j) in_way here)
    | inr (theirs, e) ↦
        HoldsWord-later delayr m m3 s j (m.dc.sets s i) (m3.dc.sets s i) f.ram f.areas f.config
          ((marked s i).1 ∙ rw theirs (ap (λ x. x.tagaddr) e))
          (ap (λ l. l j) (marked s i).0 ∙ ap (λ x. x.line j) e) (fine s i j)
  ]

  miss : IsFaithful delayr addr m (read_miss bus Width.word addr m)
  unfolding read_miss take_part
  miss =
      let run =
        refill_line-IsFilling delayr delayw addr set minway m1 h sized p areas inside (dc_rounds c)
          0 m1 (omega arith) begins in
      let counted = count_miss-keeps m3 in
      let m4 = count_miss m3 in
      let config : m4.config ≡ m.config = counted.2 ∙ run.1.config in
      rw run.0 (
        ap (λ q. (m4.dc.sets (dc_set q.dc addr) minway).line (slot_of q.dc addr)) config
            ∙ ap (λ d. (d.sets set minway).line (slot_of c addr)) counted.1
            ∙ ap (m3.dc.sets set minway).line (own_slot c addr sized h)
            ∙ filled_line run.1 (first_of c addr) (first-lt c addr sized h)
            ∙ ap (word_of delayr m.mem) (own_word c addr sized h aligned),
        λ s i j.
            HoldsWord-later delayr m3 m4 s j (m3.dc.sets s i) (m4.dc.sets s i)
              (ap (λ q. q.ram) counted.0) (ap (λ q. q.dev_list) counted.0) counted.2
              (ap (λ d. (d.sets s i).tagaddr) counted.1) (ap (λ d. (d.sets s i).line j) counted.1)
              (refilled run.1 s i j),
      )

  -- Over plain memory, where every word that the cache holds is the one in the memory, its blocks
  -- are of 16 or 32 bytes and it has a set, the memory map is in order, and the block of a 32-bit
  -- address lies in the memory: a load of an aligned word through the cache, be it switched off, a
  -- hit or a miss, gives the word in the memory (0 where the block may not be read), and every word
  -- that the cache holds afterwards is still the one in the memory.
  pub dc_simulate_read_lem : IsFaithful delayr addr m (dc_simulate_read bus addr vaddr Width.word m)
  unfolding dc_simulate_read
  dc_simulate_read_lem = elim (Bool-cases (dc_is_off m)) [
    | inl off ↦ rw off passed
    | inr on ↦ elim (Option-cases (dc_find_way (m.dc.sets set) (dc_tag c addr) c.nways)) [
      | inl nowhere ↦ rw (on, nowhere) miss
      | inr (w, found) ↦ rw (on, found) (hit w found)
    ]
  ]
