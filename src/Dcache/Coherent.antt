-- ===== src/Dcache/Coherent.antt =====
-- The words that the cache holds are those of the memory.
use mathlib.Core.Option.{some_inj, none-ne-some}
use native.Mathlib.Nat.{div-add-mod, div-le_self, mul_comm}
use openrisc_tools.Prelude.{
  ℕ, zero, suc, ◌+◌, ◌-◌, ◌*◌, ◌/◌, ◌%◌, ◌^◌, ◌<◌, ◌≡◌, ◌∙◌, sym, refl, ap, arith, ◌==◌, ==_refl,
  true, false, not, some, inl, inr, Bool-cases, if◌then◌else◌, ltb, Bool, ◌&&◌, IfOr,
}
use openrisc_tools.Machine.{Memory, Machine, Way, DcConfig, spr_pcmr_dcm}
use openrisc_tools.Pcu.{pcu_count_event, count_loop, count_one, counts}
use openrisc_tools.Memory.Masks.{bit_and-low}
use openrisc_tools.Dcache.Ways.{dc_set, dc_tag, dc_find_way, use_way, fill_way}
use openrisc_tools.Dcache.Lines.{slot_of, dc_rounds}
use openrisc_tools.Dcache.Simulate.{count_miss}
use openrisc_tools.Dcache.Backing.{word_of}
use openrisc_tools.Dcache.Filled.{IsBlock, block_of, first_of}

-- The way holds a block.
abbrev pub holds_block : Way → Bool
holds_block way = not (way.tagaddr == 2 ^ 32 - 1)

-- The first byte of the block that a way of a set holds.
abbrev pub held_block : DcConfig → ℕ → Way → ℕ
held_block c s way = (way.tagaddr * c.nsets + s) * c.blocksize

abbrev pub HoldsWord : (ℕ → ℕ) → Memory → DcConfig → ℕ → Way → ℕ → Type 0
HoldsWord delayr mem c s way j =
    IfOr (holds_block way && ltb j (dc_rounds c))
      (way.line j ≡ word_of delayr mem (held_block c s way + 4 * j)) Unit

-- Every word of every block that the cache holds is the one in the memory.
abbrev pub IsCoherent : (ℕ → ℕ) → Machine → Type 0
IsCoherent delayr m = (s w j : ℕ) → HoldsWord delayr m.mem m.config.dc s (m.dc.sets s w) j

-- A way with the same tag and the same words, in the same memory.
pub HoldsWord-same :
    (delayr : ℕ → ℕ) (mem mem' : Memory) (c : DcConfig) (s j : ℕ) (old new : Way)
    → ((x : ℕ) → word_of delayr mem' x ≡ word_of delayr mem x)
    → new.tagaddr ≡ old.tagaddr
    → new.line j ≡ old.line j
    → HoldsWord delayr mem c s old j
    → HoldsWord delayr mem' c s new j
HoldsWord-same delayr mem mem' c s j old new words tag line h = elim h [
  | inl (held, e) ↦ inl (rw tag held, line ∙ e ∙ rw tag (sym (words (held_block c s old + 4 * j))))
  | inr (free, e) ↦ inr (rw tag free, tt)
]

pub use_way-keeps :
    (c : DcConfig) (way : ℕ) (ways : ℕ → Way) (i : ℕ)
    → ((use_way c way ways i).line ≡ (ways i).line)
      × ((use_way c way ways i).tagaddr ≡ (ways i).tagaddr)
unfolding use_way
use_way-keeps c way ways i = elim (Bool-cases (i == way)) [
  | inl here ↦
      let same : way ≡ i = ground (arith, here) in
      rw here (ap (λ q. (ways q).line) same, ap (λ q. (ways q).tagaddr) same)
  | inr other ↦ rw other (refl, refl)
]

pub fill_way-line :
    (c : DcConfig) (way tagaddr : ℕ) (ways : ℕ → Way) (i : ℕ)
    → ((fill_way c way tagaddr ways i).line ≡ (ways i).line)
      × ((fill_way c way tagaddr ways i).tagaddr ≡ (if i == way then tagaddr else (ways i).tagaddr))
unfolding fill_way
fill_way-line c way tagaddr ways i = elim (Bool-cases (i == way)) [
  | inl here ↦
      let same : way ≡ i = ground (arith, here) in
      rw (here, ==_refl way) (ap (λ q. (ways q).line) same, refl)
  | inr other ↦ rw other (refl, refl)
]

-- The way that a search answers with has the tag.
pub dc_find_way_sound :
    (ways : ℕ → Way) (tagaddr n w : ℕ)
    → dc_find_way ways tagaddr n ≡ some w
    → (ways w).tagaddr ≡ tagaddr
unfolding dc_find_way
dc_find_way_sound ways tagaddr zero w e = absurd (none-ne-some w e)
dc_find_way_sound ways tagaddr (suc n) w e = elim (Bool-cases ((ways n).tagaddr == tagaddr)) [
  | inl hit ↦
      let found : (ways n).tagaddr ≡ tagaddr = ground (arith, hit) in
      ap (λ q. (ways q).tagaddr) (sym (some_inj.0 (rw (dc_find_way, hit) at e))) ∙ found
  | inr miss ↦ dc_find_way_sound ways tagaddr n w (rw (dc_find_way, miss) at e)
]

-- The counters of the performance unit are special purpose registers.
count_one-keeps :
    (event i : ℕ) (m : Machine)
    → ((count_one event i m).mem ≡ m.mem)
      × ((count_one event i m).dc ≡ m.dc)
      × ((count_one event i m).config ≡ m.config)
unfolding count_one
count_one-keeps event i m = elim (Bool-cases (counts event i m)) [
  | inl yes_count ↦ rw yes_count (refl, refl, refl)
  | inr no_count ↦ rw no_count (refl, refl, refl)
]

count_loop-keeps :
    (event left : ℕ) (m : Machine)
    → ((count_loop event left m).mem ≡ m.mem)
      × ((count_loop event left m).dc ≡ m.dc)
      × ((count_loop event left m).config ≡ m.config)
unfolding count_loop
count_loop-keeps event zero m = (refl, refl, refl)
count_loop-keeps event (suc left) m =
    let one = count_one-keeps event (8 - suc left) m in
    let rest = count_loop-keeps event left (count_one event (8 - suc left) m) in
    (rest.0 ∙ one.0, rest.1 ∙ one.1, rest.2 ∙ one.2)

pub count_miss-keeps :
    (m : Machine)
    → ((count_miss m).mem ≡ m.mem) × ((count_miss m).dc ≡ m.dc) × ((count_miss m).config ≡ m.config)
unfolding pcu_count_event
count_miss-keeps m = elim (Bool-cases m.config.pcu_enabled) [
  | inl on ↦ simp on (count_loop-keeps spr_pcmr_dcm 8 m)
  | inr off ↦ simp off (refl, refl, refl)
]

-- The word wanted, in its block.
module _ (c : DcConfig) (addr : ℕ) (sized : IsBlock c) (h : addr < 2 ^ 32) where
  pub own_slot : slot_of c addr ≡ first_of c addr
  own_slot = elim sized [
    | inl e ↦ rw e (rw (bit_and-low 4 addr) (omega arith))
    | inr e ↦ rw e (rw (bit_and-low 5 addr) (omega arith))
  ]

  pub own_word : addr % 4 ≡ 0 → block_of c addr + 4 * first_of c addr ≡ addr
  own_word aligned = elim sized [
    | inl e ↦ rw e (omega (arith, aligned))
    | inr e ↦ rw e (omega (arith, aligned))
  ]

  pub first-lt : ltb (first_of c addr) (dc_rounds c) ≡ true
  first-lt = elim sized [ inl e ↦ rw e (ground arith) | inr e ↦ rw e (ground arith) ]

  pub own_tag : (dc_tag c addr == 2 ^ 32 - 1) ≡ false
  own_tag =
      let small : addr / c.blocksize < 2 ^ 28 = elim sized [
        | inl e ↦ rw e (omega (arith, h))
        | inr e ↦ rw e (omega (arith, h))
      ] in
      ground (arith, small, div-le_self (addr / c.blocksize) c.nsets)

  pub own_block :
      (way : Way)
      → 0 < c.nsets
      → way.tagaddr ≡ dc_tag c addr
      → held_block c (dc_set c addr) way ≡ block_of c addr
  own_block way some_sets e =
      let q = addr / c.blocksize in
      let whole : q / c.nsets * c.nsets + q % c.nsets ≡ q =
        omega (arith, div-add-mod q c.nsets, mul_comm c.nsets (q / c.nsets)) in
      rw (e, whole) refl
