-- ===== src/Dcache/Refilled.antt =====
-- The loop of the refill, over the words of a block that lies in the memory.
use mathlib.Core.Path.{subst}
use mathlib.Core.Bool.{true≢false}
use openrisc_tools.Prelude.{
  ℕ, zero, suc, ◌+◌, ◌*◌, ◌%◌, ◌^◌, ◌<◌, ◌≡◌, ◌∙◌, sym, refl, ap, arith, ◌==◌, ==_refl, true, some,
  inl, inr, Bool-cases, if◌then◌else◌, ◌&&◌, IfOr,
}
use openrisc_tools.Prelude.Update.{update}
use openrisc_tools.Machine.{Area, Machine, Way, DcConfig}
use openrisc_tools.Memory.{Width, ram_bus, evalsim_mem, current}
use openrisc_tools.Memory.Map.{IsMapped}
use openrisc_tools.Memory.Flat.{area_of}
use openrisc_tools.Dcache.Lines.{refill_addr, slot_of, set_line, refill_line, dc_rounds}
use openrisc_tools.Dcache.Backing.{word_of, IsRead, evalsim_mem-IsRead}
use openrisc_tools.Dcache.Filled.{IsBlock, block_of, first_of, refill_place, comes, comes_next}

-- The state before round `r` of the refill of a way, from the state `m0` before the first.
pub record IsFilling (delayr : ℕ → ℕ) (addr set way r : ℕ) (m0 m : Machine) : Type 0 where
  pub ram : m.mem.ram ≡ m0.mem.ram
  pub areas : m.mem.dev_list ≡ m0.mem.dev_list
  pub config : m.config ≡ m0.config
  pub others : (s w : ℕ) → IfOr (s == set && w == way) Unit (m.dc.sets s w ≡ m0.dc.sets s w)
  pub filled :
      (j : ℕ)
      → IfOr
          (comes m0.config.dc addr r j)
          ((m.dc.sets set way).line j ≡ word_of delayr m0.mem (block_of m0.config.dc addr + 4 * j))
          Unit

-- A write of one way of one set.
set_others :
    (sets : ℕ → ℕ → Way) (set way s w : ℕ) (v : Way)
    → IfOr (s == set && w == way) Unit (update sets set (update (sets set) way v) s w ≡ sets s w)
set_others sets set way s w v = elim (Bool-cases (s == set)) [
  | inl in_set ↦
      let same : s ≡ set = ground (arith, in_set) in
      elim (Bool-cases (w == way)) [
        | inl hit ↦ inl (rw (in_set, hit) refl, tt)
        | inr miss ↦ inr (rw (in_set, miss) refl, rw (in_set, miss) (ap (λ q. sets q w) (sym same)))
      ]
  | inr out ↦ inr (rw out refl, rw out refl)
]

-- A word of the way that is written.
set_word :
    (sets : ℕ → ℕ → Way) (set way slot tmp j : ℕ)
    → (update sets set
          (update
            (sets set)
            way
            (record (sets set way) { line = update (sets set way).line slot tmp }))
          set
          way).line
        j
      ≡ (if j == slot then tmp else (sets set way).line j)
set_word sets set way slot tmp j = rw (==_refl set, ==_refl way) refl

module _ (delayr delayw : ℕ → ℕ) (addr set way : ℕ) (m0 : Machine) (h : addr < 2 ^ 32)
    (sized : IsBlock m0.config.dc) (p : IsMapped m0.mem) (areas : ℕ → Area)
    (inside : (j : ℕ)
      → area_of m0.mem (block_of m0.config.dc addr + 4 * (j % dc_rounds m0.config.dc))
        ≡ some (areas j)) where
  abbrev c : DcConfig
  c = m0.config.dc

  abbrev slot : ℕ → ℕ
  slot r = (first_of c addr + r) % dc_rounds c

  abbrev place : ℕ → ℕ
  place r = block_of c addr + 4 * slot r

  small_place : (r : ℕ) → place r < 2 ^ 32
  small_place r = elim sized [ inl e ↦ rw e (omega (arith, h)) | inr e ↦ rw e (omega (arith, h)) ]

  -- The parts of the memory that the words of the block are read from are the same throughout.
  same_word :
      (m : Machine) (x : ℕ)
      → m.mem.ram ≡ m0.mem.ram
      → m.mem.dev_list ≡ m0.mem.dev_list
      → word_of delayr m.mem x ≡ word_of delayr m0.mem x
  unfolding word_of area_of
  same_word m x ram list = rw (ram, list) refl

  same_area :
      (m : Machine) (x : ℕ) → m.mem.dev_list ≡ m0.mem.dev_list → area_of m.mem x ≡ area_of m0.mem x
  unfolding area_of
  same_area m x list = rw list refl

  -- One round.
  abbrev read : ℕ → Machine → Machine × ℕ
  read r m =
      evalsim_mem (ram_bus delayr delayw) Width.word (refill_addr m.config.dc addr (4 * r)) 0 m

  abbrev next : ℕ → Machine → Machine
  next r m =
      set_line set way (slot_of m.config.dc ((addr + 4 * r) % 2 ^ 32)) (read r m).1 (read r m).0

  abbrev filled_way : ℕ → Machine → Way
  filled_way r m =
      let old = (read r m).0.dc.sets set way in
      record old {
        line = update old.line (slot_of m.config.dc ((addr + 4 * r) % 2 ^ 32)) (read r m).1;
      }

  round_reads :
      (r : ℕ) (m : Machine)
      → IsFilling delayr addr set way r m0 m
      → IsRead delayr (place r) m (read r m)
  round_reads r m f =
      let still : refill_addr m.config.dc addr (4 * r) ≡ place r =
        ap (λ q. refill_addr q.dc addr (4 * r)) f.config ∙ (refill_place c addr r sized h).0 in
      let mapped : IsMapped m.mem = record {
        areas = rw f.areas p.areas;
        apart = rw f.areas p.apart;
      } in
      rw still (evalsim_mem-IsRead delayr delayw (place r) 0 m (small_place r) mapped)

  filled_at :
      (r : ℕ) (m : Machine) (j : ℕ)
      → IsFilling delayr addr set way r m0 m
      → comes c addr r j ≡ true
      → (m.dc.sets set way).line j ≡ word_of delayr m0.mem (block_of c addr + 4 * j)
  filled_at r m j f before = elim (f.filled j) [
    | inl (now, e) ↦ e
    | inr (later, e) ↦ absurd (true≢false (sym before ∙ later))
  ]

  next-IsFilling :
      (r : ℕ) (m : Machine)
      → r < dc_rounds c
      → IsFilling delayr addr set way r m0 m
      → IsFilling delayr addr set way (suc r) m0 (next r m)
  next-IsFilling r m k f =
      let q = round_reads r m f in
      let spot : slot_of m.config.dc ((addr + 4 * r) % 2 ^ 32) ≡ slot r =
        ap (λ q. slot_of q.dc ((addr + 4 * r) % 2 ^ 32)) f.config
        ∙ (refill_place c addr r sized h).1 in
      record {
        ram = q.ram ∙ f.ram;
        areas = q.areas ∙ f.areas;
        config = q.config ∙ f.config;
        others = λ s w. elim (f.others s w) [
          | inl (mine, e) ↦ inl (mine, tt)
          | inr (theirs, e) ↦ elim (set_others (read r m).0.dc.sets set way s w (filled_way r m)) [
            | inl (mine, e') ↦ absurd (true≢false (sym mine ∙ theirs))
            | inr (still, e') ↦ inr (theirs, e' ∙ ap (λ d. d.sets s w) q.dc ∙ e)
          ]
        ];
        filled = λ j.
            let word =
              set_word (read r m).0.dc.sets set way (slot_of m.config.dc ((addr + 4 * r) % 2 ^ 32))
                (read r m).1 j in
            elim (Bool-cases (comes c addr (suc r) j)) [
              | inr later ↦ inr (later, tt)
              | inl now ↦ elim (Bool-cases (j == slot r)) [
                | inl here ↦
                    let same : slot r ≡ j = ground (arith, here) in
                    inl (
                      now,
                      word
                          ∙ rw (spot, here)
                              (q.value
                                ∙ same_word m (place r) f.ram f.areas
                                ∙ ap (λ x. word_of delayr m0.mem (block_of c addr + 4 * x)) same),
                    )
                | inr other ↦
                    let before = comes_next c addr r j sized k now other in
                    inl (
                      now,
                      word
                          ∙ rw (spot, other)
                              (ap (λ d. (d.sets set way).line j) q.dc ∙ filled_at r m j f before),
                    )
              ]
            ];
      }

  -- A round that finds its word goes on.
  goes_on :
      (r left : ℕ) (m : Machine) (a : Area)
      → current (next r m).mem ≡ some a
      → refill_line (ram_bus delayr delayw) addr set way (4 * r) (suc left) m
        ≡ refill_line (ram_bus delayr delayw) addr set way (4 * suc r) left (next r m)
  unfolding refill_line
  goes_on r left m a here =
      let step : 4 * r + 4 ≡ 4 * suc r = omega arith in
      rw (refill_line, here)
        (ap (λ i. refill_line (ram_bus delayr delayw) addr set way i left (next r m)) step)

  done :
      (r : ℕ) (m : Machine)
      → (refill_line (ram_bus delayr delayw) addr set way (4 * r) 0 m).1 ≡ true
  unfolding refill_line
  done r m = refl

  stays :
      (r : ℕ) (m : Machine)
      → IsFilling delayr addr set way r m0 m
      → IsFilling delayr addr set way r m0
          (refill_line (ram_bus delayr delayw) addr set way (4 * r) 0 m).0
  unfolding refill_line
  stays r m f = f

  -- All the rounds from `r` on.
  pub refill_line-IsFilling :
      (left r : ℕ) (m : Machine)
      → r + left ≡ dc_rounds c
      → IsFilling delayr addr set way r m0 m
      → ((refill_line (ram_bus delayr delayw) addr set way (4 * r) left m).1 ≡ true)
        × IsFilling delayr addr set way
            (dc_rounds c)
            m0
            (refill_line (ram_bus delayr delayw) addr set way (4 * r) left m).0
  refill_line-IsFilling zero r m e f =
      let ends : r ≡ dc_rounds c = omega (arith, e) in
      (
        done r m,
        subst
            (λ x.
              IsFilling delayr addr set way x m0
                (refill_line (ram_bus delayr delayw) addr set way (4 * r) 0 m).0)
            ends (stays r m f),
      )
  refill_line-IsFilling (suc left) r m e f =
      let k : r < dc_rounds c = omega (arith, e) in
      let rest =
        refill_line-IsFilling left (suc r) (next r m) (omega (arith, e)) (next-IsFilling r m k f) in
      let here : current (next r m).mem ≡ some (areas (first_of c addr + r)) =
        (round_reads r m f).area ∙ same_area m (place r) f.areas ∙ inside (first_of c addr + r) in
      let step = goes_on r left m (areas (first_of c addr + r)) here in
      subst (λ out. (out.1 ≡ true) × IsFilling delayr addr set way (dc_rounds c) m0 out.0)
        (sym step) rest
