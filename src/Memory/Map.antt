-- ===== src/Memory/Map.antt =====
-- When the memory map is in order, and what the lookup of or1ksim/cpu/common/abstract.c finds then.
use native.Mathlib.Nat.{div-add-mod, mod-lt, mul_comm, suc-mul, mul-le-mul_right, mul-div_cancel}
use mathlib.Core.Option.{some_inj, none-ne-some}
use mathlib.Core.Bool.{false≢true}
use mathlib.Core.Path.{subst}
use openrisc_tools.Prelude.{
  ℕ, zero, suc, ◌+◌, ◌-◌, ◌*◌, ◌/◌, ◌^◌, ◌≤◌, ◌<◌, ◌≡◌, ◌∙◌, sym, refl, ap, arith, ◌==◌, true,
  false, none, some, Option, List, [], ◌∷◌, ◌⊎◌, inl, inr, Bool-cases, Option-cases, leb, ltb, Bool,
  ◌&&◌, get_elem?, All,
}
use openrisc_tools.Machine.{Area, Memory}
use openrisc_tools.Memory.Areas.{is_in, holds, find_area, verify_memoryarea}
use openrisc_tools.Memory.Masks.{pow-pos, pow-split, bit_and-high}

-- 2^log2 bytes from a multiple of that, below the top of the address space.
pub record IsArea (a : Area) : Type 0 where
  pub log2 : ℕ
  pub place : ℕ
  pub fits : log2 ≤ 31
  pub sized : a.size ≡ 2 ^ log2
  pub masked : a.addr_mask ≡ 2 ^ 32 - 2 ^ log2
  pub offsets : a.size_mask ≡ 2 ^ log2 - 1
  pub aligned : a.addr_compare ≡ place * 2 ^ log2
  pub below : a.addr_compare + a.size < 2 ^ 32
  pub usable : a.valid ≡ true

abbrev pub Apart : Area → Area → Type 0
Apart p q = p.addr_compare + p.size ≤ q.addr_compare ⊎ (q.addr_compare + q.size ≤ p.addr_compare)

abbrev pub AllApart : List Area → Type 0
AllApart [] = Unit {0}
AllApart (p ∷ ps) = All (Apart p) ps × AllApart ps

pub record IsMapped (mem : Memory) : Type 0 where
  pub areas : All IsArea mem.dev_list
  pub apart : AllApart mem.dev_list

-- The bytes of an area.
abbrev pub covers : Area → ℕ → Bool
covers a addr = leb a.addr_compare addr && ltb addr (a.addr_compare + a.size)

-- Multiples of a number are at least that far from each other.
multiples : (p a b : ℕ) → a < b → a * p + p ≤ b * p
multiples p a b h =
    let next : suc a * p ≡ a * p + p = suc-mul a p in omega (arith, next, mul-le-mul_right p h)

order : (a b : ℕ) → (a < b) ⊎ ((a ≡ b) ⊎ (b < a))
order a b = elim (Bool-cases (ltb a b)) [
  | inl h ↦ inl (ground (arith, h))
  | inr h ↦ elim (Bool-cases (a == b)) [
    | inl e ↦ inr (inl (ground (arith, e)))
    | inr e ↦ inr (inr (ground (arith, h, e)))
  ]
]

-- The multiple of `p` below a number is the one that is at most `p - 1` below it.
same_block :
    (p addr place : ℕ)
    → 0 < p
    → (addr / p * p == place * p) ≡ (leb (place * p) addr && ltb addr (place * p + p))
same_block p addr place pos =
    let whole = div-add-mod addr p in
    let rest = mod-lt addr pos in
    let swap = mul_comm p (addr / p) in
    elim (order (addr / p) place) [
      | inl less ↦ ground (arith, whole, rest, swap, multiples p (addr / p) place less)
      | inr (inl same) ↦ ground (arith, whole, rest, swap, ap (λ q. q * p) same)
      | inr (inr more) ↦ ground (arith, whole, rest, swap, multiples p place (addr / p) more)
    ]

-- The mask test is the test for the range.
pub is_in-covers : (addr : ℕ) (a : Area) → addr < 2 ^ 32 → IsArea a → is_in addr a ≡ covers a addr
unfolding is_in
is_in-covers addr a h p =
    let pos = pow-pos p.log2 in
    let pw = 2 ^ p.log2 in
    let split : pw * 2 ^ (32 - p.log2) ≡ 2 ^ 32 = pow-split p.log2 32 (omega (arith, p.fits)) in
    let low = bit_and-high p.log2 (32 - p.log2) addr (omega (arith, h, split)) in
    let base = bit_and-high p.log2 (32 - p.log2) a.addr_compare (omega (arith, p.below, split)) in
    let own : p.place * pw / pw ≡ p.place = mul-div_cancel p.place pos in
    let mask : a.addr_mask ≡ pw * 2 ^ (32 - p.log2) - pw = omega (arith, p.masked, split) in
    rw (mask, low, base, p.aligned, own) (rw p.sized (same_block pw addr p.place pos))

-- An address is in at most one of two areas that are apart.
pub Apart-covers :
    (addr : ℕ) (p q : Area) → Apart p q → covers q addr ≡ true → covers p addr ≡ false
Apart-covers addr p q h c = elim h [
  | inl before ↦ ground (arith, before, c)
  | inr behind ↦ ground (arith, behind, c)
]

-- The area at place `n` of a list.
pub at_place :
    (P : Area → Type 0) (areas : List Area) (n : ℕ) (a : Area)
    → All P areas
    → get_elem? areas n ≡ some a
    → P a
at_place P [] n a ps e = absurd (none-ne-some a e)
at_place P (p ∷ areas) zero a ps e = subst P (some_inj.0 e) ps.0
at_place P (p ∷ areas) (suc n) a ps e = at_place P areas n a ps.1 e

-- The search finds the area that the address is in, at its place.
pub find_area_lem :
    (addr : ℕ) (areas : List Area) (i n : ℕ) (a : Area)
    → addr < 2 ^ 32
    → All IsArea areas
    → AllApart areas
    → get_elem? areas n ≡ some a
    → covers a addr ≡ true
    → find_area addr areas i ≡ some (i + n)
unfolding find_area
find_area_lem addr [] i n a h every apart e c = absurd (none-ne-some a e)
find_area_lem addr (p ∷ areas) i zero a h every apart e c =
    let here : is_in addr p ≡ true = is_in-covers addr p h every.0 ∙ rw (some_inj.0 e) c in
    rw (here, every.0.usable) (ap some (omega arith))
find_area_lem addr (p ∷ areas) i (suc n) a h every apart e c =
    let other : is_in addr p ≡ false =
      is_in-covers addr p h every.0
      ∙ Apart-covers addr p a (at_place (Apart p) areas n a apart.0 e) c in
    rw other (find_area_lem addr areas (i + 1) n a h every.1 apart.1 e c ∙ ap some (omega arith))

-- The test of a remembered area, in a map that is in order.
holds_found :
    (addr : ℕ) (mem : Memory) (remembered : Option ℕ)
    → addr < 2 ^ 32
    → IsMapped mem
    → holds addr mem.dev_list remembered ≡ true
    → remembered ≡ find_area addr mem.dev_list 0
unfolding holds
holds_found addr mem none h p c = absurd (false≢true c)
holds_found addr mem (some i) h p c = elim (Option-cases (get_elem? mem.dev_list i)) [
  | inl nowhere ↦ absurd (false≢true (rw (holds, nowhere) at c))
  | inr (a, found) ↦
      let inside = rw (holds, found) at c in
      let range =
        sym (is_in-covers addr a h (at_place IsArea mem.dev_list i a p.areas found)) ∙ inside in
      sym (
        find_area_lem addr mem.dev_list 0 i a h p.areas p.apart found range ∙ ap some (omega arith))
]

-- In a map that is in order, whatever areas are remembered as the current one and as the memory
-- controller's, the lookup of a 32-bit address answers what the search of the whole list answers.
pub verify_memoryarea_lem :
    (addr : ℕ) (mem : Memory)
    → addr < 2 ^ 32
    → IsMapped mem
    → (verify_memoryarea addr mem).cur_area ≡ find_area addr mem.dev_list 0
unfolding verify_memoryarea
verify_memoryarea_lem addr mem h p = elim (Bool-cases (holds addr mem.dev_list mem.mc_area)) [
  | inl control ↦ rw control (holds_found addr mem mem.mc_area h p control)
  | inr elsewhere ↦ elim (Bool-cases (holds addr mem.dev_list mem.cur_area)) [
    | inl again ↦ rw (elsewhere, again) (holds_found addr mem mem.cur_area h p again)
    | inr afresh ↦ rw (elsewhere, afresh) refl
  ]
]

-- The lookup changes only which area is the current one.
pub verify_memoryarea-keeps :
    (addr : ℕ) (mem : Memory)
    → ((verify_memoryarea addr mem).dev_list ≡ mem.dev_list)
      × ((verify_memoryarea addr mem).ram ≡ mem.ram)
unfolding verify_memoryarea
verify_memoryarea-keeps addr mem = elim (Bool-cases (holds addr mem.dev_list mem.mc_area)) [
  | inl control ↦ rw control (refl, refl)
  | inr elsewhere ↦ elim (Bool-cases (holds addr mem.dev_list mem.cur_area)) [
    | inl again ↦ rw (elsewhere, again) (refl, refl)
    | inr afresh ↦ rw (elsewhere, afresh) (refl, refl)
  ]
]
