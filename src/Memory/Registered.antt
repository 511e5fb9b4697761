-- ===== src/Memory/Registered.antt =====
-- The registration of an area, or1ksim/cpu/common/abstract.c, in a map that is in order.
use native.Mathlib.Nat.{mod-lt, pow-le-pow_right}
use openrisc_tools.Prelude.{
  ℕ, ◌+◌, ◌-◌, ◌*◌, ◌/◌, ◌%◌, ◌^◌, ◌≤◌, ◌<◌, ◌≡◌, ◌∙◌, refl, ap, bit_and, arith, true, false, none,
  some, List, [], ◌∷◌, ◌++◌, inl, inr, Bool-cases, if◌then◌else◌, Bool, get_elem?, All, length,
  IfOr,
}
use openrisc_tools.Prelude.Bits.{bit_and_assoc, bit_and_self}
use openrisc_tools.Machine.{Area, Memory}
use openrisc_tools.Memory.Areas.{
  any_overlaps, register_memoryarea_mask, reg_mem_area, verify_memoryarea,
}
use openrisc_tools.Memory.Masks.{pow-pos, pow-split, bit_and-high}
use openrisc_tools.Memory.Sizes.{bit_mask_lem}
use openrisc_tools.Memory.Map.{
  IsArea, Apart, AllApart, IsMapped, covers, find_area_lem, verify_memoryarea_lem,
}
use openrisc_tools.Memory.Overlaps.{meets_any, any_overlaps-Apart, any_overlaps-meets_any}

pub All-snoc :
    (P : Area → Type 0) (areas : List Area) (a : Area) → All P areas → P a → All P (areas ++ a ∷ [])
All-snoc P [] a ps p = (p, tt)
All-snoc P (q ∷ areas) a ps p = (ps.0, All-snoc P areas a ps.1 p)

AllApart-snoc :
    (areas : List Area) (a : Area)
    → AllApart areas
    → All (λ p. Apart p a) areas
    → AllApart (areas ++ a ∷ [])
AllApart-snoc [] a ps away = (tt, tt)
AllApart-snoc (q ∷ areas) a ps away =
    (All-snoc (Apart q) areas a ps.0 away.0, AllApart-snoc areas a ps.1 away.1)

get_elem?-snoc :
    (areas : List Area) (a : Area) → get_elem? (areas ++ a ∷ []) (length areas) ≡ some a
get_elem?-snoc [] a = refl
get_elem?-snoc (q ∷ areas) a = get_elem?-snoc areas a

-- The area that a registration makes.
abbrev pub new_area : ℕ → ℕ → ℕ → ℕ → ℕ → Area
new_area k addr device delayr delayw = record {
  addr_mask = 2 ^ 32 - 2 ^ k;
  addr_compare = addr / 2 ^ k * 2 ^ k;
  size = 2 ^ k;
  size_mask = 2 ^ k - 1;
  valid = true;
  delayr = delayr;
  delayw = delayw;
  device = device;
}

abbrev grown : ℕ → ℕ → Bool → ℕ → ℕ → ℕ → Memory → Memory
grown k addr mc_dev device delayr delayw mem = record mem {
  dev_list = mem.dev_list ++ new_area k addr device delayr delayw ∷ [];
  cur_area = some (length mem.dev_list);
  mc_area = if mc_dev then some (length mem.dev_list) else mem.mc_area;
}

-- The size, the mask and the first address.
reg_mem_area-new :
    (k addr size : ℕ) (mc_dev : Bool) (device delayr delayw : ℕ) (mem : Memory)
    → k ≤ 31
    → size ≤ 2 ^ k
    → 2 ^ k < 2 * size
    → addr < 2 ^ 32
    → reg_mem_area addr size mc_dev device delayr delayw mem ≡ (
        if any_overlaps (addr / 2 ^ k * 2 ^ k) (2 ^ k) mem.dev_list
        then none
        else some (grown k addr mc_dev device delayr delayw mem))
unfolding reg_mem_area register_memoryarea_mask
reg_mem_area-new k addr size mc_dev device delayr delayw mem fits below above inside =
    let pos = pow-pos k in
    let top : 2 ^ k ≤ 2 ^ 31 = pow-le-pow_right (omega arith) fits in
    let split = pow-split k 32 (omega (arith, fits)) in
    let rounded = bit_mask_lem k size (omega (arith, fits)) below above in
    let again = bit_mask_lem k (2 ^ k) (omega (arith, fits)) (omega arith) (omega (arith, pos)) in
    let mask : 2 ^ 32 - 1 - (2 ^ k - 1) ≡ 2 ^ 32 - 2 ^ k = omega (arith, pos) in
    let count : (2 ^ k - 1 + 1) % 2 ^ 32 ≡ 2 ^ k = omega (arith, pos, top) in
    let high = bit_and-high k (32 - k) addr (omega (arith, inside, split)) in
    let once : bit_and addr (2 ^ 32 - 2 ^ k) ≡ addr / 2 ^ k * 2 ^ k = rw (← split) high in
    let twice : bit_and (addr / 2 ^ k * 2 ^ k) (2 ^ 32 - 2 ^ k) ≡ addr / 2 ^ k * 2 ^ k =
      rw (← once) (
        bit_and_assoc addr (2 ^ 32 - 2 ^ k) (2 ^ 32 - 2 ^ k)
        ∙ rw (bit_and_self (2 ^ 32 - 2 ^ k)) refl) in
    simp (rounded, mask, count, again, once, twice) refl

new_area-IsArea :
    (k addr device delayr delayw : ℕ)
    → k ≤ 31
    → addr / 2 ^ k * 2 ^ k + 2 ^ k < 2 ^ 32
    → IsArea (new_area k addr device delayr delayw)
new_area-IsArea k addr device delayr delayw fits below = record {
  log2 = k;
  place = addr / 2 ^ k;
  fits = fits;
  sized = refl;
  masked = refl;
  offsets = refl;
  aligned = refl;
  below = below;
  usable = refl;
}

-- What a registration that goes through leaves: a map in order with one area more, at its end.
pub record IsRegistered (k addr device delayr delayw : ℕ) (mem mem' : Memory) : Type 0 where
  pub mapped : IsMapped mem'
  pub listed : mem'.dev_list ≡ mem.dev_list ++ new_area k addr device delayr delayw ∷ []
  pub current : mem'.cur_area ≡ some (length mem.dev_list)
  pub found :
      (x : ℕ)
      → (verify_memoryarea (addr / 2 ^ k * 2 ^ k + x % 2 ^ k) mem').cur_area
        ≡ some (length mem.dev_list)

grown-IsRegistered :
    (k addr device delayr delayw : ℕ) (mc_dev : Bool) (mem : Memory)
    → k ≤ 31
    → addr / 2 ^ k * 2 ^ k + 2 ^ k < 2 ^ 32
    → IsMapped mem
    → any_overlaps (addr / 2 ^ k * 2 ^ k) (2 ^ k) mem.dev_list ≡ false
    → IsRegistered k addr device delayr delayw mem (grown k addr mc_dev device delayr delayw mem)
grown-IsRegistered k addr device delayr delayw mc_dev mem fits below p free =
    let a = new_area k addr device delayr delayw in
    let fine = new_area-IsArea k addr device delayr delayw fits below in
    let away = any_overlaps-Apart mem.dev_list a p.areas below free in
    let after = grown k addr mc_dev device delayr delayw mem in
    let mapped : IsMapped after = record {
      areas = All-snoc IsArea mem.dev_list a p.areas fine;
      apart = AllApart-snoc mem.dev_list a p.apart away;
    } in
    record {
      mapped = mapped;
      listed = refl;
      current = refl;
      found = λ x.
          let place = addr / 2 ^ k * 2 ^ k + x % 2 ^ k in
          let inside : covers a place ≡ true = ground (arith, mod-lt x (pow-pos k)) in
          let small : place < 2 ^ 32 = omega (arith, below, mod-lt x (pow-pos k)) in
          verify_memoryarea_lem place after small mapped
          ∙ find_area_lem place after.dev_list 0 (length mem.dev_list) a small mapped.areas
              mapped.apart (get_elem?-snoc mem.dev_list a) inside
          ∙ ap some (omega arith);
    }

-- In a map that is in order, the registration of an area whose size rounds up to 2^k bytes, k at
-- most 31, and which ends below the top of the address space, stops the program just when the
-- 2^k addresses from the rounded start and those of a registered area have one in common; an area
-- that only borders on the new one does not count, nor does it matter which is the memory
-- controller's. Else the map is in order again, the registered areas keep their places, and each of
-- the 2^k addresses is looked up in the new area.
pub reg_mem_area_lem :
    (k addr size : ℕ) (mc_dev : Bool) (device delayr delayw : ℕ) (mem : Memory)
    → k ≤ 31
    → size ≤ 2 ^ k
    → 2 ^ k < 2 * size
    → addr < 2 ^ 32
    → addr / 2 ^ k * 2 ^ k + 2 ^ k < 2 ^ 32
    → IsMapped mem
    → IfOr
        (meets_any (addr / 2 ^ k * 2 ^ k) (2 ^ k) mem.dev_list)
        (reg_mem_area addr size mc_dev device delayr delayw mem ≡ none)
        ((mem' : Memory) × (reg_mem_area addr size mc_dev device delayr delayw mem ≡ some mem')
          × IsRegistered k addr device delayr delayw mem mem')
reg_mem_area_lem k addr size mc_dev device delayr delayw mem fits under over inside below p =
    let run = reg_mem_area-new k addr size mc_dev device delayr delayw mem fits under over inside in
    let same =
      any_overlaps-meets_any (addr / 2 ^ k * 2 ^ k) (2 ^ k) mem.dev_list p.areas (pow-pos k)
        below in
    elim (Bool-cases (meets_any (addr / 2 ^ k * 2 ^ k) (2 ^ k) mem.dev_list)) [
      | inl shared ↦ inl (shared, run ∙ rw (same ∙ shared) refl)
      | inr free ↦ inr (
        free,
        (
          grown k addr mc_dev device delayr delayw mem,
          run ∙ rw (same ∙ free) refl,
          grown-IsRegistered k addr device delayr delayw mc_dev mem fits below p (same ∙ free),
        ),
      )
    ]
