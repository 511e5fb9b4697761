-- ===== src/Memory/Flat.antt =====
-- The memory as the processor sees it: bytes at physical addresses, whatever block they are in.
use mathlib.Core.Option.{some_inj, none-ne-some}
use openrisc_tools.Prelude.{
  ℕ, zero, suc, ◌+◌, ◌^◌, ◌<◌, ◌≡◌, ◌≢◌, ◌∙◌, sym, refl, ap, bit_and, arith, true, none, some,
  Option, List, [], ◌∷◌, inl, inr, Bool-cases, get_elem?, All, ◌>>=◌,
}
use openrisc_tools.Machine.{Area, Memory}
use openrisc_tools.Memory.Areas.{is_in, find_area}
use openrisc_tools.Memory.Ram.{simmem_read8}
use openrisc_tools.Memory.Map.{IsArea, IsMapped, covers, is_in-covers, find_area_lem, at_place}

-- What is stored for an address.
unfoldable pub area_of : Memory → ℕ → Option Area
area_of mem x = find_area x mem.dev_list 0 >>= get_elem? mem.dev_list

unfoldable pub byte_at : Memory → ℕ → ℕ
unfolding area_of
byte_at mem x = elim (area_of mem x) [
  | none ↦ 0
  | some a ↦ simmem_read8 (bit_and x a.size_mask) (mem.ram a.device)
]

-- No two areas are of one device.
abbrev pub OwnDevices : List Area → Type 0
OwnDevices [] = Unit {0}
OwnDevices (p ∷ ps) = All (λ q. p.device ≢ q.device) ps × OwnDevices ps

-- The search answers with the place of an area that the address is in.
pub find_area_sound :
    (x : ℕ) (areas : List Area) (i j : ℕ)
    → x < 2 ^ 32
    → All IsArea areas
    → find_area x areas i ≡ some j
    → (b : Area) × (n : ℕ) × (j ≡ i + n) × (get_elem? areas n ≡ some b) × (covers b x ≡ true)
unfolding find_area
find_area_sound x [] i j h every e = absurd (none-ne-some j e)
find_area_sound x (p ∷ areas) i j h every e = elim (Bool-cases (is_in x p)) [
  | inl inside ↦ (
    p,
    0,
    omega (arith, some_inj.0 (rw (inside, every.0.usable) at e)),
    refl,
    sym (is_in-covers x p h every.0) ∙ inside,
  )
  | inr outside ↦
      let rest = find_area_sound x areas (i + 1) j h every.1 (rw outside at e) in
      (rest.0, suc rest.1, omega (arith, rest.2), rest.3, rest.4)
]

-- Two areas with a common address are one, at one place.
pub one_place :
    (x : ℕ) (mem : Memory) (n k : ℕ) (a b : Area)
    → x < 2 ^ 32
    → IsMapped mem
    → get_elem? mem.dev_list n ≡ some a
    → get_elem? mem.dev_list k ≡ some b
    → covers a x ≡ true
    → covers b x ≡ true
    → n ≡ k
one_place x mem n k a b h p ea eb ca cb =
    let first = find_area_lem x mem.dev_list 0 n a h p.areas p.apart ea ca in
    let second = find_area_lem x mem.dev_list 0 k b h p.areas p.apart eb cb in
    omega (arith, some_inj.0 (sym first ∙ second))

pub own_device :
    (areas : List Area) (n k : ℕ) (a b : Area)
    → OwnDevices areas
    → get_elem? areas n ≡ some a
    → get_elem? areas k ≡ some b
    → a.device ≡ b.device
    → n ≡ k
own_device [] n k a b own ea eb same = absurd (none-ne-some a ea)
own_device (p ∷ areas) zero zero a b own ea eb same = refl
own_device (p ∷ areas) zero (suc k) a b own ea eb same =
    let apart = at_place (λ q. p.device ≢ q.device) areas k b own.0 eb in
    absurd (apart (ap (λ q. q.device) (some_inj.0 ea) ∙ same))
own_device (p ∷ areas) (suc n) zero a b own ea eb same =
    let apart = at_place (λ q. p.device ≢ q.device) areas n a own.0 ea in
    absurd (apart (ap (λ q. q.device) (some_inj.0 eb) ∙ sym same))
own_device (p ∷ areas) (suc n) (suc k) a b own ea eb same =
    ap suc (own_device areas n k a b own.1 ea eb same)
