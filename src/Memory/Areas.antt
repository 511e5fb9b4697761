-- ===== src/Memory/Areas.antt =====
-- The list of areas: registration, lookup and the changes of a registered area.
use openrisc_tools.Prelude.{
  ℕ, zero, suc, ◌+◌, ◌-◌, ◌/◌, ◌%◌, ◌^◌, Bool, true, false, ◌&&◌, ◌||◌, Option, none, some, List,
  [], ◌∷◌, ◌++◌, ◌==◌, leb, ltb, length, get_elem?, modify, if◌then◌else◌, bit_and, bit_or,
}
use openrisc_tools.Machine.{Area, Memory, bit_not}

-- `while (data >> i) data |= 1 << i++;`, in at most `fuel` rounds.
unfoldable pub bit_mask_loop : ℕ → ℕ → ℕ → ℕ
bit_mask_loop zero i word = word
bit_mask_loop (suc fuel) i word =
    let rest = bit_mask_loop fuel (i + 1) (bit_or word (2 ^ i)) in
    if word / 2 ^ i == 0 then word else rest

unfoldable pub bit_mask : ℕ → ℕ
bit_mask word = bit_mask_loop 32 0 ((word + 2 ^ 32 - 1) % 2 ^ 32)

-- The test for an overlap with a registered area, with sums of 32 bits.
unfoldable pub overlaps : ℕ → ℕ → Area → Bool
overlaps addr_compare size p =
    let end = (p.addr_compare + p.size) % 2 ^ 32 in
    leb p.addr_compare addr_compare && ltb addr_compare end
    || ltb p.addr_compare ((addr_compare + size) % 2 ^ 32) && ltb addr_compare end

unfoldable pub any_overlaps : ℕ → ℕ → List Area → Bool
unfolding overlaps
any_overlaps addr_compare size [] = false
any_overlaps addr_compare size (p ∷ ps) =
    overlaps addr_compare size p || any_overlaps addr_compare size ps

-- An overlap ends the program. The new area is the last of the list, and the current one.
unfoldable pub register_memoryarea_mask : Area → Bool → Memory → Option Memory
unfolding any_overlaps
register_memoryarea_mask new mc_dev mem =
    let addr_compare = bit_and new.addr_compare new.addr_mask in
    let area = record new {
      addr_compare = addr_compare;
      size_mask = bit_mask new.size;
      valid = true;
    } in
    if any_overlaps addr_compare new.size mem.dev_list
    then none
    else some (record mem {
      dev_list = mem.dev_list ++ area ∷ [];
      cur_area = some (length mem.dev_list);
      mc_area = if mc_dev then some (length mem.dev_list) else mem.mc_area;
    })

-- The operations are the device's; `delayr` and `delayw` come with them.
unfoldable pub reg_mem_area : ℕ → ℕ → Bool → ℕ → ℕ → ℕ → Memory → Option Memory
reg_mem_area addr size mc_dev device delayr delayw mem =
    let size_mask = bit_mask size in
    let addr_mask = bit_not size_mask in
    register_memoryarea_mask
      (record {
        addr_mask = addr_mask;
        addr_compare = bit_and addr addr_mask;
        size = (size_mask + 1) % 2 ^ 32;
        size_mask = 0;
        valid = true;
        delayr = delayr;
        delayw = delayw;
        device = device;
      })
      mc_dev mem

-- `(addr & area->addr_mask) == (area->addr_compare & area->addr_mask)`.
unfoldable pub is_in : ℕ → Area → Bool
is_in addr a = bit_and addr a.addr_mask == bit_and a.addr_compare a.addr_mask

-- The pointer is to an area that the address is in.
unfoldable pub holds : ℕ → List Area → Option ℕ → Bool
unfolding is_in
holds addr areas none = false
holds addr areas (some i) = elim (get_elem? areas i) [ none ↦ false | some a ↦ is_in addr a ]

-- The loop over the list, from place `i` on.
unfoldable pub find_area : ℕ → List Area → ℕ → Option ℕ
unfolding is_in
find_area addr [] i = none
find_area addr (p ∷ ps) i =
    let rest = find_area addr ps (i + 1) in if is_in addr p && p.valid then some i else rest

unfoldable pub verify_memoryarea : ℕ → Memory → Memory
unfolding holds find_area
verify_memoryarea addr mem =
    if holds addr mem.dev_list mem.mc_area
    then record mem { cur_area = mem.mc_area }
    else if holds addr mem.dev_list mem.cur_area
    then mem
    else record mem { cur_area = find_area addr mem.dev_list 0 }

unfoldable pub set_mem_valid : ℕ → Bool → Memory → Memory
set_mem_valid area valid mem = record mem {
  dev_list = modify area (λ a. record a { valid = valid }) mem.dev_list;
}

unfoldable pub adjust_rw_delay : ℕ → ℕ → ℕ → Memory → Memory
adjust_rw_delay area delayr delayw mem = record mem {
  dev_list = modify area (λ a. record a { delayr = delayr; delayw = delayw }) mem.dev_list;
}
