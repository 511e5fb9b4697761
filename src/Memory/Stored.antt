-- ===== src/Memory/Stored.antt =====
-- A store of the processor to plain memory, and a load from it.
use mathlib.Core.Option.{some_inj}
use mathlib.Core.Bool.{true≢false}
use native.Mathlib.Nat.{mul_comm, mul_assoc, pow-le-pow_right, add-mul-mod_self_right, mod-eq_of_lt}
use openrisc_tools.Prelude.{
  ℕ, ◌+◌, ◌-◌, ◌*◌, ◌/◌, ◌%◌, ◌^◌, ◌≤◌, ◌<◌, ◌≡◌, ◌≢◌, ◌∙◌, sym, refl, ap, bit_and, arith, true,
  false, none, some, inl, inr, Bool-cases, Option-cases, leb, ltb, ◌&&◌, get_elem?, ◌>>=◌,
}
use openrisc_tools.Prelude.Update.{update, update_self, update_ne}
use openrisc_tools.Machine.{Area, Memory, Machine}
use openrisc_tools.Memory.Areas.{find_area, verify_memoryarea}
use openrisc_tools.Memory.Access.{
  Width, bits, cut, current, lookup, setsim_mem, evalsim_mem, readfunc, writefunc,
}
use openrisc_tools.Memory.Ram.{simmem_read8}
use openrisc_tools.Memory.Device.{ram_bus, simmem_write, simmem_read, set_ram}
use openrisc_tools.Memory.Map.{
  IsArea, IsMapped, covers, find_area_lem, at_place, verify_memoryarea_lem, verify_memoryarea-keeps,
}
use openrisc_tools.Memory.Masks.{bit_and-low, pow-split}
use openrisc_tools.Memory.Words.{
  store_be, simmem_write32_lem, simmem_write16_lem, simmem_write8_lem, simmem_read-simmem_write,
}
use openrisc_tools.Memory.Flat.{area_of, byte_at, OwnDevices, find_area_sound, own_device}

abbrev pub bytes : Width → ℕ
bytes w = bits w / 8

-- The three widths at once, at an offset that is a multiple of the width.
simmem_write-store_be :
    (w : Width) (o value x : ℕ) (ram : ℕ → ℕ)
    → o < 2 ^ 32
    → x < 2 ^ 32
    → o % bytes w ≡ 0
    → simmem_read8 x (simmem_write w o value ram)
      ≡ store_be (bytes w) o value (λ y. simmem_read8 y ram) x
unfolding bits simmem_write
simmem_write-store_be Width.byte o value x ram h k aligned = simmem_write8_lem o value x ram k h
simmem_write-store_be Width.half o value x ram h k aligned =
    simmem_write16_lem o value x ram k aligned
simmem_write-store_be Width.word o value x ram h k aligned =
    simmem_write32_lem o value x ram k aligned

-- The lookup of an address in an area makes that area the current one.
pub found :
    (addr n : ℕ) (a : Area) (mem : Memory)
    → addr < 2 ^ 32
    → IsMapped mem
    → get_elem? mem.dev_list n ≡ some a
    → covers a addr ≡ true
    → ((verify_memoryarea addr mem).cur_area >>= get_elem? (verify_memoryarea addr mem).dev_list)
      ≡ some a
found addr n a mem h p e c =
    let place =
      verify_memoryarea_lem addr mem h p
      ∙ find_area_lem addr mem.dev_list 0 n a h p.areas p.apart e c in
    let same : 0 + n ≡ n = omega arith in rw (place, same, (verify_memoryarea-keeps addr mem).0) e

-- The memory after a store that finds its area.
stored :
    (delayr delayw : ℕ → ℕ) (w : Width) (addr vaddr value n : ℕ) (a : Area) (m : Machine)
    → addr < 2 ^ 32
    → IsMapped m.mem
    → get_elem? m.mem.dev_list n ≡ some a
    → covers a addr ≡ true
    → 0 < delayw a.device
    → ((setsim_mem (ram_bus delayr delayw) w addr vaddr value m).mem.dev_list ≡ m.mem.dev_list)
      × ((setsim_mem (ram_bus delayr delayw) w addr vaddr value m).mem.ram
          ≡ update m.mem.ram a.device
              (simmem_write w (bit_and addr a.size_mask) (cut w value) (m.mem.ram a.device)))
unfolding setsim_mem ram_bus writefunc set_ram current lookup
stored delayr delayw w addr vaddr value n a m h p e c writable =
    let place = found addr n a m.mem h p e c in
    let keeps = verify_memoryarea-keeps addr m.mem in
    let on : ltb 0 (delayw a.device) ≡ true = ground (arith, writable) in
    rw (setsim_mem, place, on) (keeps.0, rw (keeps.1) refl)

pub offset-lem :
    (x : ℕ) (a : Area) → IsArea a → covers a x ≡ true → bit_and x a.size_mask ≡ x - a.addr_compare
offset-lem x a p c =
    let r = x - a.addr_compare in
    let whole : x ≡ r + p.place * 2 ^ p.log2 = ground (arith, c, p.aligned) in
    let small : r < 2 ^ p.log2 = ground (arith, c, p.sized) in
    let wraps : x % 2 ^ p.log2 ≡ r =
      ap (λ y. y % 2 ^ p.log2) whole
      ∙ add-mul-mod_self_right r p.place (2 ^ p.log2)
      ∙ mod-eq_of_lt small in
    rw p.offsets (bit_and-low p.log2 x ∙ wraps)

-- An area of at least four bytes starts at a multiple of four, and its size is one.
by_four : (a : Area) → IsArea a → 4 ≤ a.size → (a.addr_compare % 4 ≡ 0) × (a.size % 4 ≡ 0)
by_four a p h =
    let q = 2 ^ (p.log2 - 2) in
    let two : 2 ≤ p.log2 = elim (Bool-cases (leb 2 p.log2)) [
      | inl yes_two ↦ ground (arith, yes_two)
      | inr less ↦
          let small : p.log2 ≤ 1 = ground (arith, less) in
          let bound : 2 ^ p.log2 ≤ 2 ^ 1 = pow-le-pow_right (omega arith) small in
          absurd (omega (arith, bound, h, p.sized))
    ] in
    let split : 4 * q ≡ 2 ^ p.log2 = pow-split 2 p.log2 two in
    let start : a.addr_compare ≡ 4 * (p.place * q) =
      p.aligned
      ∙ ap (λ s. p.place * s) (sym split)
      ∙ omega (arith, mul_comm p.place (4 * q), mul_assoc 4 q p.place, mul_comm q p.place) in
    (omega (arith, start), omega (arith, split, p.sized))

fits_in : (w : Width) (o size : ℕ) → o % bytes w ≡ 0 → size % 4 ≡ 0 → o < size → o + bytes w ≤ size
unfolding bits
fits_in Width.byte o size h k l = omega (arith, l)
fits_in Width.half o size h k l = omega (arith, h, k, l)
fits_in Width.word o size h k l = omega (arith, h, k, l)

aligned_in :
    (w : Width) (addr start : ℕ)
    → addr % bytes w ≡ 0
    → start % 4 ≡ 0
    → start ≤ addr
    → (addr - start) % bytes w ≡ 0
unfolding bits
aligned_in Width.byte addr start h k l = omega arith
aligned_in Width.half addr start h k l = omega (arith, h, k, l)
aligned_in Width.word addr start h k l = omega (arith, h, k, l)

-- A store looks the same from the start of an area as from address 0.
shifted :
    (b start addr value x : ℕ) (here there : ℕ → ℕ)
    → start ≤ addr
    → start ≤ x
    → here (x - start) ≡ there x
    → store_be b (addr - start) value here (x - start) ≡ store_be b addr value there x
shifted b start addr value x here there h k e =
    let test : (leb (addr - start) (x - start) && ltb (x - start) (addr - start + b))
        ≡ (leb addr x && ltb x (addr + b)) =
      ground (arith, h, k) in
    let place : addr - start + b - 1 - (x - start) ≡ addr + b - 1 - x = omega (arith, h, k) in
    rw (test, place, e) refl

-- The byte of an address in an area.
byte_at-covers :
    (x n : ℕ) (a : Area) (mem : Memory)
    → x < 2 ^ 32
    → IsMapped mem
    → get_elem? mem.dev_list n ≡ some a
    → covers a x ≡ true
    → byte_at mem x ≡ simmem_read8 (x - a.addr_compare) (mem.ram a.device)
unfolding byte_at area_of
byte_at-covers x n a mem h p e c =
    let place = find_area_lem x mem.dev_list 0 n a h p.areas p.apart e c in
    let same : 0 + n ≡ n = omega arith in
    rw
      (
        byte_at,
        area_of,
        place,
        same,
        e,
        offset-lem x a (at_place IsArea mem.dev_list n a p.areas e) c,
      )
      refl

same_width :
    (w : Width) (o value : ℕ) (ram : ℕ → ℕ)
    → simmem_read w o (simmem_write w o (cut w value) ram) ≡ cut w value
unfolding simmem_read simmem_write cut bits
same_width Width.byte o value ram = (simmem_read-simmem_write o (value % 2 ^ 8) ram).2 ∙ omega arith
same_width Width.half o value ram =
    (simmem_read-simmem_write o (value % 2 ^ 16) ram).1 ∙ omega arith
same_width Width.word o value ram =
    (simmem_read-simmem_write o (value % 2 ^ 32) ram).0 ∙ omega arith

byte_at_nowhere : (x : ℕ) (mem : Memory) → find_area x mem.dev_list 0 ≡ none → byte_at mem x ≡ 0
unfolding byte_at area_of
byte_at_nowhere x mem e = rw (byte_at, area_of, e) refl

module _ (delayr delayw : ℕ → ℕ) (w : Width) (addr vaddr value n : ℕ) (a : Area) (m : Machine)
    (h : addr < 2 ^ 32) (aligned : addr % bytes w ≡ 0) (p : IsMapped m.mem)
    (own : OwnDevices m.mem.dev_list) (e : get_elem? m.mem.dev_list n ≡ some a)
    (c : covers a addr ≡ true) (writable : 0 < delayw a.device) (large : 4 ≤ a.size) where
  abbrev pub after : Machine
  after = setsim_mem (ram_bus delayr delayw) w addr vaddr value m

  fine : IsArea a
  fine = at_place IsArea m.mem.dev_list n a p.areas e

  start : a.addr_compare ≤ addr
  start = ground (arith, c)

  pub kept : after.mem.dev_list ≡ m.mem.dev_list
  kept = (stored delayr delayw w addr vaddr value n a m h p e c writable).0

  -- The store keeps inside of its area.
  whole : addr + bytes w ≤ a.addr_compare + a.size
  whole =
      let four = by_four a fine large in
      let o = aligned_in w addr a.addr_compare aligned four.0 start in
      let room : addr - a.addr_compare < a.size = ground (arith, c) in
      omega (arith, fits_in w (addr - a.addr_compare) a.size o four.1 room, start)

  pub after-IsMapped : IsMapped after.mem
  after-IsMapped = record { areas = rw kept p.areas; apart = rw kept p.apart }

  touched : (x : ℕ) → (leb addr x && ltb x (addr + bytes w)) ≡ true → covers a x ≡ true
  touched x t = ground (arith, t, start, whole)

  written :
      after.mem.ram a.device
      ≡ simmem_write w (addr - a.addr_compare) (cut w value) (m.mem.ram a.device)
  written =
      let ram = (stored delayr delayw w addr vaddr value n a m h p e c writable).1 in
      ap (λ f. f a.device) ram
      ∙ update_self m.mem.ram a.device
          (simmem_write w (bit_and addr a.size_mask) (cut w value) (m.mem.ram a.device))
      ∙ ap (λ o. simmem_write w o (cut w value) (m.mem.ram a.device)) (offset-lem addr a fine c)

  -- The bytes of the area.
  inside :
      (x : ℕ)
      → x < 2 ^ 32
      → covers a x ≡ true
      → byte_at after.mem x ≡ store_be (bytes w) addr (cut w value) (byte_at m.mem) x
  inside x k cx =
      let four = by_four a fine large in
      let o = aligned_in w addr a.addr_compare aligned four.0 start in
      let from : a.addr_compare ≤ x = ground (arith, cx) in
      let old = byte_at-covers x n a m.mem k p e cx in
      let new = byte_at-covers x n a after.mem k after-IsMapped (rw kept e) cx in
      let store =
        simmem_write-store_be w (addr - a.addr_compare) (cut w value) (x - a.addr_compare)
          (m.mem.ram a.device) (omega (arith, h)) (omega (arith, k)) o in
      let move =
        shifted (bytes w) a.addr_compare addr (cut w value) x
          (λ y. simmem_read8 y (m.mem.ram a.device)) (byte_at m.mem) start from (sym old) in
      new ∙ ap (simmem_read8 (x - a.addr_compare)) written ∙ store ∙ move

  -- The bytes of another area.
  elsewhere :
      (x j : ℕ) (b : Area)
      → x < 2 ^ 32
      → get_elem? m.mem.dev_list j ≡ some b
      → covers b x ≡ true
      → covers a x ≡ false
      → byte_at after.mem x ≡ byte_at m.mem x
  elsewhere x j b k eb cb cx =
      let other : b.device ≢ a.device = λ same.
        let place = own_device m.mem.dev_list j n b a own eb e same in
        let one = some_inj.0 (sym eb ∙ ap (get_elem? m.mem.dev_list) place ∙ e) in
        true≢false (sym cb ∙ ap (λ q. covers q x) one ∙ cx) in
      let ram = (stored delayr delayw w addr vaddr value n a m h p e c writable).1 in
      let new = byte_at-covers x j b after.mem k after-IsMapped (rw kept eb) cb in
      let old = byte_at-covers x j b m.mem k p eb cb in
      let same = ap (λ f. f b.device) ram ∙ update_ne m.mem.ram a.device b.device _ other in
      new ∙ ap (simmem_read8 (x - b.addr_compare)) same ∙ sym old

  outside : (x : ℕ) → x < 2 ^ 32 → covers a x ≡ false → byte_at after.mem x ≡ byte_at m.mem x
  outside x k cx = elim (Option-cases (find_area x m.mem.dev_list 0)) [
    | inl nowhere ↦
        byte_at_nowhere x after.mem (rw kept nowhere) ∙ sym (byte_at_nowhere x m.mem nowhere)
    | inr (place, answer) ↦
        let s = find_area_sound x m.mem.dev_list 0 place k p.areas answer in
        elsewhere x s.1 s.0 k s.3 s.4 cx
  ]

  -- With areas of at least four bytes, one for each memory block: a store of the processor to plain
  -- memory, at a multiple of its width and in an area that is written, changes the bytes of the
  -- memory as a big-endian store of that width does, and no other byte.
  pub setsim_mem_lem :
      (x : ℕ)
      → x < 2 ^ 32
      → byte_at (setsim_mem (ram_bus delayr delayw) w addr vaddr value m).mem x
        ≡ store_be (bytes w) addr (cut w value) (byte_at m.mem) x
  setsim_mem_lem x k = elim (Bool-cases (covers a x)) [
    | inl cx ↦ inside x k cx
    | inr cx ↦ elim (Bool-cases (leb addr x && ltb x (addr + bytes w))) [
      | inl t ↦ absurd (true≢false (sym (touched x t) ∙ cx))
      | inr t ↦ rw t (outside x k cx)
    ]
  ]

  -- Under the same conditions, in an area that is read as well: a load of the processor at the
  -- address and of the width of a store gives the value stored, cut to its width.
  pub evalsim_mem-setsim_mem :
      (vaddr' : ℕ)
      → 0 < delayr a.device
      → (evalsim_mem
          (ram_bus delayr delayw)
          w
          addr
          vaddr'
          (setsim_mem (ram_bus delayr delayw) w addr vaddr value m)).1
        ≡ cut w value
  unfolding evalsim_mem ram_bus readfunc current lookup
  evalsim_mem-setsim_mem vaddr' readable =
      let place = found addr n a after.mem h after-IsMapped (rw kept e) c in
      let on : ltb 0 (delayr a.device) ≡ true = ground (arith, readable) in
      let ram = ap (λ f. f a.device) (verify_memoryarea-keeps addr after.mem).1 ∙ written in
      rw (evalsim_mem, place, on, ram, offset-lem addr a fine c)
        (same_width w (addr - a.addr_compare) value (m.mem.ram a.device))
