-- ===== src/Dcache/Backing.antt =====
-- The memory behind the cache: what a read of a word gives, and what it leaves as it was.
use mathlib.Core.Path.{subst}
use openrisc_tools.Prelude.{
  ℕ, ◌+◌, ◌^◌, ◌<◌, ◌≡◌, ◌∙◌, sym, refl, ap, bit_and, none, some, inl, inr, Bool-cases,
  Option-cases, if◌then◌else◌, ltb,
}
use openrisc_tools.Machine.{Area, Memory, Machine}
use openrisc_tools.Except.{
  Exception, buserr, except_handle, debug_ignore_exception, deliver, set_stall_state,
}
use openrisc_tools.Memory.{
  Width, Bus, ram_bus, simmem_read32, simmem_read, evalsim_mem, readfunc, current, lookup,
  verify_memoryarea,
}
use openrisc_tools.Memory.Map.{IsMapped, verify_memoryarea_lem, verify_memoryarea-keeps}
use openrisc_tools.Memory.Flat.{area_of}

-- The word that stands at an address: 0 outside of the memory, and in a block that is not read.
unfoldable pub word_of : (ℕ → ℕ) → Memory → ℕ → ℕ
word_of delayr mem addr = elim (area_of mem addr) [
  | none ↦ 0
  | some a ↦
      if ltb 0 (delayr a.device)
      then simmem_read32 (bit_and addr a.size_mask) (mem.ram a.device)
      else 0
]

-- An exception leaves the memory, the cache and the configuration.
pub except_handle-keeps :
    (e : Exception) (ea : ℕ) (m : Machine)
    → ((except_handle e ea m).mem ≡ m.mem)
      × ((except_handle e ea m).dc ≡ m.dc)
      × ((except_handle e ea m).config ≡ m.config)
unfolding except_handle debug_ignore_exception set_stall_state deliver
except_handle-keeps e ea m = elim (Bool-cases (debug_ignore_exception e m).1) [
  | inl ignored ↦ rw ignored (refl, refl, refl)
  | inr taken ↦ rw taken (refl, refl, refl)
]

-- What a read of a word from plain memory does.
pub record IsRead (delayr : ℕ → ℕ) (addr : ℕ) (m : Machine) (out : Machine × ℕ) : Type 0 where
  pub value : out.1 ≡ word_of delayr m.mem addr
  pub ram : out.0.mem.ram ≡ m.mem.ram
  pub areas : out.0.mem.dev_list ≡ m.mem.dev_list
  pub area : current out.0.mem ≡ area_of m.mem addr
  pub dc : out.0.dc ≡ m.dc
  pub config : out.0.config ≡ m.config

looked_up :
    (addr : ℕ) (mem : Memory)
    → addr < 2 ^ 32
    → IsMapped mem
    → current (verify_memoryarea addr mem) ≡ area_of mem addr
unfolding current area_of
looked_up addr mem h p =
    rw (current, verify_memoryarea_lem addr mem h p, (verify_memoryarea-keeps addr mem).0) refl

outside :
    (bus : Bus) (addr vaddr : ℕ) (m : Machine)
    → current (verify_memoryarea addr m.mem) ≡ none
    → evalsim_mem bus Width.word addr vaddr m ≡ (except_handle buserr vaddr (lookup addr m), 0)
unfolding evalsim_mem lookup
outside bus addr vaddr m e = rw (evalsim_mem, e) refl

inside :
    (delayr delayw : ℕ → ℕ) (addr vaddr : ℕ) (a : Area) (m : Machine)
    → current (verify_memoryarea addr m.mem) ≡ some a
    → evalsim_mem (ram_bus delayr delayw) Width.word addr vaddr m ≡ (
      record (lookup addr m) { mem_cycles = (lookup addr m).mem_cycles + a.delayr },
      if ltb 0 (delayr a.device)
          then simmem_read32 (bit_and addr a.size_mask) ((lookup addr m).mem.ram a.device)
          else 0,
    )
unfolding evalsim_mem readfunc ram_bus lookup simmem_read
inside delayr delayw addr vaddr a m e = rw (evalsim_mem, e) refl

pub evalsim_mem-IsRead :
    (delayr delayw : ℕ → ℕ) (addr vaddr : ℕ) (m : Machine)
    → addr < 2 ^ 32
    → IsMapped m.mem
    → IsRead delayr addr m (evalsim_mem (ram_bus delayr delayw) Width.word addr vaddr m)
unfolding lookup word_of
evalsim_mem-IsRead delayr delayw addr vaddr m h p =
    let place = looked_up addr m.mem h p in
    let keeps = verify_memoryarea-keeps addr m.mem in
    elim (Option-cases (area_of m.mem addr)) [
      | inl nowhere ↦
          let raised = except_handle-keeps buserr vaddr (lookup addr m) in
          subst (IsRead delayr addr m)
            (sym (outside (ram_bus delayr delayw) addr vaddr m (place ∙ nowhere)))
            record {
              value = rw (word_of, nowhere) refl;
              ram = ap (λ q. q.ram) raised.0 ∙ keeps.1;
              areas = ap (λ q. q.dev_list) raised.0 ∙ keeps.0;
              area = ap current raised.0 ∙ place;
              dc = raised.1;
              config = raised.2;
            }
      | inr (a, found) ↦
          subst (IsRead delayr addr m) (sym (inside delayr delayw addr vaddr a m (place ∙ found)))
            record {
              value = rw (word_of, found, keeps.1) refl;
              ram = keeps.1;
              areas = keeps.0;
              area = place;
              dc = refl;
              config = refl;
            }
    ]
