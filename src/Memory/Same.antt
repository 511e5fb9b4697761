-- ===== src/Memory/Same.antt =====
-- What the accesses of plain memory leave of the processor, or1ksim/cpu/common/abstract.c.
use openrisc_tools.Prelude.{
  ℕ, ◌^◌, ◌<◌, ◌≡◌, ◌∙◌, refl, ap, true, some, Option-cases, inl, inr, Bool-cases, if◌then◌else◌,
  get_elem?, bit_and, ltb,
}
use openrisc_tools.Machine.{Machine, Memory, Area}
use openrisc_tools.Memory.Access.{
  Width, current, lookup, evalsim_mem, setsim_mem, readfunc, writefunc,
}
use openrisc_tools.Memory.Areas.{verify_memoryarea}
use openrisc_tools.Memory.Device.{ram_bus, set_ram, simmem_read}
use openrisc_tools.Memory.Map.{IsMapped, covers}
use openrisc_tools.Memory.Stored.{found}

-- The same processor, but for the memory, the cycles spent on it, the store buffer, the marks that
-- an access goes round the caches, and the instruction in the queue.
abbrev pub SameBut : Machine → Machine → Type 0
SameBut m m' = m' ≡ record m {
  mem = m'.mem;
  mem_cycles = m'.mem_cycles;
  sbuf = m'.sbuf;
  data_ci = m'.data_ci;
  insn_ci = m'.insn_ci;
  insn_addr = m'.insn_addr;
  insn = m'.insn;
  instructions = m'.instructions;
}

pub SameBut-trans : (m m' m'' : Machine) → SameBut m m' → SameBut m' m'' → SameBut m m''
SameBut-trans m m' m'' s t =
    t
    ∙ ap
        (λ (q : Machine). record q {
          mem = m''.mem;
          mem_cycles = m''.mem_cycles;
          sbuf = m''.sbuf;
          data_ci = m''.data_ci;
          insn_ci = m''.insn_ci;
          insn_addr = m''.insn_addr;
          insn = m''.insn;
          instructions = m''.instructions;
        })
        s

module _ (delayr delayw : ℕ → ℕ) (w : Width) (addr vaddr n : ℕ) (a : Area) (m : Machine)
    (h : addr < 2 ^ 32) (p : IsMapped m.mem) (e : get_elem? m.mem.dev_list n ≡ some a)
    (c : covers a addr ≡ true) where
  pub setsim_mem-SameBut :
      (value : ℕ) → SameBut m (setsim_mem (ram_bus delayr delayw) w addr vaddr value m)
  unfolding setsim_mem ram_bus writefunc set_ram current lookup
  setsim_mem-SameBut value =
      let place = found addr n a m.mem h p e c in
      elim (Bool-cases (ltb 0 (delayw a.device))) [
        | inl on ↦ rw (setsim_mem, place, on) refl
        | inr off ↦ rw (setsim_mem, place, off) refl
      ]

  pub evalsim_mem-SameBut : SameBut m (evalsim_mem (ram_bus delayr delayw) w addr vaddr m).0
  unfolding evalsim_mem ram_bus readfunc current lookup
  evalsim_mem-SameBut = let place = found addr n a m.mem h p e c in rw (evalsim_mem, place) refl

-- A read of plain memory depends on the memory alone.
pub evalsim_mem-same :
    (delayr delayw : ℕ → ℕ) (w : Width) (addr vaddr : ℕ) (m m' : Machine)
    → m'.mem ≡ m.mem
    → (evalsim_mem (ram_bus delayr delayw) w addr vaddr m').1
      ≡ (evalsim_mem (ram_bus delayr delayw) w addr vaddr m).1
unfolding evalsim_mem ram_bus readfunc lookup
evalsim_mem-same delayr delayw w addr vaddr m m' same =
    elim (Option-cases (current (verify_memoryarea addr m.mem))) [
      | inl nowhere ↦ rw (evalsim_mem, same, nowhere) refl
      | inr (a, there) ↦
          rw (evalsim_mem, same, there)
            (ap
              (λ (x : Memory).
                if ltb 0 (delayr a.device)
                then simmem_read w (bit_and addr a.size_mask)
                    ((verify_memoryarea addr x).ram a.device)
                else 0)
              same)
    ]
