-- ===== src/Rsp/Matchpoints.antt =====
-- The matchpoints of or1ksim/debug/rsp-server.c: the hash table, and the requests to insert and to
-- remove one. What `sscanf` finds in a request is an argument.
use openrisc_tools.Prelude.{
  ℕ, ◌^◌, ◌%◌, Bool, false, ◌&&◌, ◌==◌, ltb, if◌then◌else◌, Option, none, some, List, [], ◌∷◌,
}
use openrisc_tools.Prelude.Update.{update}
use openrisc_tools.Machine.{Machine}
use openrisc_tools.Memory.{Bus}
use openrisc_tools.Icache.{ic_inv}
use openrisc_tools.Access.{eval_direct32, set_program32}

abbrev pub mp_hash_size : ℕ
mp_hash_size = 1021

-- `enum mp_type`.
abbrev pub bp_memory : ℕ
bp_memory = 0

abbrev pub wp_access : ℕ
wp_access = 4

abbrev pub or1k_trap_instr : ℕ
or1k_trap_instr = 0x2100_0001

pub record MpEntry : Type 0 where
  pub type : ℕ
  pub addr : ℕ
  pub instr : ℕ

-- The table of chains.
abbrev pub MpHash : Type 0
MpHash = ℕ → List MpEntry

unfoldable pub mp_hash_init : MpHash → MpHash
mp_hash_init h i = if ltb i mp_hash_size then [] else h i

abbrev pub is_mp : ℕ → ℕ → MpEntry → Bool
is_mp type addr curr = type == curr.type && addr == curr.addr

unfoldable pub chain_lookup : ℕ → ℕ → List MpEntry → Option MpEntry
chain_lookup type addr [] = none
chain_lookup type addr (curr ∷ chain) =
    let rest = chain_lookup type addr chain in if is_mp type addr curr then some curr else rest

unfoldable pub mp_hash_lookup : ℕ → ℕ → MpHash → Option MpEntry
unfolding chain_lookup
mp_hash_lookup type addr h = chain_lookup type addr (h (addr % mp_hash_size))

unfoldable pub mp_hash_add : ℕ → ℕ → ℕ → MpHash → MpHash
unfolding chain_lookup
mp_hash_add type addr instr h =
    let hv = addr % mp_hash_size in
    elim (chain_lookup type addr (h hv)) [
      | some curr ↦ h
      | none ↦ update h hv (record { type = type; addr = addr; instr = instr } ∷ h hv)
    ]

-- The chain without the first entry that matches, and that entry.
unfoldable pub chain_delete : ℕ → ℕ → List MpEntry → List MpEntry × Option MpEntry
chain_delete type addr [] = ([], none)
chain_delete type addr (curr ∷ chain) =
    let rest = chain_delete type addr chain in
    if is_mp type addr curr then (chain, some curr) else (curr ∷ rest.0, rest.1)

unfoldable pub mp_hash_delete : ℕ → ℕ → MpHash → MpHash × Option MpEntry
unfolding chain_delete
mp_hash_delete type addr h =
    let hv = addr % mp_hash_size in
    let (chain, found) = chain_delete type addr (h hv) in (update h hv chain, found)

-- The packets "OK", "E01" and "", the answer for a matchpoint that is not supported.
pub data Reply : Type 0 where
  ok error unsupported : Reply

-- The processor, and the table of the server.
pub record Target : Type 0 where
  pub machine : Machine
  pub mp_hash : MpHash

-- `BP_HARDWARE` to `WP_ACCESS`.
abbrev pub other_type : ℕ → Target → Target × Reply
other_type type t = (t, if ltb wp_access type then Reply.error else Reply.unsupported)

-- The request is the type and the address, if `sscanf` recognizes it. The table keeps the address
-- as an `unsigned long`; memory and cache take its low 32 bits.
unfoldable pub rsp_insert_matchpoint : Bus → Option (ℕ × ℕ) → Target → Target × Reply
unfolding mp_hash_add ic_inv
rsp_insert_matchpoint bus none t = (t, Reply.error)
rsp_insert_matchpoint bus (some (type, addr)) t =
    let (m1, instr) = eval_direct32 bus (addr % 2 ^ 32) false false t.machine in
    let m2 = set_program32 bus (addr % 2 ^ 32) or1k_trap_instr (ic_inv (addr % 2 ^ 32) m1) in
    let inserted : Target = record {
      machine = m2;
      mp_hash = mp_hash_add type addr instr t.mp_hash;
    } in
    if type == bp_memory then (inserted, Reply.ok) else other_type type t

unfoldable pub rsp_remove_matchpoint : Bus → Option (ℕ × ℕ) → Target → Target × Reply
unfolding mp_hash_delete ic_inv
rsp_remove_matchpoint bus none t = (t, Reply.error)
rsp_remove_matchpoint bus (some (type, addr)) t =
    let (h, mpe) = mp_hash_delete type addr t.mp_hash in
    let m : Machine = elim mpe [
      | none ↦ t.machine
      | some e ↦ set_program32 bus (addr % 2 ^ 32) e.instr (ic_inv (addr % 2 ^ 32) t.machine)
    ] in
    let removed : Target = record { machine = m; mp_hash = h } in
    if type == bp_memory then (removed, Reply.ok) else other_type type t
