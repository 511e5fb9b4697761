-- ===== src/Rsp/Breakpoints.antt =====
-- The table of matchpoints as a map, and the breakpoints of or1ksim/debug/rsp-server.c.
use openrisc_tools.Prelude.{
  ℕ, ◌%◌, ◌^◌, ◌≡◌, ◌∙◌, sym, refl, ap, arith, fun_ext, true, false, ◌&&◌, ◌==◌, Bool-cases,
  Option-cases, inl, inr, if◌then◌else◌, if_true, if_false, Option, none, some, List, ◌∷◌, ==_refl,
}
use openrisc_tools.Prelude.Update.{update, update_self}
use openrisc_tools.Memory.{Bus}
use openrisc_tools.Icache.{ic_inv}
use openrisc_tools.Access.{eval_direct32, set_program32}
use openrisc_tools.Rsp.Matchpoints.{
  MpEntry, MpHash, Target, is_mp, bp_memory, mp_hash_size, chain_lookup, chain_delete,
  mp_hash_lookup, mp_hash_add, mp_hash_delete, rsp_insert_matchpoint, rsp_remove_matchpoint,
}

own_mp :
    (type addr instr : ℕ)
    → is_mp type addr (record { type = type; addr = addr; instr = instr }) ≡ true
own_mp type addr instr = rw (==_refl type, ==_refl addr)

-- A new entry is the head of its chain.
abbrev added : ℕ → ℕ → ℕ → MpHash → MpHash
added type addr instr h =
    update h (addr % mp_hash_size)
      (record { type = type; addr = addr; instr = instr } ∷ h (addr % mp_hash_size))

add_new :
    (type addr instr : ℕ) (h : MpHash)
    → mp_hash_lookup type addr h ≡ none
    → mp_hash_add type addr instr h ≡ added type addr instr h
unfolding mp_hash_lookup mp_hash_add
add_new type addr instr h e = rw (mp_hash_add, e) refl

add_again :
    (type addr instr : ℕ) (curr : MpEntry) (h : MpHash)
    → mp_hash_lookup type addr h ≡ some curr
    → mp_hash_add type addr instr h ≡ h
unfolding mp_hash_lookup mp_hash_add
add_again type addr instr curr h e = rw (mp_hash_add, e) refl

lookup_added :
    (type addr instr : ℕ) (h : MpHash)
    → mp_hash_lookup type addr (added type addr instr h)
      ≡ some (record { type = type; addr = addr; instr = instr })
unfolding mp_hash_lookup chain_lookup
lookup_added type addr instr h =
    let new : MpEntry = record { type = type; addr = addr; instr = instr } in
    ap (chain_lookup type addr)
      (update_self h (addr % mp_hash_size) (new ∷ h (addr % mp_hash_size)))
    ∙ if_true _ _ (own_mp type addr instr)

delete_added :
    (type addr instr : ℕ) (h : MpHash)
    → mp_hash_delete type addr (added type addr instr h)
      ≡ (h, some (record { type = type; addr = addr; instr = instr }))
unfolding mp_hash_delete chain_delete
delete_added type addr instr h =
    let hv = addr % mp_hash_size in
    let new : MpEntry = record { type = type; addr = addr; instr = instr } in
    let back : update (added type addr instr h) hv (h hv) ≡ h = fun_ext (λ j. ground arith) in
    ap
      (λ chain. (
        update (added type addr instr h) hv (chain_delete type addr chain).0,
        (chain_delete type addr chain).1,
      ))
      (update_self h hv (new ∷ h hv))
    ∙ ap (λ (x : List MpEntry × Option MpEntry). (update (added type addr instr h) hv x.0, x.1))
        (if_true _ _ (own_mp type addr instr))
    ∙ ap (λ k. (k, some new)) back

-- What a lookup finds after an entry has been added.
abbrev first : Option MpEntry → MpEntry → MpEntry
first none new = new
first (some curr) new = curr

lookup_other :
    (type addr instr type' addr' : ℕ) (h : MpHash)
    → (type' == type && addr' == addr) ≡ false
    → mp_hash_lookup type' addr' (added type addr instr h) ≡ mp_hash_lookup type' addr' h
unfolding mp_hash_lookup chain_lookup
lookup_other type addr instr type' addr' h other =
    let hv = addr % mp_hash_size in
    let hv' = addr' % mp_hash_size in
    let new : MpEntry = record { type = type; addr = addr; instr = instr } in
    elim (Bool-cases (hv' == hv)) [
      | inl e ↦
          let one : hv' ≡ hv = ground (arith, e) in
          ap (chain_lookup type' addr') (if_true (new ∷ h hv) (h hv') e)
          ∙ if_false (some new) (chain_lookup type' addr' (h hv)) other
          ∙ ap (λ j. chain_lookup type' addr' (h j)) (sym one)
      | inr e ↦ ap (chain_lookup type' addr') (if_false (new ∷ h hv) (h hv') e)
    ]

-- The table of matchpoints is a map from a type and an address: after an entry has been added, its
-- key has the entry that it had before, or else the new one, and every other key what it had.
pub mp_hash_lookup-mp_hash_add :
    (type addr instr type' addr' : ℕ) (h : MpHash)
    → let new : MpEntry = record { type = type; addr = addr; instr = instr } in
      mp_hash_lookup type' addr' (mp_hash_add type addr instr h) ≡ (
        if type' == type && addr' == addr
        then some (first (mp_hash_lookup type addr h) new)
        else mp_hash_lookup type' addr' h)
mp_hash_lookup-mp_hash_add type addr instr type' addr' h =
    let new : MpEntry = record { type = type; addr = addr; instr = instr } in
    let before = mp_hash_lookup type' addr' h in
    elim (Bool-cases (type' == type && addr' == addr)) [
      | inl e ↦
          let t : type' ≡ type = ground (arith, e) in
          let a : addr' ≡ addr = ground (arith, e) in
          let own : mp_hash_lookup type addr (mp_hash_add type addr instr h)
              ≡ some (first (mp_hash_lookup type addr h) new) =
            elim (Option-cases (mp_hash_lookup type addr h)) [
              | inl nothing ↦
                  ap (mp_hash_lookup type addr) (add_new type addr instr h nothing)
                  ∙ lookup_added type addr instr h
                  ∙ ap (λ o. some (first o new)) (sym nothing)
              | inr (curr, there) ↦
                  ap (mp_hash_lookup type addr) (add_again type addr instr curr h there)
                  ∙ there
                  ∙ ap (λ o. some (first o new)) (sym there)
            ] in
          ap (λ k. mp_hash_lookup k addr' (mp_hash_add type addr instr h)) t
          ∙ ap (λ k. mp_hash_lookup type k (mp_hash_add type addr instr h)) a
          ∙ own
          ∙ sym (if_true (some (first (mp_hash_lookup type addr h) new)) before e)
      | inr e ↦
          let kept : mp_hash_lookup type' addr' (mp_hash_add type addr instr h) ≡ before =
            elim (Option-cases (mp_hash_lookup type addr h)) [
              | inl nothing ↦
                  ap (mp_hash_lookup type' addr') (add_new type addr instr h nothing)
                  ∙ lookup_other type addr instr type' addr' h e
              | inr (curr, there) ↦
                  ap (mp_hash_lookup type' addr') (add_again type addr instr curr h there)
            ] in
          kept ∙ sym (if_false (some (first (mp_hash_lookup type addr h) new)) before e)
    ]

-- The breakpoint requests of a debugger.
abbrev pub insert_at : Bus → ℕ → Target → Target
insert_at bus addr t = (rsp_insert_matchpoint bus (some (bp_memory, addr)) t).0

abbrev pub remove_at : Bus → ℕ → Target → Target
remove_at bus addr t = (rsp_remove_matchpoint bus (some (bp_memory, addr)) t).0

-- Where no breakpoint is set at an address: when a breakpoint is inserted there, and inserted once
-- more, because a packet has been sent again, its removal writes back the instruction that was read
-- in front of the first insertion, and not the trap, and leaves the table as it was.
pub rsp_remove_matchpoint-rsp_insert_matchpoint :
    (bus : Bus) (addr : ℕ) (t : Target)
    → mp_hash_lookup bp_memory addr t.mp_hash ≡ none
    → let twice = insert_at bus addr (insert_at bus addr t) in
      let instr = (eval_direct32 bus (addr % 2 ^ 32) false false t.machine).1 in
      remove_at bus addr twice ≡ record {
        machine = set_program32 bus (addr % 2 ^ 32) instr (ic_inv (addr % 2 ^ 32) twice.machine);
        mp_hash = t.mp_hash;
      }
unfolding rsp_insert_matchpoint rsp_remove_matchpoint
rsp_remove_matchpoint-rsp_insert_matchpoint bus addr t e =
    let once = insert_at bus addr t in
    let twice = insert_at bus addr once in
    let instr = (eval_direct32 bus (addr % 2 ^ 32) false false t.machine).1 in
    let again = (eval_direct32 bus (addr % 2 ^ 32) false false once.machine).1 in
    let table : mp_hash_add bp_memory addr again (mp_hash_add bp_memory addr instr t.mp_hash)
        ≡ added bp_memory addr instr t.mp_hash =
      ap (mp_hash_add bp_memory addr again) (add_new bp_memory addr instr t.mp_hash e)
      ∙ add_again bp_memory addr again (record { type = bp_memory; addr = addr; instr = instr })
          (added bp_memory addr instr t.mp_hash) (lookup_added bp_memory addr instr t.mp_hash) in
    let done = λ (x : MpHash × Option MpEntry).
      let after : Target = record {
        machine = elim x.1 [
          | none ↦ twice.machine
          | some m ↦
              set_program32 bus (addr % 2 ^ 32) m.instr (ic_inv (addr % 2 ^ 32) twice.machine)
        ];
        mp_hash = x.0;
      } in
      after in
    ap (λ h. done (mp_hash_delete bp_memory addr h)) table
    ∙ ap done (delete_added bp_memory addr instr t.mp_hash)
