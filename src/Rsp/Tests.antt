-- ===== src/Rsp/Tests.antt =====
-- Runs of the remote serial protocol.
use mathlib.Core.Path.{subst}
use openrisc_tools.Prelude.{
  ap, length, ◌≤◌, ℕ, ◌+◌, ◌%◌, ◌^◌, ◌≡◌, refl, arith, false, some, List, [], ◌∷◌, ◌++◌, zero, suc,
  ltb, IfOr, none,
}
use openrisc_tools.Prelude.Int.{to_u32}
use openrisc_tools.Sample.{bare_sample}
use openrisc_tools.Memory.Tests.{plain}
use openrisc_tools.Icache.{ic_inv}
use openrisc_tools.Access.{eval_direct32, set_program32}
use openrisc_tools.Rsp.Hex.{hex, hex2reg, hex2reg_from, reg2hex, reg2hex_from}
use openrisc_tools.Rsp.Packet.{ack_char, framed, get_packet, put_body, rsp_unescape}
use openrisc_tools.Rsp.Matchpoints.{
  MpHash, Target, bp_memory, chain_lookup, mp_hash_add, mp_hash_lookup,
}
use openrisc_tools.Machine.{Machine}
use openrisc_tools.Rsp.Registers.{
  read_gprs, rsp_read_all_regs, rsp_read_reg, rsp_write_all_regs, rsp_write_reg, set_npc,
  write_gprs,
}
use openrisc_tools.Rsp.Settings.{rsp_read_reg-rsp_write_reg}
use openrisc_tools.Rsp.Overrun.{get_packet_overrun, put_body_longer}
use openrisc_tools.Rsp.Digits.{hex2reg-reg2hex}
use openrisc_tools.Rsp.Frames.{get_packet-framed}
use openrisc_tools.Rsp.Breakpoints.{
  insert_at, remove_at, mp_hash_lookup-mp_hash_add, rsp_remove_matchpoint-rsp_insert_matchpoint,
}

hex2reg-reg2hex_example : hex2reg (reg2hex 0xdead_beef) % 2 ^ 32 ≡ 0xdead_beef
hex2reg-reg2hex_example = hex2reg-reg2hex 0xdead_beef (omega arith)

-- The sign of the register fills the upper half of the result.
sign_extended : hex2reg (reg2hex 0x8000_2000) ≡ 0xffff_ffff_8000_2000
unfolding hex2reg hex2reg_from reg2hex reg2hex_from hex to_u32
sign_extended = refl

-- The bytes of `a}$` behind an acknowledgement, and in front of another packet.
abbrev message : List ℕ
message = 0x61 ∷ 0x7d ∷ 0x24 ∷ []

get_packet-framed_example :
    (body : List ℕ) × (get_packet
        (record { input = (0x2b ∷ []) ++ (framed message ++ (0x24 ∷ [])); output = [] })
      ≡ (record { input = 0x24 ∷ []; output = [] ++ ack_char ∷ [] }, some body))
    × (rsp_unescape body ≡ message)
unfolding put_body
get_packet-framed_example =
    get_packet-framed message (0x2b ∷ []) (0x24 ∷ []) [] ((λ e. omega (arith, e)), tt) (omega arith)

-- A request for all registers.
abbrev zeros : ℕ → List ℕ
zeros zero = []
zeros (suc n) = 0x30 ∷ zeros n

length-zeros : (n : ℕ) → length (zeros n) ≡ n
length-zeros zero = refl
length-zeros (suc n) = omega (arith, length-zeros n)

one_more : (n : ℕ) → 281 ≤ n → 280 ≤ n
one_more n h = omega (arith, h)

full_request : 280 ≤ length (put_body (0x47 ∷ zeros 280) 0).0
full_request =
    let long : length (0x47 ∷ zeros 280) ≡ 281 = ap suc (length-zeros 280) in
    one_more _ (
      subst (λ n. n ≤ length (put_body (0x47 ∷ zeros 280) 0).0) long
        (put_body_longer (0x47 ∷ zeros 280) 0))

get_packet_overrun_example :
    get_packet (record { input = [] ++ (framed (0x47 ∷ zeros 280) ++ []); output = [] })
    ≡ (record { input = []; output = [] }, none)
get_packet_overrun_example = get_packet_overrun (0x47 ∷ zeros 280) [] [] [] tt tt full_request

rsp_read_reg-rsp_write_reg_example :
    IfOr
      (ltb 33 35)
      ((m' : Machine) × (rsp_write_reg (some (33, reg2hex 0x8000_2000)) bare_sample ≡ some m')
        × (rsp_read_reg (some 33) m' ≡ some (reg2hex 0x8000_2000)))
      ((rsp_write_reg (some (33, reg2hex 0x8000_2000)) bare_sample ≡ none)
        × (rsp_read_reg (some 33) bare_sample ≡ none))
rsp_read_reg-rsp_write_reg_example =
    rsp_read_reg-rsp_write_reg 33 0x8000_2000 bare_sample (omega arith) (omega arith)

-- The letter of the request is taken for the first digit.
shifted_registers :
    (rsp_write_all_regs (0x47 ∷ rsp_read_all_regs bare_sample) bare_sample).reg 0 ≡ 0xf000_0000
unfolding rsp_write_all_regs rsp_read_all_regs write_gprs read_gprs set_npc hex2reg hex2reg_from
    reg2hex reg2hex_from hex to_u32
shifted_registers = refl

-- Two addresses that share a chain.
abbrev one_breakpoint : MpHash
one_breakpoint = mp_hash_add bp_memory 0x2000 0x1500_0000 (λ i. [])

mp_hash_lookup-mp_hash_add_example :
    mp_hash_lookup bp_memory 0x2000 (mp_hash_add bp_memory (0x2000 + 1021) 0xa8 one_breakpoint)
    ≡ mp_hash_lookup bp_memory 0x2000 one_breakpoint
mp_hash_lookup-mp_hash_add_example =
    mp_hash_lookup-mp_hash_add bp_memory (0x2000 + 1021) 0xa8 bp_memory 0x2000 one_breakpoint

abbrev target : Target
target = record { machine = bare_sample; mp_hash = one_breakpoint }

rsp_remove_matchpoint-rsp_insert_matchpoint_example :
    let twice = insert_at plain 0x2004 (insert_at plain 0x2004 target) in
    remove_at plain 0x2004 twice ≡ record {
      machine =
          set_program32 plain 0x2004
            (eval_direct32 plain 0x2004 false false bare_sample).1
            (ic_inv 0x2004 twice.machine);
      mp_hash = one_breakpoint;
    }
unfolding mp_hash_lookup mp_hash_add chain_lookup
rsp_remove_matchpoint-rsp_insert_matchpoint_example =
    rsp_remove_matchpoint-rsp_insert_matchpoint plain 0x2004 target refl
