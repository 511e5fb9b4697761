-- ===== src/Rsp/Registers.antt =====
-- The requests for registers of or1ksim/debug/rsp-server.c. What `sscanf` finds in a request is an
-- argument, and the packet of the reply is the result.
use openrisc_tools.Prelude.{
  ℕ, zero, suc, ◌+◌, ◌*◌, ◌%◌, ◌^◌, false, ltb, ◌==◌, if◌then◌else◌, Option, none, some, List, [],
  ◌∷◌, ◌++◌,
}
use openrisc_tools.Machine.{Machine, set_reg, set_spr, spr_ppc, spr_sr}
use openrisc_tools.Rsp.Hex.{hex2reg, reg2hex}

abbrev pub num_gprs : ℕ
num_gprs = 32

abbrev pub ppc_regnum : ℕ
ppc_regnum = num_gprs + 0

abbrev pub npc_regnum : ℕ
npc_regnum = num_gprs + 1

abbrev pub sr_regnum : ℕ
sr_regnum = num_gprs + 2

-- The address has 64 bits, and the pc 32.
unfoldable pub set_npc : ℕ → Machine → Machine
set_npc addr m =
    if m.pc == addr
    then m
    else record m { pc = addr % 2 ^ 32; delay_insn = false; pcnext = (addr + 4) % 2 ^ 32 }

-- The value of a register, and `none` for one that is not known.
unfoldable pub reg_value : ℕ → Machine → Option ℕ
reg_value regnum m =
    if ltb regnum num_gprs
    then some (m.reg regnum)
    else if regnum == ppc_regnum
    then some (m.sprs spr_ppc)
    else if regnum == npc_regnum
    then some m.pc
    else if regnum == sr_regnum
    then some (m.sprs spr_sr)
    else none

-- The reply; `none` is "E01".
unfoldable pub rsp_read_reg : Option ℕ → Machine → Option (List ℕ)
unfolding reg_value reg2hex
rsp_read_reg none m = none
rsp_read_reg (some regnum) m = elim (reg_value regnum m) [ none ↦ none | some v ↦ some (reg2hex v) ]

unfoldable pub set_value : ℕ → ℕ → Machine → Option Machine
unfolding set_npc
set_value regnum v m =
    if ltb regnum num_gprs
    then some (set_reg regnum (v % 2 ^ 32) m)
    else if regnum == ppc_regnum
    then some (set_spr spr_ppc (v % 2 ^ 32) m)
    else if regnum == npc_regnum
    then some (set_npc v m)
    else if regnum == sr_regnum
    then some (set_spr spr_sr (v % 2 ^ 32) m)
    else none

-- The reply is "OK", or "E01" for `none`.
unfoldable pub rsp_write_reg : Option (ℕ × List ℕ) → Machine → Option Machine
unfolding set_value hex2reg
rsp_write_reg none m = none
rsp_write_reg (some (regnum, valstr)) m = set_value regnum (hex2reg valstr) m

-- `&(buf.data[r * 8])` and the registers from `r` on.
abbrev pub buf_at : ℕ → List ℕ → List ℕ
buf_at zero bytes = bytes
buf_at (suc n) [] = []
buf_at (suc n) (ch ∷ bytes) = buf_at n bytes

unfoldable pub read_gprs : ℕ → ℕ → Machine → List ℕ
unfolding reg2hex
read_gprs zero r m = []
read_gprs (suc rounds) r m = reg2hex (m.reg r) ++ read_gprs rounds (r + 1) m

unfoldable pub rsp_read_all_regs : Machine → List ℕ
unfolding read_gprs reg2hex
rsp_read_all_regs m =
    read_gprs num_gprs 0 m
    ++ (reg2hex (m.sprs spr_ppc) ++ (reg2hex m.pc ++ reg2hex (m.sprs spr_sr)))

unfoldable pub write_gprs : ℕ → ℕ → List ℕ → Machine → Machine
unfolding hex2reg
write_gprs zero r bytes m = m
write_gprs (suc rounds) r bytes m =
    write_gprs rounds (r + 1) bytes (set_reg r (hex2reg (buf_at (r * 8) bytes) % 2 ^ 32) m)

-- The packet is read from its first character on, which is the `G` of the request.
unfoldable pub rsp_write_all_regs : List ℕ → Machine → Machine
unfolding write_gprs set_npc hex2reg
rsp_write_all_regs bytes m =
    let m1 = write_gprs num_gprs 0 bytes m in
    let m2 = set_spr spr_ppc (hex2reg (buf_at (ppc_regnum * 8) bytes) % 2 ^ 32) m1 in
    let m3 = set_spr spr_sr (hex2reg (buf_at (sr_regnum * 8) bytes) % 2 ^ 32) m2 in
    set_npc (hex2reg (buf_at (npc_regnum * 8) bytes)) m3
