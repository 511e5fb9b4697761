-- ===== src/Watch/Match.antt =====
-- The matchpoints. A `long` has 64 bits, so a register stands in it as the number that it is, and
-- the signed comparison and the unsigned one are the same.
use openrisc_tools.Prelude.{
  ℕ, zero, suc, ◌+◌, ◌%◌, ◌^◌, Bool, false, not, ◌&&◌, ◌||◌, ◌==◌, leb, ltb, if◌then◌else◌, bit_and,
}
use openrisc_tools.Machine.{
  Machine, test, spr_dcr_dp, spr_dcr_cc, spr_dcr_ct, spr_dcr_cc_masked, spr_dcr_cc_equal,
  spr_dcr_cc_less, spr_dcr_cc_lesse, spr_dcr_cc_great, spr_dcr_cc_greate, spr_dcr_cc_nequal,
  spr_dcr_ct_ifea, spr_dcr_ct_lea, spr_dcr_ct_sea, spr_dcr_ct_ld, spr_dcr_ct_sd, spr_dcr_ct_lsea,
  spr_dcr_ct_lsd,
}

pub data Action : Type 0 where
  insn_fetch load_address store_address load_data store_data : Action

abbrev pub spr_dvr : ℕ → ℕ
spr_dvr n = 0x3000 + n

abbrev pub spr_dcr : ℕ → ℕ
spr_dcr n = 0x3000 + 8 + n

-- The `switch` on the kind of access that a matchpoint is for.
unfoldable pub applies : ℕ → Action → Bool
applies ct Action.insn_fetch = ct == spr_dcr_ct_ifea
applies ct Action.load_address = ct == spr_dcr_ct_lea || ct == spr_dcr_ct_lsea
applies ct Action.store_address = ct == spr_dcr_ct_sea || ct == spr_dcr_ct_lsea
applies ct Action.load_data = ct == spr_dcr_ct_ld || ct == spr_dcr_ct_lsd
applies ct Action.store_data = ct == spr_dcr_ct_sd || ct == spr_dcr_ct_lsd

abbrev pub flag : Bool → ℕ
flag b = if b then 1 else 0

-- The `switch` on the comparison. The result of the masked one is cut to an `unsigned char`.
unfoldable pub compared : ℕ → ℕ → ℕ → ℕ
compared cc op1 op2 =
    if cc == spr_dcr_cc_masked
    then bit_and op1 op2 % 2 ^ 8
    else if cc == spr_dcr_cc_equal
    then flag (op1 == op2)
    else if cc == spr_dcr_cc_nequal
    then flag (not (op1 == op2))
    else if cc == spr_dcr_cc_less
    then flag (ltb op1 op2)
    else if cc == spr_dcr_cc_lesse
    then flag (leb op1 op2)
    else if cc == spr_dcr_cc_great
    then flag (ltb op2 op1)
    else if cc == spr_dcr_cc_greate
    then flag (leb op2 op1)
    else 0

-- `mp[i]`.
unfoldable pub matchpoint : Action → ℕ → Machine → ℕ → ℕ
unfolding applies compared
matchpoint action udata m i =
    let dcr = m.sprs (spr_dcr i) in
    if test dcr spr_dcr_dp && applies (bit_and dcr spr_dcr_ct) action
    then compared (bit_and dcr spr_dcr_cc) udata (m.sprs (spr_dvr i))
    else 0

abbrev pub fires : ℕ → Bool
fires x = not (x == 0)

-- `match_found`, of the first `n` matchpoints.
unfoldable pub any_match : (ℕ → ℕ) → ℕ → Bool
any_match mp zero = false
any_match mp (suc n) = any_match mp n || fires (mp n)
