-- ===== src/Insn/Compare.antt =====
-- The instructions that set the condition flag.
use openrisc_tools.Prelude.{ℕ, not, ◌==◌, leb, ltb}
use openrisc_tools.Prelude.Int.{ltb_ℤ, leb_ℤ}
use openrisc_tools.Machine.{Machine, spr_sr_f}
use openrisc_tools.Insn.Flags.{put_flag, signed}

unfoldable pub l_sfeq : ℕ → ℕ → Machine → Machine
unfolding put_flag
l_sfeq a b = put_flag spr_sr_f (a == b)

unfoldable pub l_sfne : ℕ → ℕ → Machine → Machine
unfolding put_flag
l_sfne a b = put_flag spr_sr_f (not (a == b))

unfoldable pub l_sfgts : ℕ → ℕ → Machine → Machine
unfolding put_flag
l_sfgts a b = put_flag spr_sr_f (ltb_ℤ (signed b) (signed a))

unfoldable pub l_sfges : ℕ → ℕ → Machine → Machine
unfolding put_flag
l_sfges a b = put_flag spr_sr_f (leb_ℤ (signed b) (signed a))

unfoldable pub l_sflts : ℕ → ℕ → Machine → Machine
unfolding put_flag
l_sflts a b = put_flag spr_sr_f (ltb_ℤ (signed a) (signed b))

unfoldable pub l_sfles : ℕ → ℕ → Machine → Machine
unfolding put_flag
l_sfles a b = put_flag spr_sr_f (leb_ℤ (signed a) (signed b))

unfoldable pub l_sfgtu : ℕ → ℕ → Machine → Machine
unfolding put_flag
l_sfgtu a b = put_flag spr_sr_f (ltb b a)

unfoldable pub l_sfgeu : ℕ → ℕ → Machine → Machine
unfolding put_flag
l_sfgeu a b = put_flag spr_sr_f (leb b a)

unfoldable pub l_sfltu : ℕ → ℕ → Machine → Machine
unfolding put_flag
l_sfltu a b = put_flag spr_sr_f (ltb a b)

unfoldable pub l_sfleu : ℕ → ℕ → Machine → Machine
unfolding put_flag
l_sfleu a b = put_flag spr_sr_f (leb a b)
