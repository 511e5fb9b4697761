-- ===== src/Insn/Tests.antt =====
-- Instructions at a concrete processor.
use openrisc_tools.Prelude.{
  ◌*◌, ◌==◌, if◌then◌else◌, ◌+◌, ◌%◌, ◌^◌, ◌≡◌, ◌∙◌, refl, not, leb, inl, inr, arith,
}
use openrisc_tools.Prelude.Int.{◌+ℤ◌, ◌*ℤ◌}
use openrisc_tools.Prelude.Update.{update}
use openrisc_tools.Machine.{Machine, spr_sr, spr_maclo, spr_machi}
use openrisc_tools.Sample.{sample, bare_sample}
use openrisc_tools.Memory.{Width, bits, cut}
use openrisc_tools.Memory.Tests.{plain, low_area, two_areas-IsMapped, two_areas-OwnDevices}
use openrisc_tools.Access.Bare.{IsBare}
use openrisc_tools.Sched.Room.{HasRoom}
use openrisc_tools.Except.{
  dsr_mask, except_handle, before_delay, debug_ignore_exception, set_stall_state, deliver,
}
use openrisc_tools.Sprs.{Caches, ran}
use openrisc_tools.Insn.Flags.{signed}
use openrisc_tools.Insn.Arith.{l_add, count_byte, sign_extend}
use openrisc_tools.Insn.Jump.{l_rfe, l_sys}
use openrisc_tools.Insn.Mac.{l_mac, l_msb}
use openrisc_tools.Insn.Accumulate.{l_msb-l_mac}
use openrisc_tools.Insn.Overflow.{fits}
use openrisc_tools.Insn.Results.{IsWritten, Ends, l_add_lem}
use openrisc_tools.Insn.Exceptions.{l_rfe-l_sys}
use openrisc_tools.Insn.Memory.{l_load, l_store, l_lbs, l_sb}
use openrisc_tools.Insn.Signed.{l_mul}
use openrisc_tools.Insn.Products.{l_mul_lem}
use openrisc_tools.Insn.Transfer.{l_load-l_store}

-- The largest signed number and 1.
l_add_lem_example :
    let value = (1 + 0x7fff_ffff) % 2 ^ 32 in
    let overflow = not (fits (signed 0x7fff_ffff +ℤ signed 1)) in
    (m' : Machine) × (out : Machine) × (l_add 3 0x7fff_ffff 1 sample ≡ count_byte value out)
    × IsWritten 3 value overflow (leb (2 ^ 32) (0x7fff_ffff + 1)) sample m'
    × Ends overflow m' out
unfolding dsr_mask
l_add_lem_example = l_add_lem 3 0x7fff_ffff 1 sample (omega arith) (omega arith) refl

abbrev no_caches : Caches
no_caches = record {
  dc_simulate_read = λ a b c m. m;
  dc_inv = λ a m. m;
  ic_simulate_fetch = λ a b m. m;
  ic_inv = λ a m. m;
}

called-HasRoom : HasRoom 1 (l_sys sample).sched
unfolding l_sys except_handle debug_ignore_exception set_stall_state deliver dsr_mask
called-HasRoom = record { guarded = inr (inl refl); spare = omega arith }

-- A handler that returns at once.
l_rfe-l_sys_example :
    (m' : Machine) × (l_rfe no_caches (l_sys sample) ≡ ran m')
    × (m'.sprs spr_sr ≡ sample.sprs spr_sr)
    × (m'.pcnext ≡ before_delay sample ((sample.pc + 4) % 2 ^ 32))
unfolding dsr_mask
l_rfe-l_sys_example = l_rfe-l_sys no_caches sample (l_sys sample) refl refl refl refl called-HasRoom

-- The accumulator holds -1, and the product is negative.
abbrev busy : Machine
busy = record sample {
  sprs = update (update sample.sprs spr_maclo 0xffff_ffff) spr_machi 0xffff_ffff;
}

l_msb-l_mac_example :
    (l_msb 7 0xffff_fffd (l_mac 7 0xffff_fffd busy)).sprs spr_machi ≡ busy.sprs spr_machi
l_msb-l_mac_example = l_msb-l_mac 7 0xffff_fffd spr_machi busy (omega arith) (omega arith)

-- The smallest signed number and -1.
l_mul_lem_example :
    let overflow = not (fits (signed 0x8000_0000 *ℤ signed 0xffff_ffff)) in
    (m' : Machine) × IsWritten 3
      (0x8000_0000 * 0xffff_ffff % 2 ^ 32)
      overflow
      (leb (2 ^ 32) (0x8000_0000 * 0xffff_ffff))
      sample
      m'
    × Ends overflow m' (l_mul 3 0x8000_0000 0xffff_ffff sample)
unfolding dsr_mask
l_mul_lem_example = l_mul_lem 3 0x8000_0000 0xffff_ffff sample (omega arith) (omega arith) refl

bare_sample-IsBare : IsBare bare_sample
bare_sample-IsBare = record {
  mmu = refl;
  cache = refl;
  debug = refl;
  counters = refl;
  quiet = refl;
  unbroken = refl;
}

-- A signed byte, over a store buffer of one word.
l_load-l_store_example :
    (l_load plain Width.byte
        (sign_extend 8)
        5
        0x103
        (l_store plain Width.byte 0x103 0x1ff bare_sample)).reg
      5
    ≡ (if 5 == 5
        then (if 5 == 0 then 0 else sign_extend 8 (cut Width.byte 0x1ff))
        else bare_sample.reg 5)
unfolding bits
l_load-l_store_example =
    l_load-l_store (λ d. 1) (λ d. 1) Width.byte 0x103 0x1ff 0 low_area bare_sample
      bare_sample-IsBare (omega arith) refl two_areas-IsMapped two_areas-OwnDevices refl refl
      (omega arith) (omega arith) (omega arith) (sign_extend 8) 5 5

loaded : (l_lbs plain 5 0x103 (l_sb plain 0x103 0x1ff bare_sample)).reg 5 ≡ 0xffff_ffff
unfolding cut
loaded = l_load-l_store_example ∙ refl
