-- ===== src/Insn/Memory.antt =====
-- Loads and stores, with the store buffer, of or1ksim/cpu/or32/insnset.c.
use openrisc_tools.Prelude.{ℕ, ◌-◌, not, ◌||◌, ◌==◌, if◌then◌else◌}
use openrisc_tools.Prelude.Int.{pos, pos_part}
use openrisc_tools.Machine.{Machine}
use openrisc_tools.Memory.{Width, Bus}
use openrisc_tools.Access.{eval_mem, set_mem}
use openrisc_tools.Sbuf.{Sbuf, sbuf_store, sbuf_load}
use openrisc_tools.Insn.Flags.{setsim_reg}
use openrisc_tools.Insn.Arith.{sign_extend}

-- A call of the store buffer, which adds to `runtime.sim.mem_cycles`.
abbrev pub with_sbuf : (Sbuf → Sbuf) → Machine → Machine
with_sbuf f m =
    let s = f (record m.sbuf { mem_cycles = pos m.mem_cycles }) in
    record m { sbuf = s; mem_cycles = pos_part s.mem_cycles }

-- The address is the first operand; `l.sw`, `l.sh` and `l.sb`.
unfoldable pub l_store : Bus → Width → ℕ → ℕ → Machine → Machine
unfolding set_mem sbuf_store
l_store bus w a b m =
    let old_cyc = m.mem_cycles in
    let m1 = set_mem bus w a b m in
    let t = m1.mem_cycles in
    let m2 = record m1 { mem_cycles = old_cyc } in
    if m.config.sbuf_len == 0
    then m1
    else with_sbuf (sbuf_store m.config.sbuf_len (pos m2.cycles) (pos (t - old_cyc))) m2

abbrev pub l_sw : Bus → ℕ → ℕ → Machine → Machine
l_sw bus = l_store bus Width.word

abbrev pub l_sh : Bus → ℕ → ℕ → Machine → Machine
l_sh bus = l_store bus Width.half

abbrev pub l_sb : Bus → ℕ → ℕ → Machine → Machine
l_sb bus = l_store bus Width.byte

-- `convert` is the type of `val`, with the conversion to a register's.
unfoldable pub l_load : Bus → Width → (ℕ → ℕ) → ℕ → ℕ → Machine → Machine
unfolding eval_mem sbuf_load setsim_reg
l_load bus w convert d a m =
    let m1 = if m.config.sbuf_len == 0 then m else with_sbuf (sbuf_load (pos m.cycles)) m in
    let (m2, val) = eval_mem bus w a m1 in
    if not (m2.except_pending || not (m2.breakpoint == 0))
    then setsim_reg d (convert val) m2
    else m2

abbrev pub l_lws : Bus → ℕ → ℕ → Machine → Machine
l_lws bus = l_load bus Width.word (λ val. val)

abbrev pub l_lwz : Bus → ℕ → ℕ → Machine → Machine
l_lwz bus = l_load bus Width.word (λ val. val)

abbrev pub l_lhs : Bus → ℕ → ℕ → Machine → Machine
l_lhs bus = l_load bus Width.half (sign_extend 16)

abbrev pub l_lhz : Bus → ℕ → ℕ → Machine → Machine
l_lhz bus = l_load bus Width.half (λ val. val)

abbrev pub l_lbs : Bus → ℕ → ℕ → Machine → Machine
l_lbs bus = l_load bus Width.byte (sign_extend 8)

abbrev pub l_lbz : Bus → ℕ → ℕ → Machine → Machine
l_lbz bus = l_load bus Width.byte (λ val. val)
