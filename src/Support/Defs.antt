-- ===== src/Support/Defs.antt =====
-- `log2_int` and `is_power2` of or1ksim/support/misc.c. Each round of their loops halves the
-- argument, so as many rounds as the argument itself are enough.
use openrisc_tools.Prelude.{ℕ, zero, suc, ◌+◌, ◌/◌, ◌%◌, Bool, false, ◌==◌, if◌then◌else◌}

-- `while (x != 1) x >>= 1, c++;`
unfoldable pub log2_loop : ℕ → ℕ → ℕ → ℕ
log2_loop zero x c = c
log2_loop (suc fuel) x c = let rest = log2_loop fuel (x / 2) (c + 1) in if x == 1 then c else rest

unfoldable pub log2_int : ℕ → ℕ
unfolding log2_loop
log2_int x = if x == 0 then 0 else log2_loop x x 0

-- `while (!(x & 1)) x >>= 1;`
unfoldable pub odd_part : ℕ → ℕ → ℕ
odd_part zero x = x
odd_part (suc fuel) x = let rest = odd_part fuel (x / 2) in if x % 2 == 0 then rest else x

unfoldable pub is_power2 : ℕ → Bool
unfolding odd_part
is_power2 x = if x == 0 then false else odd_part x x == 1
