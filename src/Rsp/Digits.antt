-- ===== src/Rsp/Digits.antt =====
-- The hexadecimal digits of a register, or1ksim/debug/rsp-server.c.
use openrisc_tools.Prelude.{
  ℕ, ◌+◌, ◌-◌, ◌*◌, ◌/◌, ◌%◌, ◌^◌, ◌<◌, ◌≡◌, ◌∙◌, ap, arith, bit_or, leb, if◌then◌else◌,
}
use openrisc_tools.Prelude.Bits.{zero-bit_or}
use openrisc_tools.Memory.Masks.{bit_or-disjoint}
use openrisc_tools.Prelude.Int.{pos, to_u32}
use openrisc_tools.Rsp.Hex.{hexchars, hex, reg2hex, reg2hex_from, hex2reg, hex2reg_from, widened}

pub hex-hexchars : (d : ℕ) → d < 16 → hex (hexchars d) ≡ pos d
unfolding hex
hex-hexchars d h = ground (arith, h)

-- A digit is put at its place.
abbrev put_digit : ℕ → ℕ → ℕ → ℕ
put_digit s val d = bit_or val (widened (to_u32 (hex (hexchars d)) * 2 ^ s % 2 ^ 32))

put_digit_lem :
    (s q d : ℕ)
    → d < 16
    → d * 2 ^ s < 2 ^ (s + 4)
    → d * 2 ^ s < 2 ^ 31
    → put_digit s (q * 2 ^ (s + 4)) d ≡ q * 2 ^ (s + 4) + d * 2 ^ s
unfolding to_u32
put_digit_lem s q d h low small =
    let value : d % 2 ^ 32 ≡ d = omega (arith, h) in
    let place : widened (d * 2 ^ s % 2 ^ 32) ≡ d * 2 ^ s = ground (arith, small) in
    ap (λ z. bit_or (q * 2 ^ (s + 4)) (widened (to_u32 z * 2 ^ s % 2 ^ 32))) (hex-hexchars d h)
    ∙ ap (λ v. bit_or (q * 2 ^ (s + 4)) (widened (v * 2 ^ s % 2 ^ 32))) value
    ∙ ap (bit_or (q * 2 ^ (s + 4))) place
    ∙ bit_or-disjoint (s + 4) q (d * 2 ^ s) low

-- The sign of the first digit fills the upper half of the word.
first_digit :
    (d : ℕ) → d < 16 → put_digit 28 0 d ≡ ((if leb 8 d then 2 ^ 32 - 1 else 0) * 16 + d) * 2 ^ 28
unfolding to_u32
first_digit d h =
    zero-bit_or (widened (to_u32 (hex (hexchars d)) * 2 ^ 28 % 2 ^ 32))
    ∙ ap (λ z. widened (to_u32 z * 2 ^ 28 % 2 ^ 32)) (hex-hexchars d h)
    ∙ ground (arith, h)

-- The digits up to now, and the next one.
next_digit :
    (s q d val : ℕ)
    → val ≡ q * 2 ^ (s + 4)
    → d < 16
    → d * 2 ^ s < 2 ^ (s + 4)
    → d * 2 ^ s < 2 ^ 31
    → q * 2 ^ (s + 4) + d * 2 ^ s ≡ (q * 16 + d) * 2 ^ s
    → put_digit s val d ≡ (q * 16 + d) * 2 ^ s
next_digit s q d val e h low small sum =
    ap (λ v. put_digit s v d) e ∙ put_digit_lem s q d h low small ∙ sum

-- Eight digits are the word, whatever is in front of them.
all_digits :
    (val w : ℕ)
    → val < 2 ^ 32
    → ((((((((w * 16 + val / 2 ^ 28 % 16) * 16 + val / 2 ^ 24 % 16) * 16 + val / 2 ^ 20 % 16) * 16
                          + val / 2 ^ 16 % 16)
                        * 16
                      + val / 2 ^ 12 % 16)
                    * 16
                  + val / 2 ^ 8 % 16)
                * 16
              + val / 2 ^ 4 % 16)
            * 16
          + val / 2 ^ 0 % 16)
        * 2 ^ 0
        % 2 ^ 32
      ≡ val
all_digits val w h = omega (arith, h)

-- `hex2reg` reads back what `reg2hex` writes, up to the upper half of its result, which the
-- registers do not have.
pub hex2reg-reg2hex : (val : ℕ) → val < 2 ^ 32 → hex2reg (reg2hex val) % 2 ^ 32 ≡ val
unfolding hex2reg hex2reg_from reg2hex reg2hex_from
hex2reg-reg2hex val h =
    let d = λ (s : ℕ). val / 2 ^ s % 16 in
    let w = if leb 8 (d 28) then 2 ^ 32 - 1 else 0 in
    let q0 = w * 16 + d 28 in
    let e0 = first_digit (d 28) (omega arith) in
    let e1 = next_digit 24 q0 (d 24) _ e0 (omega arith) (omega arith) (omega arith) (omega arith) in
    let q1 = q0 * 16 + d 24 in
    let e2 = next_digit 20 q1 (d 20) _ e1 (omega arith) (omega arith) (omega arith) (omega arith) in
    let q2 = q1 * 16 + d 20 in
    let e3 = next_digit 16 q2 (d 16) _ e2 (omega arith) (omega arith) (omega arith) (omega arith) in
    let q3 = q2 * 16 + d 16 in
    let e4 = next_digit 12 q3 (d 12) _ e3 (omega arith) (omega arith) (omega arith) (omega arith) in
    let q4 = q3 * 16 + d 12 in
    let e5 = next_digit 8 q4 (d 8) _ e4 (omega arith) (omega arith) (omega arith) (omega arith) in
    let q5 = q4 * 16 + d 8 in
    let e6 = next_digit 4 q5 (d 4) _ e5 (omega arith) (omega arith) (omega arith) (omega arith) in
    let q6 = q5 * 16 + d 4 in
    let e7 = next_digit 0 q6 (d 0) _ e6 (omega arith) (omega arith) (omega arith) (omega arith) in
    ap (λ v. v % 2 ^ 32) e7 ∙ all_digits val w h
