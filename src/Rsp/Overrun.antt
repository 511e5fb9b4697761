-- ===== src/Rsp/Overrun.antt =====
-- Packets that do not fit into the buffer of or1ksim/debug/rsp-server.c.
use mathlib.Core.Path.{subst}
use mathlib.Core.List.{append_assoc}
use openrisc_tools.Prelude.{
  ℕ, ◌+◌, ◌-◌, ◌/◌, ◌%◌, ◌^◌, ◌<◌, ◌≤◌, ◌≡◌, ◌≢◌, ◌∙◌, sym, refl, ap, arith, false, ◌==◌,
  Bool-cases, inl, inr, if_true, if_false, ltb, leb, length, length-append, none, List, [], ◌∷◌,
  ◌++◌, bit_xor, All, ==_ne,
}
use openrisc_tools.Rsp.Packet.{
  packet_start, packet_end, escape_char, gdb_buf_max, is_escaped, put_body, framed, Phase, buffered,
  get_char, get_from, get_packet,
}
use openrisc_tools.Rsp.Hex.{hexchars}
use openrisc_tools.Rsp.Frames.{goes_on, skips, read_one, escaped-IsUnmarked, put_body-small}

abbrev IsNoStart : ℕ → Type 0
IsNoStart ch = ch ≢ packet_start

-- A character that is no mark of a packet.
abbrev IsOrdinary : ℕ → Type 0
IsOrdinary ch = ((ch == packet_start) ≡ false) × ((ch == packet_end) ≡ false)

All-append : (P : ℕ → Type 0) (xs ys : List ℕ) → All P xs → All P ys → All P (xs ++ ys)
All-append P [] ys p q = q
All-append P (x ∷ xs) ys p q = (p.0, All-append P xs ys p.1 q)

plain_starts : (xs : List ℕ) → All IsOrdinary xs → All IsNoStart xs
plain_starts [] p = tt
plain_starts (x ∷ xs) p = (λ e. let q = p.0.0 in ground (arith, q, e), plain_starts xs p.1)

put_body-IsOrdinary : (bytes : List ℕ) (checksum : ℕ) → All IsOrdinary (put_body bytes checksum).0
unfolding put_body
put_body-IsOrdinary [] checksum = tt
put_body-IsOrdinary (ch ∷ bytes) checksum = elim (Bool-cases (is_escaped ch)) [
  | inl e ↦
      let u = escaped-IsUnmarked ch e in
      subst (λ (body : List ℕ × ℕ). All IsOrdinary body.0) (sym (if_true _ _ e))
        (
          (refl, refl),
          (
            (u.no_start, u.no_end),
            put_body-IsOrdinary bytes ((checksum + escape_char + bit_xor ch 0x20) % 2 ^ 8),
          ),
        )
  | inr e ↦
      subst (λ (body : List ℕ × ℕ). All IsOrdinary body.0) (sym (if_false _ _ e))
        (
          (ground (arith, e), ground (arith, e)),
          put_body-IsOrdinary bytes ((checksum + ch) % 2 ^ 8),
        )
]

-- Escapes make a body longer.
pub put_body_longer :
    (bytes : List ℕ) (checksum : ℕ) → length bytes ≤ length (put_body bytes checksum).0
unfolding put_body
put_body_longer [] checksum = omega arith
put_body_longer (ch ∷ bytes) checksum = elim (Bool-cases (is_escaped ch)) [
  | inl e ↦
      rw e
        (omega (arith, put_body_longer bytes ((checksum + escape_char + bit_xor ch 0x20) % 2 ^ 8)))
  | inr e ↦ rw e (omega (arith, put_body_longer bytes ((checksum + ch) % 2 ^ 8)))
]

-- Without a start there is no packet.
waits :
    (input output : List ℕ)
    → All IsNoStart input
    → get_from Phase.waiting input output ≡ (record { input = []; output = output }, none)
unfolding get_from get_char
waits [] output p = refl
waits (ch ∷ input) output p =
    goes_on Phase.waiting Phase.waiting ch input output (if_false _ _ (==_ne ch packet_start p.0))
    ∙ waits input output p.1

-- The last character that the buffer has room for.
fills :
    (ch checksum : ℕ) (read input output : List ℕ)
    → IsOrdinary ch
    → gdb_buf_max - 1 ≤ length read + 1
    → get_from (Phase.reading checksum read) (ch ∷ input) output
      ≡ get_from Phase.waiting input output
unfolding get_char buffered
fills ch checksum read input output plain full =
    let no_room : ltb (length (read ++ ch ∷ [])) (gdb_buf_max - 1) ≡ false =
      ground (arith, full, length-append read (ch ∷ [])) in
    goes_on (Phase.reading checksum read) Phase.waiting ch input output
      (if_false _ _ plain.0 ∙ if_false _ _ plain.1 ∙ if_false _ _ no_room)

overruns :
    (body : List ℕ) (checksum : ℕ) (read rest output : List ℕ)
    → All IsOrdinary body
    → All IsNoStart rest
    → length read < gdb_buf_max - 1
    → gdb_buf_max - 1 ≤ length read + length body
    → get_from (Phase.reading checksum read) (body ++ rest) output
      ≡ (record { input = []; output = output }, none)
overruns [] checksum read rest output p q room full = absurd (omega (arith, room, full))
overruns (ch ∷ body) checksum read rest output p q room full =
    elim (Bool-cases (leb (gdb_buf_max - 1) (length read + 1))) [
      | inl last ↦
          fills ch checksum read (body ++ rest) output p.0 (ground (arith, last))
          ∙ waits (body ++ rest) output (All-append IsNoStart body rest (plain_starts body p.1) q)
      | inr more ↦
          let longer : length (read ++ ch ∷ []) ≡ length read + 1 = length-append read (ch ∷ []) in
          read_one ch checksum read (body ++ rest) output p.0.0 p.0.1 (ground (arith, more))
          ∙ overruns body ((checksum + ch) % 2 ^ 8) (read ++ ch ∷ []) rest output p.1 q
              (ground (arith, longer, more)) (omega (arith, longer, full))
    ]

hexchars-start : (d : ℕ) → d < 16 → hexchars d ≢ packet_start
hexchars-start d h e = ground (arith, h, e)

-- A packet whose escaped bytes are 280 or more, and so one request of 281 characters for all
-- registers, is never received: behind and in front of characters that do not start a packet it is
-- read to the end of the connection, without an acknowledgement.
pub get_packet_overrun :
    (bytes junk rest output : List ℕ)
    → All (λ ch. ch ≢ packet_start) junk
    → All (λ ch. ch ≢ packet_start) rest
    → gdb_buf_max - 1 ≤ length (put_body bytes 0).0
    → get_packet (record { input = junk ++ (framed bytes ++ rest); output = output })
      ≡ (record { input = []; output = output }, none)
unfolding get_packet framed
get_packet_overrun bytes junk rest output clean behind full =
    let body = put_body bytes 0 in
    let small = put_body-small bytes 0 (omega arith) in
    let digits = hexchars (body.1 / 2 ^ 4) ∷ hexchars (body.1 % 16) ∷ [] in
    let tail = packet_end ∷ digits ++ rest in
    let quiet : All IsNoStart tail = (
      λ e. omega (arith, e),
      (
        hexchars-start (body.1 / 2 ^ 4) (omega (arith, small)),
        (hexchars-start (body.1 % 16) (omega arith), behind),
      ),
    ) in
    skips junk (body.0 ++ packet_end ∷ digits ++ rest) output clean
    ∙ ap (λ l. get_from (Phase.reading 0 []) l output)
        (append_assoc body.0 (packet_end ∷ digits) rest)
    ∙ overruns body.0 0 [] tail output (put_body-IsOrdinary bytes 0) quiet (omega arith)
        (omega (arith, full))
