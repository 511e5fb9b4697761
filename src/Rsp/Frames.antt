-- ===== src/Rsp/Frames.antt =====
-- A packet that `put_packet` puts out is the packet that `get_packet` reads, or1ksim/debug/rsp-server.c.
use mathlib.Core.Path.{subst}
use mathlib.Core.List.{append-nil, append_assoc}
use openrisc_tools.Prelude.{
  ℕ, ◌+◌, ◌-◌, ◌*◌, ◌/◌, ◌%◌, ◌^◌, ◌<◌, ◌≡◌, ◌≢◌, ◌∙◌, sym, refl, ap, ap₂, arith, true, false, ◌==◌,
  Bool-cases, inl, inr, ◌⊎◌, if_true, if_false, ltb, length, length-append, some, List, [], ◌∷◌,
  ◌++◌, bit_xor, All, ==_ne,
}
use openrisc_tools.Prelude.Int.{ℤ, to_u32}
use openrisc_tools.Rsp.Hex.{hexchars, hex}
use openrisc_tools.Rsp.Digits.{hex-hexchars}
use openrisc_tools.Rsp.Packet.{
  packet_start, packet_end, escape_char, repeat_char, ack_char, nack_char, gdb_buf_max, is_escaped,
  put_body, framed, Phase, Turn, buffered, get_char, get_from, get_packet, rsp_unescape,
}

-- The four characters that are escaped.
escaped_elim :
    (P : ℕ → Type 0)
    → P packet_start
    → P packet_end
    → P repeat_char
    → P escape_char
    → (ch : ℕ) → is_escaped ch ≡ true
    → P ch
escaped_elim P p q r s ch e =
    let cases : (ch ≡ packet_start) ⊎ (ch ≡ packet_end) ⊎ (ch ≡ repeat_char) ⊎ (ch ≡ escape_char) =
      ground (arith, e) in
    elim cases [
      | inl is ↦ subst P (sym is) p
      | inr (inl is) ↦ subst P (sym is) q
      | inr (inr (inl is)) ↦ subst P (sym is) r
      | inr (inr (inr is)) ↦ subst P (sym is) s
    ]

-- A character that puts nothing out.
pub goes_on :
    (phase next : Phase) (ch : ℕ) (input output : List ℕ)
    → get_char phase ch ≡ Turn.moved next []
    → get_from phase (ch ∷ input) output ≡ get_from next input output
unfolding get_from
goes_on phase next ch input output e =
    ap
      (λ (t : Turn). elim t [
        | Turn.received bytes put ↦ (record { input = input; output = output ++ put }, some bytes)
        | Turn.moved next' put ↦ get_from next' input (output ++ put)
      ])
      e
    ∙ ap (get_from next input) (append-nil output)

-- The characters before the start of a packet are passed over.
pub skips :
    (junk input output : List ℕ)
    → All (λ ch. ch ≢ packet_start) junk
    → get_from Phase.waiting (junk ++ packet_start ∷ input) output
      ≡ get_from (Phase.reading 0 []) input output
unfolding get_char
skips [] input output h = goes_on Phase.waiting (Phase.reading 0 []) packet_start input output refl
skips (ch ∷ junk) input output h =
    goes_on Phase.waiting Phase.waiting ch (junk ++ packet_start ∷ input) output
      (if_false _ _ (==_ne ch packet_start h.0))
    ∙ skips junk input output h.1

-- A character that is no mark goes into the buffer.
pub read_one :
    (ch checksum : ℕ) (read input output : List ℕ)
    → (ch == packet_start) ≡ false
    → (ch == packet_end) ≡ false
    → length read + 1 < gdb_buf_max - 1
    → get_from (Phase.reading checksum read) (ch ∷ input) output
      ≡ get_from (Phase.reading ((checksum + ch) % 2 ^ 8) (read ++ ch ∷ [])) input output
unfolding get_char buffered
read_one ch checksum read input output no_start no_end room =
    let fits : ltb (length (read ++ ch ∷ [])) (gdb_buf_max - 1) ≡ true =
      ground (arith, room, length-append read (ch ∷ [])) in
    goes_on (Phase.reading checksum read)
      (Phase.reading ((checksum + ch) % 2 ^ 8) (read ++ ch ∷ [])) ch input output
      (if_false _ _ no_start ∙ if_false _ _ no_end ∙ if_true _ _ fits)

-- A body and its checksum, read up to the end of the packet.
abbrev Reads : List ℕ × ℕ → ℕ → Type 0
Reads body checksum =
    (read input output : List ℕ)
    → length read + length body.0 < gdb_buf_max - 1
    → get_from (Phase.reading checksum read) (body.0 ++ packet_end ∷ input) output
      ≡ get_from (Phase.first_digit body.1 (read ++ body.0)) input output

one_more :
    (ch checksum : ℕ) (body : List ℕ × ℕ)
    → (ch == packet_start) ≡ false
    → (ch == packet_end) ≡ false
    → Reads body ((checksum + ch) % 2 ^ 8)
    → Reads (ch ∷ body.0, body.1) checksum
one_more ch checksum body no_start no_end r read input output room =
    let longer : length (read ++ ch ∷ []) ≡ length read + 1 = length-append read (ch ∷ []) in
    read_one ch checksum read (body.0 ++ packet_end ∷ input) output no_start no_end
      (omega (arith, room))
    ∙ r (read ++ ch ∷ []) input output (omega (arith, longer, room))
    ∙ ap (λ l. get_from (Phase.first_digit body.1 l) input output)
        (append_assoc read (ch ∷ []) body.0)

-- What an escaped character becomes is no mark, and comes back.
pub record IsUnmarked (ch : ℕ) : Type 0 where
  pub no_start : (bit_xor ch 0x20 == packet_start) ≡ false
  pub no_end : (bit_xor ch 0x20 == packet_end) ≡ false
  pub back : bit_xor (bit_xor ch 0x20) 0x20 ≡ ch

pub escaped-IsUnmarked : (ch : ℕ) → is_escaped ch ≡ true → IsUnmarked ch
escaped-IsUnmarked =
    escaped_elim IsUnmarked (record { no_start = refl; no_end = refl; back = refl })
      (record { no_start = refl; no_end = refl; back = refl })
      (record { no_start = refl; no_end = refl; back = refl })
      (record { no_start = refl; no_end = refl; back = refl })

put_body-Reads : (bytes : List ℕ) (checksum : ℕ) → Reads (put_body bytes checksum) checksum
unfolding put_body get_char
put_body-Reads [] checksum = λ read input output room.
    goes_on (Phase.reading checksum read) (Phase.first_digit checksum read) packet_end input output
      refl
    ∙ ap (λ l. get_from (Phase.first_digit checksum l) input output) (sym (append-nil read))
put_body-Reads (ch ∷ bytes) checksum = elim (Bool-cases (is_escaped ch)) [
  | inl e ↦
      let ch' = bit_xor ch 0x20 in
      let u = escaped-IsUnmarked ch e in
      let twice : ((checksum + escape_char) % 2 ^ 8 + ch') % 2 ^ 8
          ≡ (checksum + escape_char + ch') % 2 ^ 8 =
        omega arith in
      let rest = put_body bytes ((checksum + escape_char + ch') % 2 ^ 8) in
      let r =
        subst (Reads rest) (sym twice)
          (put_body-Reads bytes ((checksum + escape_char + ch') % 2 ^ 8)) in
      subst (λ body. Reads body checksum) (sym (if_true _ _ e))
        (one_more escape_char checksum (ch' ∷ rest.0, rest.1) refl refl
          (one_more ch' ((checksum + escape_char) % 2 ^ 8) rest u.no_start u.no_end r))
  | inr e ↦
      let rest = put_body bytes ((checksum + ch) % 2 ^ 8) in
      subst (λ body. Reads body checksum) (sym (if_false _ _ e))
        (one_more ch checksum rest (ground (arith, e)) (ground (arith, e))
          (put_body-Reads bytes ((checksum + ch) % 2 ^ 8)))
]

pub put_body-small :
    (bytes : List ℕ) (checksum : ℕ) → checksum < 2 ^ 8 → (put_body bytes checksum).1 < 2 ^ 8
unfolding put_body
put_body-small [] checksum h = h
put_body-small (ch ∷ bytes) checksum h = elim (Bool-cases (is_escaped ch)) [
  | inl e ↦
      rw e (put_body-small bytes ((checksum + escape_char + bit_xor ch 0x20) % 2 ^ 8) (omega arith))
  | inr e ↦ rw e (put_body-small bytes ((checksum + ch) % 2 ^ 8) (omega arith))
]

-- The digits of the checksum that was computed.
closes :
    (checksum : ℕ) (bytes input output : List ℕ)
    → checksum < 2 ^ 8
    → get_from
        (Phase.first_digit checksum bytes)
        (hexchars (checksum / 2 ^ 4) ∷ hexchars (checksum % 16) ∷ input)
        output
      ≡ (record { input = input; output = output ++ ack_char ∷ [] }, some bytes)
unfolding get_from get_char to_u32
closes checksum bytes input output h =
    let sent = λ (a b : ℤ). checksum == (to_u32 a * 2 ^ 4 % 2 ^ 8 + to_u32 b) % 2 ^ 8 in
    let high = hex-hexchars (checksum / 2 ^ 4) (omega (arith, h)) in
    let low = hex-hexchars (checksum % 16) (omega arith) in
    let same : sent (hex (hexchars (checksum / 2 ^ 4))) (hex (hexchars (checksum % 16))) ≡ true =
      ap₂ sent high low ∙ ground (arith, h) in
    goes_on (Phase.first_digit checksum bytes)
      (Phase.second_digit checksum bytes
        (to_u32 (hex (hexchars (checksum / 2 ^ 4))) * 2 ^ 4 % 2 ^ 8))
      (hexchars (checksum / 2 ^ 4)) (hexchars (checksum % 16) ∷ input) output refl
    ∙ ap
        (λ (t : Turn). elim t [
          | Turn.received bytes' put ↦
              (record { input = input; output = output ++ put }, some bytes')
          | Turn.moved next put ↦ get_from next input (output ++ put)
        ])
        (if_true (Turn.received bytes (ack_char ∷ [])) (Turn.moved Phase.waiting (nack_char ∷ []))
          same)

-- A character that is not the escape is itself.
unescape-plain :
    (ch : ℕ) (body : List ℕ)
    → (ch == escape_char) ≡ false
    → rsp_unescape (ch ∷ body) ≡ ch ∷ rsp_unescape body
unfolding rsp_unescape
unescape-plain ch [] e = if_false _ _ e
unescape-plain ch (next ∷ body) e = if_false _ _ e

unescape-put_body :
    (bytes : List ℕ) (checksum : ℕ) → rsp_unescape (put_body bytes checksum).0 ≡ bytes
unfolding put_body rsp_unescape
unescape-put_body [] checksum = refl
unescape-put_body (ch ∷ bytes) checksum = elim (Bool-cases (is_escaped ch)) [
  | inl e ↦
      let rest = unescape-put_body bytes ((checksum + escape_char + bit_xor ch 0x20) % 2 ^ 8) in
      rw e (ap₂ (λ c l. c ∷ l) (escaped-IsUnmarked ch e).back rest)
  | inr e ↦
      let rest = put_body bytes ((checksum + ch) % 2 ^ 8) in
      rw e (
        unescape-plain ch rest.0 (ground (arith, e))
        ∙ ap (λ l. ch ∷ l) (unescape-put_body bytes ((checksum + ch) % 2 ^ 8)))
]

-- Where the escaped bytes fit in the buffer: a packet as `put_packet` frames it, behind characters
-- that do not start a packet and in front of any others, is read by `get_packet` up to its end,
-- acknowledged once, and, unescaped, is the bytes that were put.
pub get_packet-framed :
    (bytes junk rest output : List ℕ)
    → All (λ ch. ch ≢ packet_start) junk
    → length (put_body bytes 0).0 < gdb_buf_max - 1
    → (body : List ℕ) × (get_packet
          (record { input = junk ++ (framed bytes ++ rest); output = output })
        ≡ (record { input = rest; output = output ++ ack_char ∷ [] }, some body))
      × (rsp_unescape body ≡ bytes)
unfolding get_packet framed
get_packet-framed bytes junk rest output clean fits =
    let body = put_body bytes 0 in
    let digits = hexchars (body.1 / 2 ^ 4) ∷ hexchars (body.1 % 16) ∷ [] in
    (
      body.0,
      skips junk (body.0 ++ packet_end ∷ digits ++ rest) output clean
          ∙ ap (λ l. get_from (Phase.reading 0 []) l output)
              (append_assoc body.0 (packet_end ∷ digits) rest)
          ∙ put_body-Reads bytes 0 [] (digits ++ rest) output (omega (arith, fits))
          ∙ closes body.1 body.0 rest output (put_body-small bytes 0 (omega arith)),
      unescape-put_body bytes 0,
    )
