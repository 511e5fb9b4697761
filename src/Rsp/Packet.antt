-- ===== src/Rsp/Packet.antt =====
-- The packets of or1ksim/debug/rsp-server.c. The characters that the client sends are a list, at
-- whose end the connection fails, and so are those that are put out to it.
use openrisc_tools.Prelude.{
  ℕ, ◌+◌, ◌-◌, ◌*◌, ◌/◌, ◌%◌, ◌^◌, Bool, ◌||◌, ◌==◌, ltb, if◌then◌else◌, Option, none, some, List,
  [], ◌∷◌, ◌++◌, length, bit_xor,
}
use openrisc_tools.Prelude.Int.{to_u32}
use openrisc_tools.Rsp.Hex.{hexchars, hex}

-- `$`, `#`, `*`, `}`, `+` and `-`.
abbrev pub packet_start : ℕ
packet_start = 0x24

abbrev pub packet_end : ℕ
packet_end = 0x23

abbrev pub repeat_char : ℕ
repeat_char = 0x2a

abbrev pub escape_char : ℕ
escape_char = 0x7d

abbrev pub ack_char : ℕ
ack_char = 0x2b

abbrev pub nack_char : ℕ
nack_char = 0x2d

-- `NUM_REGS * 8 + 1`.
abbrev pub gdb_buf_max : ℕ
gdb_buf_max = 35 * 8 + 1

abbrev pub is_escaped : ℕ → Bool
is_escaped ch = ch == packet_start || ch == packet_end || ch == repeat_char || ch == escape_char

-- The body of a packet, and its checksum.
unfoldable pub put_body : List ℕ → ℕ → List ℕ × ℕ
put_body [] checksum = ([], checksum)
put_body (ch ∷ bytes) checksum =
    let ch' = bit_xor ch 0x20 in
    let plain = put_body bytes ((checksum + ch) % 2 ^ 8) in
    let escaped = put_body bytes ((checksum + escape_char + ch') % 2 ^ 8) in
    if is_escaped ch then (escape_char ∷ ch' ∷ escaped.0, escaped.1) else (ch ∷ plain.0, plain.1)

-- What a round of `put_packet` puts out.
unfoldable pub framed : List ℕ → List ℕ
unfolding put_body
framed bytes =
    let (body, checksum) = put_body bytes 0 in
    packet_start
    ∷ (body ++ (packet_end ∷ hexchars (checksum / 2 ^ 4) ∷ hexchars (checksum % 16) ∷ []))

-- The socket: what is still to be read, and what has been put.
pub record Socket : Type 0 where
  pub input : List ℕ
  pub output : List ℕ

-- The packet is put again until it is acknowledged, or the connection fails.
unfoldable pub put_until_ack : List ℕ → List ℕ → List ℕ → Socket
unfolding framed
put_until_ack bytes [] output = record { input = []; output = output ++ framed bytes }
put_until_ack bytes (ch ∷ input) output =
    let again = put_until_ack bytes input (output ++ framed bytes) in
    if ch == ack_char then record { input = input; output = output ++ framed bytes } else again

abbrev pub put_packet : List ℕ → Socket → Socket
put_packet bytes s = put_until_ack bytes s.input s.output

-- Where `get_packet` waits for a character: for the start, with the checksum and the buffer up to
-- now, and for the two digits of the checksum that was sent.
pub data Phase : Type 0 where
  waiting : Phase
  reading : ℕ → List ℕ → Phase
  first_digit : ℕ → List ℕ → Phase
  second_digit : ℕ → List ℕ → ℕ → Phase

-- The next place, or the end with a packet; and the characters put out.
pub data Turn : Type 0 where
  moved : Phase → List ℕ → Turn
  received : List ℕ → List ℕ → Turn

-- A character goes into the buffer. A full buffer is dropped.
unfoldable pub buffered : ℕ → List ℕ → Turn
buffered checksum bytes =
    if ltb (length bytes) (gdb_buf_max - 1)
    then moved (Phase.reading checksum bytes) []
    else moved Phase.waiting []

unfoldable pub get_char : Phase → ℕ → Turn
unfolding buffered hex
get_char Phase.waiting ch =
    if ch == packet_start then moved (Phase.reading 0 []) [] else moved Phase.waiting []
get_char (Phase.reading checksum bytes) ch =
    if ch == packet_start
    then moved (Phase.reading 0 []) []
    else if ch == packet_end
    then moved (Phase.first_digit checksum bytes) []
    else buffered ((checksum + ch) % 2 ^ 8) (bytes ++ ch ∷ [])
get_char (Phase.first_digit checksum bytes) ch =
    moved (Phase.second_digit checksum bytes (to_u32 (hex ch) * 2 ^ 4 % 2 ^ 8)) []
get_char (Phase.second_digit checksum bytes high) ch =
    let xmitcsum = (high + to_u32 (hex ch)) % 2 ^ 8 in
    if checksum == xmitcsum
    then received bytes (ack_char ∷ [])
    else moved Phase.waiting (nack_char ∷ [])

-- The loops of `get_packet`, on a socket. Without a packet the connection has failed.
unfoldable pub get_from : Phase → List ℕ → List ℕ → Socket × Option (List ℕ)
unfolding get_char
get_from phase [] output = (record { input = []; output = output }, none)
get_from phase (ch ∷ input) output = elim (get_char phase ch) [
  | received bytes put ↦ (record { input = input; output = output ++ put }, some bytes)
  | moved next put ↦ get_from next input (output ++ put)
]

unfoldable pub get_packet : Socket → Socket × Option (List ℕ)
unfolding get_from
get_packet s = get_from Phase.waiting s.input s.output

-- The byte behind the data is the 0 that `get_packet` leaves there.
unfoldable pub rsp_unescape : List ℕ → List ℕ
rsp_unescape [] = []
rsp_unescape (ch ∷ []) = if ch == escape_char then 0x20 ∷ [] else ch ∷ []
rsp_unescape (ch ∷ next ∷ bytes) =
    let plain = rsp_unescape (next ∷ bytes) in
    let escaped = rsp_unescape bytes in
    if ch == escape_char then bit_xor next 0x20 ∷ escaped else ch ∷ plain
