-- ===== src/Red/Block.antt =====
-- internal/red/red.go: `parse` and `Primary`. A byte is a number below 256, a []byte a list.
use getstream_go_webrtc.Base.{
  ℕ, ◌+◌, ◌*◌, ◌/◌, ◌%◌, ◌^◌, Bool, List, [], ◌∷◌, length, take, drop, ltb, ◌==◌, if◌then◌else◌,
}
use getstream_go_webrtc.Base.Result.{Result, ok, err, ◌>>=◌}

pub data Error : Type 0 where
  incomplete_header incomplete_block : Error

pub record Block : Type 0 where
  pub payload_type : ℕ
  pub ts_offset : ℕ
  pub payload : List ℕ

-- One round of the header loop: a `block` without its payload, and its entry of `lengths`.
pub record BlockHeader : Type 0 where
  pub payload_type : ℕ
  pub ts_offset : ℕ
  pub size : ℕ

-- `b & followBit != 0`: bit 7 of a byte
abbrev pub is_follow : ℕ → Bool
is_follow b = b / 128 % 2 == 1

-- `b &^ followBit`, of a byte
abbrev pub clear_follow : ℕ → ℕ
clear_follow b = b % 128

-- `binary.BigEndian.Uint32`
abbrev pub big_endian : ℕ → ℕ → ℕ → ℕ → ℕ
big_endian b0 b1 b2 b3 = b0 * 2 ^ 24 + b1 * 2 ^ 16 + b2 * 2 ^ 8 + b3

-- The three fields of a redundant block header: 7 bits, 14 bits and 10 bits.
abbrev pub decode_header : ℕ → BlockHeader
decode_header header = record {
  payload_type = clear_follow (header / 2 ^ 24 % 256);
  ts_offset = header / 2 ^ 10 % 2 ^ 14;
  size = header % 2 ^ 10;
}

-- What the header loop has when it breaks: the redundant headers, the primary payload type, `rest`.
abbrev pub Headers : Type 0
Headers = List BlockHeader × ℕ × List ℕ

abbrev pub add_header : BlockHeader → Headers → Result Error Headers
add_header h (hs, primary, rest) = ok (h ∷ hs, primary, rest)

-- The `for` of `parse`. The last two clauses have fewer than `blockHeaderSize` bytes left.
unfoldable pub parse_headers : List ℕ → Result Error Headers
parse_headers (b0 ∷ b1 ∷ b2 ∷ b3 ∷ rest) =
    let more = parse_headers rest >>= add_header (decode_header (big_endian b0 b1 b2 b3)) in
    if is_follow b0 then more else ok ([], clear_follow b0, b1 ∷ b2 ∷ b3 ∷ rest)
parse_headers [] = err incomplete_header
parse_headers (b0 ∷ rest) =
    if is_follow b0 then err incomplete_header else ok ([], clear_follow b0, rest)

abbrev pub add_block : Block → List Block × List ℕ → Result Error (List Block × List ℕ)
add_block b (bs, rest) = ok (b ∷ bs, rest)

-- The second loop of `parse`: cut each redundant payload off `rest`.
unfoldable pub cut_blocks : List BlockHeader → List ℕ → Result Error (List Block × List ℕ)
cut_blocks [] rest = ok ([], rest)
cut_blocks (h ∷ hs) rest =
    let b : Block = record {
      payload_type = h.payload_type;
      ts_offset = h.ts_offset;
      payload = take h.size rest;
    } in
    let more = cut_blocks hs (drop h.size rest) >>= add_block b in
    if ltb (length rest) h.size then err incomplete_block else more

abbrev pub finish : ℕ → List Block × List ℕ → Result Error (List Block × Block)
finish primary (bs, rest) =
    ok (bs, record { payload_type = primary; ts_offset = 0; payload = rest })

abbrev pub cut_headers : Headers → Result Error (List Block × Block)
cut_headers (hs, primary, rest) = cut_blocks hs rest >>= finish primary

-- The redundant blocks, oldest first, and the primary one.
unfoldable pub parse : List ℕ → Result Error (List Block × Block)
parse payload = parse_headers payload >>= cut_headers

abbrev pub primary_payload : List Block × Block → Result Error (List ℕ)
primary_payload (_, primary) = ok primary.payload

-- `Primary`
unfoldable pub primary : List ℕ → Result Error (List ℕ)
primary payload = parse payload >>= primary_payload
