-- ===== src/Red/Wire.antt =====
-- The RFC 2198 layout as an independent description: what a payload made of given blocks looks
-- like. `parse` of internal/red/red.go inverts it, and accepts nothing else.
use getstream_go_webrtc.Base.{
  ℕ, ◌+◌, ◌*◌, ◌/◌, ◌%◌, ◌^◌, ◌<◌, ◌≡◌, refl, sym, List, [], ◌∷◌, ◌++◌, append_assoc, arith, length,
  All, ltb, ==_iff, true, false, length-append, take-length-append, drop-length-append,
}
use getstream_go_webrtc.Base.Result.{ok}
use getstream_go_webrtc.Red.Block.{
  Block, BlockHeader, parse, parse_headers, cut_blocks, decode_header, big_endian, is_follow,
  clear_follow,
}

-- The values fit the fields of a redundant block header.
pub record Fits (h : BlockHeader) : Type 0 where
  pub type_fits : h.payload_type < 128
  pub offset_fits : h.ts_offset < 2 ^ 14
  pub size_fits : h.size < 2 ^ 10

-- The four bytes of a word, most significant first.
abbrev pub word_bytes : ℕ → List ℕ
word_bytes w = w / 2 ^ 24 % 256 ∷ w / 2 ^ 16 % 256 ∷ w / 2 ^ 8 % 256 ∷ w % 256 ∷ []

abbrev pub header_of : Block → BlockHeader
header_of b = record {
  payload_type = b.payload_type;
  ts_offset = b.ts_offset;
  size = length b.payload;
}

-- The F bit, then the fields.
abbrev pub header_word : BlockHeader → ℕ
header_word h = (128 + h.payload_type) * 2 ^ 24 + h.ts_offset * 2 ^ 10 + h.size

abbrev pub headers_of : List Block → List BlockHeader
headers_of [] = []
headers_of (b ∷ bs) = header_of b ∷ headers_of bs

unfoldable pub wire_headers : List BlockHeader → List ℕ
wire_headers [] = []
wire_headers (h ∷ hs) = word_bytes (header_word h) ++ wire_headers hs

unfoldable pub wire_payloads : List Block → List ℕ
wire_payloads [] = []
wire_payloads (b ∷ bs) = b.payload ++ wire_payloads bs

unfoldable pub wire : List Block → Block → List ℕ
wire bs primary =
    wire_headers (headers_of bs) ++ (primary.payload_type ∷ wire_payloads bs ++ primary.payload)

-- What `parse` reads of the four bytes of a word.
abbrev unpack : ℕ → ℕ
unpack w = big_endian (w / 2 ^ 24 % 256) (w / 2 ^ 16 % 256) (w / 2 ^ 8 % 256) (w % 256)

module _ (h : BlockHeader) (f : Fits h) where
  type_field : clear_follow (unpack (header_word h) / 2 ^ 24 % 256) ≡ h.payload_type
  type_field = omega arith

  offset_field : unpack (header_word h) / 2 ^ 10 % 2 ^ 14 ≡ h.ts_offset
  offset_field = omega arith

  size_field : unpack (header_word h) % 2 ^ 10 ≡ h.size
  size_field = omega arith

  follow_field : is_follow (header_word (h) / 2 ^ 24 % 256) ≡ true
  follow_field = (==_iff (header_word (h) / 2 ^ 24 % 256 / 128 % 2) 1).1 (omega arith)

  decode-header_word : decode_header (unpack (header_word h)) ≡ h
  decode-header_word =
      λ i. record { payload_type = type_field i; ts_offset = offset_field i; size = size_field i }

not_follow : (t : ℕ) → t < 128 → is_follow t ≡ false
not_follow t h = ground (arith, ==_iff (t / 128 % 2) 1)

primary-clear : (t : ℕ) → t < 128 → clear_follow t ≡ t
primary-clear t h = omega arith

-- A byte without the F bit ends the header loop, however many bytes follow it.
parse_headers-primary :
    (t : ℕ) (rest : List ℕ) → t < 128 → parse_headers (t ∷ rest) ≡ ok ([], t, rest)
unfolding parse_headers
parse_headers-primary t [] h = rw (not_follow t h, primary-clear t h)
parse_headers-primary t (x ∷ []) h = rw (not_follow t h, primary-clear t h)
parse_headers-primary t (x ∷ y ∷ []) h = rw (not_follow t h, primary-clear t h)
parse_headers-primary t (x ∷ y ∷ z ∷ rest) h = rw (not_follow t h, primary-clear t h)

parse_headers-wire :
    (hs : List BlockHeader) (t : ℕ) (rest : List ℕ)
    → All Fits hs
    → t < 128
    → parse_headers (wire_headers hs ++ (t ∷ rest)) ≡ ok (hs, t, rest)
unfolding wire_headers parse_headers
parse_headers-wire [] t rest f h = parse_headers-primary t rest h
parse_headers-wire (h ∷ hs) t rest f lt =
    rw (follow_field h f.0, parse_headers-wire hs t rest f.1 lt, decode-header_word h f.0)

not_shorter : (xs ys : List ℕ) → ltb (length (xs ++ ys)) (length xs) ≡ false
not_shorter xs ys = ground (arith, length-append xs ys)

cut_blocks-wire :
    (bs : List Block) (rest : List ℕ)
    → cut_blocks (headers_of bs) (wire_payloads bs ++ rest) ≡ ok (bs, rest)
unfolding cut_blocks wire_payloads
cut_blocks-wire [] rest = refl
cut_blocks-wire (b ∷ bs) rest =
    let tail : List ℕ = wire_payloads bs ++ rest in
    rw (
      append_assoc b.payload (wire_payloads bs) rest,
      take-length-append b.payload tail,
      drop-length-append b.payload tail,
      cut_blocks-wire bs rest,
      not_shorter b.payload tail,
    )

-- Parsing what the layout says of any redundant blocks that fit their headers, and of a primary
-- block with a 7-bit payload type and no offset, gives back exactly those blocks.
pub parse-wire :
    (bs : List Block) (p : Block)
    → All Fits (headers_of bs)
    → p.payload_type < 128
    → p.ts_offset ≡ 0
    → parse (wire bs p) ≡ ok (bs, p)
unfolding parse wire
parse-wire bs p f h z =
    rw
      (
        parse_headers-wire (headers_of bs) p.payload_type (wire_payloads bs ++ p.payload) f h,
        cut_blocks-wire bs p.payload,
      )
      (λ i. ok (bs, record p { ts_offset = sym z i }))
