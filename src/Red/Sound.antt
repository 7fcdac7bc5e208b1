-- ===== src/Red/Sound.antt =====
-- internal/red/red.go: what `parse` returns accounts for every byte that it was given.
use getstream_go_webrtc.Base.{
  ℕ, ◌/◌, ◌%◌, ◌^◌, ◌≤◌, ◌<◌, ◌≡◌, refl, sym, ap, subst₂, ◌∙◌, List, [], ◌∷◌, ◌++◌, append_assoc,
  arith, length, take, drop, All, ltb, ==_iff, true, false, inl, inr, Bool-cases, length-take,
  take-append-drop, ltb→le,
}
use getstream_go_webrtc.Base.Result.{Result, ok, err, ◌>>=◌}
use getstream_go_webrtc.Red.Block.{
  Block, BlockHeader, Error, Headers, parse, parse_headers, cut_blocks, decode_header, big_endian,
  is_follow, clear_follow, add_header, add_block, finish, cut_headers,
}
use getstream_go_webrtc.Red.Wire.{
  Fits, wire, wire_headers, wire_payloads, headers_of, header_word, word_bytes,
}

abbrev IsByte : ℕ → Type 0
IsByte b = b < 256

module _ (b0 b1 b2 b3 : ℕ) (f : is_follow b0 ≡ true) where
  module _ (h0 : b0 < 256) (h1 : b1 < 256) (h2 : b2 < 256) (h3 : b3 < 256) where
    word_back : header_word (decode_header (big_endian b0 b1 b2 b3)) ≡ big_endian b0 b1 b2 b3
    word_back = omega (arith, (==_iff (b0 / 128 % 2) 1).0 f)

    top : big_endian b0 b1 b2 b3 / 2 ^ 24 % 256 ≡ b0
    top = omega arith

    high : big_endian b0 b1 b2 b3 / 2 ^ 16 % 256 ≡ b1
    high = omega arith

    low : big_endian b0 b1 b2 b3 / 2 ^ 8 % 256 ≡ b2
    low = omega arith

    bottom : big_endian b0 b1 b2 b3 % 256 ≡ b3
    bottom = omega arith

    bytes_back :
        word_bytes (header_word (decode_header (big_endian b0 b1 b2 b3))) ≡ b0 ∷ b1 ∷ b2 ∷ b3 ∷ []
    bytes_back = rw word_back (λ i. top i ∷ high i ∷ low i ∷ bottom i ∷ [])

-- What the header loop returns for `p` accounts for all of `p`.
abbrev HeadersOf : List ℕ → Result Error Headers → Type 0
HeadersOf p (ok (hs, t, rest)) = (p ≡ wire_headers hs ++ (t ∷ rest)) × All Fits hs × (t < 128)
HeadersOf p (err e) = Unit

decode_header-Fits : (w : ℕ) → Fits (decode_header w)
decode_header-Fits w = omega arith

HeadersOf-more :
    (b0 b1 b2 b3 : ℕ) (rest : List ℕ) (r : Result Error Headers)
    → All IsByte (b0 ∷ b1 ∷ b2 ∷ b3 ∷ [])
    → is_follow b0 ≡ true
    → HeadersOf rest r
    → HeadersOf
        (b0 ∷ b1 ∷ b2 ∷ b3 ∷ rest)
        (r >>= add_header (decode_header (big_endian b0 b1 b2 b3)))
unfolding wire_headers
HeadersOf-more b0 b1 b2 b3 rest (ok (hs, t, r)) (h0, (h1, (h2, (h3, _)))) f (e, fits, lt) = (
  ap (λ l. b0 ∷ b1 ∷ b2 ∷ b3 ∷ l) e
      ∙ ap (λ l. l ++ (wire_headers hs ++ (t ∷ r))) (sym (bytes_back b0 b1 b2 b3 f h0 h1 h2 h3)),
  (decode_header-Fits (big_endian b0 b1 b2 b3), fits),
  lt,
)
HeadersOf-more b0 b1 b2 b3 rest (err e) h f s = tt

not_follow→lt : (b : ℕ) → b < 256 → is_follow b ≡ false → b < 128
not_follow→lt b h f = ground arith

HeadersOf-primary :
    (b : ℕ) (rest : List ℕ)
    → b < 256
    → is_follow b ≡ false
    → HeadersOf (b ∷ rest) (ok ([], clear_follow b, rest))
unfolding wire_headers
HeadersOf-primary b rest h f =
    let lt : b < 128 = not_follow→lt b h f in
    let e : b % 128 ≡ b = omega arith in (λ i. sym e i ∷ rest, tt, omega arith)

HeadersOf-parse_headers : (p : List ℕ) → All IsByte p → HeadersOf p (parse_headers p)
unfolding parse_headers
HeadersOf-parse_headers [] h = tt
HeadersOf-parse_headers (b0 ∷ []) h = elim (Bool-cases (is_follow b0)) [
  | inl f ↦ rw f tt
  | inr f ↦ rw f (HeadersOf-primary b0 [] h.0 f)
]
HeadersOf-parse_headers (b0 ∷ b1 ∷ []) h = elim (Bool-cases (is_follow b0)) [
  | inl f ↦ rw f tt
  | inr f ↦ rw f (HeadersOf-primary b0 (b1 ∷ []) h.0 f)
]
HeadersOf-parse_headers (b0 ∷ b1 ∷ b2 ∷ []) h = elim (Bool-cases (is_follow b0)) [
  | inl f ↦ rw f tt
  | inr f ↦ rw f (HeadersOf-primary b0 (b1 ∷ b2 ∷ []) h.0 f)
]
HeadersOf-parse_headers (b0 ∷ b1 ∷ b2 ∷ b3 ∷ rest) (h0, (h1, (h2, (h3, hr)))) =
    let more = HeadersOf-parse_headers rest hr in
    elim (Bool-cases (is_follow b0)) [
      | inl f ↦
          rw f
            (HeadersOf-more b0 b1 b2 b3 rest (parse_headers rest) (h0, (h1, (h2, (h3, tt)))) f more)
      | inr f ↦ rw f (HeadersOf-primary b0 (b1 ∷ b2 ∷ b3 ∷ rest) h0 f)
    ]

-- What the second loop cuts off `rest` are the payloads of the headers, in order.
abbrev CutOf : List BlockHeader → List ℕ → Result Error (List Block × List ℕ) → Type 0
CutOf hs rest (ok (bs, left)) = (headers_of bs ≡ hs) × (rest ≡ wire_payloads bs ++ left)
CutOf hs rest (err e) = Unit

CutOf-more :
    (h : BlockHeader) (hs : List BlockHeader) (rest : List ℕ)
    (r : Result Error (List Block × List ℕ))
    → h.size ≤ length rest
    → CutOf hs (drop h.size rest) r
    → CutOf (h ∷ hs) rest (
        r
        >>= add_block (record {
          payload_type = h.payload_type;
          ts_offset = h.ts_offset;
          payload = take h.size rest;
        }))
unfolding wire_payloads
CutOf-more h hs rest (ok (bs, left)) le (eh, er) =
    let size : length (take h.size rest) ≡ h.size = omega (arith, length-take h.size rest) in
    (
      λ i. record h { size = size i } ∷ eh i,
      rw append_assoc (rw (← er, take-append-drop h.size rest)),
    )
CutOf-more h hs rest (err e) le c = tt

CutOf-cut_blocks : (hs : List BlockHeader) (rest : List ℕ) → CutOf hs rest (cut_blocks hs rest)
unfolding cut_blocks
CutOf-cut_blocks [] rest = (refl, unfold wire_payloads in refl)
CutOf-cut_blocks (h ∷ hs) rest =
    let more = CutOf-cut_blocks hs (drop h.size rest) in
    elim (Bool-cases (ltb (length rest) h.size)) [
      | inl short ↦ rw short tt
      | inr long ↦ rw long (
          CutOf-more h hs rest (cut_blocks hs (drop h.size rest)) (ltb→le (length rest) h.size long)
            more)
    ]

abbrev ParsedFrom : List ℕ → List Block → Block → Type 0
ParsedFrom p bs primary =
    (wire bs primary ≡ p)
    × All Fits (headers_of bs)
    × (primary.payload_type < 128)
    × (primary.ts_offset ≡ 0)

ParsedFrom-cut :
    (p : List ℕ) (bs : List Block) (primary : Block) (hs : List BlockHeader) (t : ℕ) (rest : List ℕ)
    (r : Result Error (List Block × List ℕ))
    → HeadersOf p (ok (hs, t, rest))
    → CutOf hs rest r
    → (r >>= finish t) ≡ ok (bs, primary)
    → ParsedFrom p bs primary
unfolding wire
ParsedFrom-cut p bs primary hs t rest (ok (bs', left)) (ep, fits, lt) (eh, er) e =
    let eb : bs' ≡ bs = cc in
    let eq : record { payload_type = t; ts_offset = 0; payload = left } ≡ primary = cc in
    subst₂ (ParsedFrom p) eb eq (rw (ep, er, eh), rw eh fits, lt, refl)
ParsedFrom-cut p bs primary hs t rest (err x) h c e = absurd (ground arith)

ParsedFrom-headers :
    (p : List ℕ) (bs : List Block) (primary : Block) (r : Result Error Headers)
    → HeadersOf p r
    → (r >>= cut_headers) ≡ ok (bs, primary)
    → ParsedFrom p bs primary
ParsedFrom-headers p bs primary (ok (hs, t, rest)) h e =
    ParsedFrom-cut p bs primary hs t rest (cut_blocks hs rest) h (CutOf-cut_blocks hs rest) e
ParsedFrom-headers p bs primary (err x) h e = absurd (ground arith)

-- A payload of bytes that parses is exactly the layout of the blocks that it parses to, and those
-- fit their headers: no byte is lost, invented or read twice.
pub wire-parse :
    (p : List ℕ) (bs : List Block) (primary : Block)
    → All (λ b. b < 256) p
    → parse p ≡ ok (bs, primary)
    → (wire bs primary ≡ p)
      × All Fits (headers_of bs)
      × (primary.payload_type < 128)
      × (primary.ts_offset ≡ 0)
unfolding parse
wire-parse p bs primary h e =
    ParsedFrom-headers p bs primary (parse_headers p) (HeadersOf-parse_headers p h) e
