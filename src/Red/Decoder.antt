-- ===== src/Red/Decoder.antt =====
-- internal/red/decoder.go. The uint64 `seen` is the function from a bit's place to the bit.
use getstream_go_webrtc.Base.{
  ℕ, ◌-◌, ◌%◌, ◌^◌, Bool, true, false, ◌&&◌, List, [], ◌∷◌, ◌++◌, length, ltb, leb, ◌==◌,
  if◌then◌else◌,
}
use getstream_go_webrtc.Base.Result.{Result, ok, ◌>>=◌}
use getstream_go_webrtc.Red.Block.{Block, Error, parse}
use getstream_go_webrtc.Red.Packet.{Packet, sub16, sub32}

abbrev pub Word64 : Type 0
Word64 = ℕ → Bool

abbrev pub no_bits : Word64
no_bits i = false

-- `w << n`
abbrev pub shift_left : Word64 → ℕ → Word64
shift_left w n i = if ltb i 64 then if ltb i n then false else w (i - n) else false

-- `w | 1 << n`, for n < 64
abbrev pub set_bit : Word64 → ℕ → Word64
set_bit w n i = if i == n then true else w i

pub record Decoder : Type 0 where
  pub started : Bool
  pub newest : ℕ
  -- bit i is set once newest - i has been handed out
  pub seen : Word64

abbrev pub window : ℕ
window = 64

-- `NewDecoder`
abbrev pub new_decoder : Decoder
new_decoder = record { started = false; newest = 0; seen = no_bits }

-- `int16(a) > 0`, of a uint16
abbrev pub is_ahead : ℕ → Bool
is_ahead a = ltb 0 a && ltb a (2 ^ 15)

-- Records `seq` as handed out, and reports whether it was new.
unfoldable pub mark_seen : Decoder → ℕ → Bool × Decoder
mark_seen d seq =
    let ahead = sub16 seq d.newest in
    let back = sub16 d.newest seq in
    if is_ahead ahead
    then (
      true,
      record d {
        newest = seq;
        seen = set_bit (if leb window ahead then no_bits else shift_left d.seen ahead) 0;
      },
    )
    else if leb window back
    then (true, d)
    else if d.seen back
    then (false, d)
    else (true, record d { seen = set_bit d.seen back })

abbrev pub carried : Packet → ℕ → ℕ → Block → Packet
carried pkt seq ts b = record pkt {
  seq = seq;
  ts = ts;
  payload_type = b.payload_type;
  marker = if seq == pkt.seq then pkt.marker else false;
  payload = b.payload;
}

-- The loop over the redundant blocks; `len(redundant) - i` is the number of blocks left.
unfoldable pub recover : Packet → List Block → Decoder → List Packet × Decoder
recover pkt [] d = ([], d)
recover pkt (b ∷ bs) d =
    let seq = sub16 pkt.seq (length (b ∷ bs) % 2 ^ 16) in
    let (fresh, d') = mark_seen d seq in
    let (out, d'') = recover pkt bs d' in
    (if fresh then carried pkt seq (sub32 pkt.ts b.ts_offset) b ∷ out else out, d'')

-- `Decode` from `first := !d.started` on.
unfoldable pub hand_out : Decoder → Packet → List Block × Block → List Packet × Decoder
hand_out d pkt (redundant, primary) =
    let d1 : Decoder =
      if d.started then d else record { started = true; newest = pkt.seq; seen = no_bits } in
    let (fresh, d2) = mark_seen d1 pkt.seq in
    let (recovered, d3) = if d.started then recover pkt redundant d2 else ([], d2) in
    if fresh then (recovered ++ (carried pkt pkt.seq pkt.ts primary ∷ []), d3) else ([], d2)

-- On an error the decoder is unchanged.
unfoldable pub decode : Decoder → Packet → Result Error (List Packet × Decoder)
decode d pkt = parse pkt.payload >>= λ blocks. ok (hand_out d pkt blocks)
