-- ===== src/Red/Encoder.antt =====
-- internal/red/encoder.go. A method that changes the encoder returns the new one.
use getstream_go_webrtc.Base.{
  ℕ, ◌+◌, ◌-◌, ◌*◌, ◌%◌, ◌^◌, Bool, not, ◌||◌, List, [], ◌∷◌, ◌++◌, reverse, length, drop, ltb,
  ◌==◌, if◌then◌else◌,
}
use getstream_go_webrtc.Base.Int.{ℤ, pos_part}
use getstream_go_webrtc.Red.Packet.{Packet, sub16, sub32}
use getstream_go_webrtc.Red.Wire.{word_bytes}

pub record Frame : Type 0 where
  pub seq : ℕ
  pub ts : ℕ
  pub payload : List ℕ

pub record Encoder : Type 0 where
  pub distance : ℕ
  -- the most recent frames, oldest first
  pub history : List Frame

abbrev pub opus_payload_type : ℕ
opus_payload_type = 111

abbrev pub block_header_size : ℕ
block_header_size = 4

abbrev pub primary_header_size : ℕ
primary_header_size = 1

abbrev pub max_block_length : ℕ
max_block_length = 2 ^ 10 - 1

abbrev pub max_timestamp_offset : ℕ
max_timestamp_offset = 2 ^ 14 - 1

-- `NewEncoder`: `max(distance, 0)`
unfoldable pub new_encoder : ℤ → Encoder
new_encoder distance = record { distance = pos_part distance; history = [] }

-- The `break` of `precedingRun` at the frame `back` places before `pkt`.
abbrev pub is_gap : Packet → ℕ → ℕ → Frame → Bool
is_gap pkt distance back f =
    ltb distance back
    || not (sub16 pkt.seq f.seq == back % 2 ^ 16)
    || ltb max_timestamp_offset (sub32 pkt.ts f.ts)
    || ltb max_block_length (length f.payload)

-- The loop of `precedingRun`: it walks the history backwards, so it is given newest first.
unfoldable pub run_back : Packet → ℕ → ℕ → List Frame → List Frame
run_back pkt distance back [] = []
run_back pkt distance back (f ∷ fs) =
    if is_gap pkt distance back f then [] else f ∷ run_back pkt distance (back + 1) fs

unfoldable pub preceding_run : Encoder → Packet → List Frame
unfolding run_back
preceding_run e pkt = reverse (run_back pkt e.distance 1 (reverse e.history))

-- `size += blockHeaderSize + len(f.payload)` over the frames
unfoldable pub blocks_size : List Frame → ℕ
blocks_size [] = 0
blocks_size (f ∷ fs) = block_header_size + length f.payload + blocks_size fs

-- The loop that drops redundancy, oldest first, while the payload is too large.
unfoldable pub fit : ℕ → ℕ → List Frame → List Frame
fit max_size size [] = []
fit max_size size (f ∷ fs) =
    if ltb max_size size
    then fit max_size (size - (block_header_size + length f.payload)) fs
    else f ∷ fs

-- `uint32(followBit|OpusPayloadType)<<24 | (pkt.Timestamp-f.ts)<<10 | uint32(len(f.payload))`.
-- The three fields do not overlap, by the bounds that `is_gap` tests, so `|` is a sum.
abbrev pub frame_header : Packet → Frame → ℕ
frame_header pkt f =
    (128 + opus_payload_type) * 2 ^ 24 + sub32 pkt.ts f.ts * 2 ^ 10 % 2 ^ 32 + length f.payload

unfoldable pub headers : Packet → List Frame → List ℕ
headers pkt [] = []
headers pkt (f ∷ fs) = word_bytes (frame_header pkt f) ++ headers pkt fs

unfoldable pub payloads : List Frame → List ℕ
payloads [] = []
payloads (f ∷ fs) = f.payload ++ payloads fs

unfoldable pub remember : Encoder → Packet → Encoder
remember e pkt =
    let f : Frame = record { seq = pkt.seq; ts = pkt.ts; payload = pkt.payload } in
    let kept = if length e.history == e.distance then drop 1 e.history else e.history in
    if e.distance == 0 then e else record e { history = kept ++ (f ∷ []) }

-- The frames that `Encode` repeats.
abbrev pub repeated : Encoder → Packet → ℕ → List Frame
repeated e pkt max_size =
    let run = preceding_run e pkt in
    fit max_size (primary_header_size + length pkt.payload + blocks_size run) run

unfoldable pub encode : Encoder → Packet → ℕ → List ℕ × Encoder
unfolding preceding_run blocks_size fit headers payloads remember
encode e pkt max_size =
    let frames = repeated e pkt max_size in
    (headers pkt frames ++ (opus_payload_type ∷ payloads frames ++ pkt.payload), remember e pkt)
