-- ===== src/Red/Size.antt =====
-- internal/red/encoder.go: how large a payload gets, and how much the encoder remembers.
use getstream_go_webrtc.Base.{
  ℕ, ◌+◌, ◌-◌, ◌≤◌, max, ◌≡◌, refl, List, [], ◌∷◌, ◌++◌, arith, length, drop, length-append,
  length-drop,
}
use getstream_go_webrtc.Red.Packet.{Packet}
use getstream_go_webrtc.Red.Encoder.{
  Frame, Encoder, encode, preceding_run, repeated, fit, blocks_size, headers, payloads,
  opus_payload_type,
}

length-headers-payloads :
    (pkt : Packet) (fs : List Frame)
    → length (headers pkt fs) + length (payloads fs) ≡ blocks_size fs
unfolding headers payloads blocks_size
length-headers-payloads pkt [] = omega arith
length-headers-payloads pkt (f ∷ fs) =
    omega (arith, length-headers-payloads pkt fs, length-append f.payload (payloads fs))

blocks_size-fit :
    (max_size base size : ℕ) (fs : List Frame)
    → size ≡ base + blocks_size fs
    → base + blocks_size (fit max_size size fs) ≤ max max_size base
unfolding fit blocks_size
blocks_size-fit max_size base size [] e = omega arith
blocks_size-fit max_size base size (f ∷ fs) e =
    ground (arith, blocks_size-fit max_size base (size - (4 + length f.payload)) fs)

length-encode_parts :
    (e : Encoder) (pkt : Packet) (max_size : ℕ)
    → length (encode e pkt max_size).0
      ≡ 1 + length pkt.payload + blocks_size (repeated e pkt max_size)
unfolding encode
length-encode_parts e pkt max_size =
    let frames : List Frame = repeated e pkt max_size in
    omega (
      arith,
      length-append (headers pkt frames) (opus_payload_type ∷ payloads frames ++ pkt.payload),
      length-append (payloads frames) pkt.payload,
      length-headers-payloads pkt frames,
    )

-- A payload exceeds the limit only if the packet's own payload with its one-byte header does, and
-- is then no longer than that.
pub length-encode :
    (e : Encoder) (pkt : Packet) (max_size : ℕ)
    → length (encode e pkt max_size).0 ≤ max max_size (1 + length pkt.payload)
length-encode e pkt max_size =
    let frames : List Frame = repeated e pkt max_size in
    omega (
      arith,
      length-encode_parts e pkt max_size,
      blocks_size-fit max_size (1 + length pkt.payload) _ (preceding_run e pkt) refl,
    )

-- The encoder never remembers more frames than it may repeat.
pub remember_bounded :
    (e : Encoder) (pkt : Packet) (max_size : ℕ)
    → length e.history ≤ e.distance
    → (length (encode e pkt max_size).1.history ≤ e.distance)
      × ((encode e pkt max_size).1.distance ≡ e.distance)
unfolding encode
remember_bounded e pkt max_size h =
    let new : List Frame = record { seq = pkt.seq; ts = pkt.ts; payload = pkt.payload } ∷ [] in
    ground (
      arith,
      length-drop 1 e.history,
      length-append (drop 1 e.history) new,
      length-append e.history new,
    )
