-- ===== src/Red/Packetizer.antt =====
-- internal/red/packetizer.go: the packets of an inner packetizer as RED packets. The inner packetizer
-- is pion's: a state and what it makes of a payload and of a request for padding.
use getstream_go_webrtc.Base.{ℕ, ◌≡◌, refl, ap, ap₂, List, [], ◌∷◌, map}
use getstream_go_webrtc.Base.Int.{ℤ, pos}
use getstream_go_webrtc.Base.Result.{ok, ◌>>=◌}
use getstream_go_webrtc.Red.Packet.{Packet}
use getstream_go_webrtc.Red.Block.{primary, primary_payload}
use getstream_go_webrtc.Red.Encoder.{Encoder, new_encoder, encode}
use getstream_go_webrtc.Red.Recovery.{parse-encode}

abbrev pub max_payload_size : ℕ
max_payload_size = 1100

abbrev pub default_distance : ℤ
default_distance = pos 2

pub record Packetizer {ℓ} (S : Type ℓ) : Type ℓ where
  pub inner : S
  pub encoder : Encoder
  pub payload_type : ℕ

unfoldable pub new_packetizer {ℓ} : {S : Type ℓ} → S → ℕ → Packetizer S
new_packetizer inner payload_type = record {
  inner = inner;
  encoder = new_encoder default_distance;
  payload_type = payload_type;
}

-- The loop of `Packetize`
unfoldable pub wrap_all : ℕ → Encoder → List Packet → List Packet × Encoder
wrap_all payload_type e [] = ([], e)
wrap_all payload_type e (pkt ∷ pkts) =
    let encoded = encode e pkt max_payload_size in
    let later = wrap_all payload_type encoded.1 pkts in
    (record pkt { payload_type = payload_type; payload = encoded.0 } ∷ later.0, later.1)

module _ {ℓ} {S : Type ℓ} (packetize_inner : List ℕ → ℕ → S → List Packet × S)
    (pad_inner : ℕ → S → List Packet × S) where
  unfoldable pub packetize : List ℕ → ℕ → Packetizer S → List Packet × Packetizer S
  unfolding wrap_all
  packetize payload samples p =
      let made = packetize_inner payload samples p.inner in
      let wrapped = wrap_all p.payload_type p.encoder made.0 in
      (wrapped.0, record p { inner = made.1; encoder = wrapped.1 })

  unfoldable pub generate_padding : ℕ → Packetizer S → List Packet × Packetizer S
  generate_padding samples p =
      let made = pad_inner samples p.inner in
      let retyped : Packet → Packet = λ pkt. record pkt { payload_type = p.payload_type } in
      (map retyped made.0, record p { inner = made.1 })

-- Where a packet stands in the stream
abbrev pub place : Packet → ℕ × ℕ
place pkt = (pkt.seq, pkt.ts)

-- The primary block of each wrapped packet is the packet's own payload.
wrapped-primary :
    (payload_type : ℕ) (e : Encoder) (pkts : List Packet)
    → map (λ pkt. primary pkt.payload) (wrap_all payload_type e pkts).0
      ≡ map (λ pkt. ok pkt.payload) pkts
unfolding wrap_all primary
wrapped-primary payload_type e [] = refl
wrapped-primary payload_type e (pkt ∷ pkts) =
    ap₂ (λ a l. a ∷ l) (ap (λ b. b >>= primary_payload) (parse-encode e pkt max_payload_size))
      (wrapped-primary payload_type (encode e pkt max_payload_size).1 pkts)

wrapped-headers :
    (payload_type : ℕ) (e : Encoder) (pkts : List Packet)
    → map place (wrap_all payload_type e pkts).0 ≡ map place pkts
unfolding wrap_all
wrapped-headers payload_type e [] = refl
wrapped-headers payload_type e (pkt ∷ pkts) =
    ap (λ l. place pkt ∷ l) (wrapped-headers payload_type (encode e pkt max_payload_size).1 pkts)

-- A receiver that reads only the primary blocks gets, for each packet of the inner packetizer, one with
-- its sequence number, its timestamp and its payload, in order.
pub packetize-primary {ℓ} :
    {S : Type ℓ} (packetize_inner : List ℕ → ℕ → S → List Packet × S)
    (pad_inner : ℕ → S → List Packet × S) (payload : List ℕ) (samples : ℕ) (p : Packetizer S)
    → let sent : List Packet = (packetize packetize_inner pad_inner payload samples p).0 in
      let made : List Packet = (packetize_inner payload samples p.inner).0 in
      (map (λ pkt. primary pkt.payload) sent ≡ map (λ pkt. ok pkt.payload) made)
      × (map place sent ≡ map place made)
unfolding packetize
packetize-primary packetize_inner pad_inner payload samples p =
    let made : List Packet = (packetize_inner payload samples p.inner).0 in
    (wrapped-primary p.payload_type p.encoder made, wrapped-headers p.payload_type p.encoder made)
