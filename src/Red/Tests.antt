-- ===== src/Red/Tests.antt =====
-- internal/red at concrete packets.
use getstream_go_webrtc.Base.{
  ℕ, ◌≤◌, ◌<◌, ◌≡◌, refl, List, [], ◌∷◌, ◌++◌, arith, length, All, true, false, ◌==◌,
}
use getstream_go_webrtc.Base.Result.{ok, err}
use getstream_go_webrtc.Red.Block.{
  Block, incomplete_header, incomplete_block, parse, parse_headers, cut_blocks,
}
use getstream_go_webrtc.Red.Wire.{Fits, wire, headers_of}
use getstream_go_webrtc.Red.Sound.{wire-parse}
use getstream_go_webrtc.Red.Packet.{Packet}
use getstream_go_webrtc.Red.Encoder.{Encoder, encode, repeated, run_back, opus_payload_type}
use getstream_go_webrtc.Red.Decoder.{Decoder, mark_seen, decode}
use getstream_go_webrtc.Red.Window.{mark_all, handed_out_once}
use getstream_go_webrtc.Red.Size.{remember_bounded}
use getstream_go_webrtc.Red.Recovery.{blocks_of, primary_of, parse-encode}
use getstream_go_webrtc.Red.Recovery.Loss.{missing, decode-encode}

abbrev old_block : Block
old_block = record { payload_type = 111; ts_offset = 960; payload = 7 ∷ 8 ∷ [] }

abbrev new_block : Block
new_block = record { payload_type = 111; ts_offset = 0; payload = 9 ∷ [] }

abbrev sample_bytes : List ℕ
sample_bytes = 239 ∷ 15 ∷ 0 ∷ 2 ∷ 111 ∷ 7 ∷ 8 ∷ 9 ∷ []

sample_parses : parse sample_bytes ≡ ok (old_block ∷ [], new_block)
unfolding parse parse_headers cut_blocks
sample_parses = refl

cut_short : parse (239 ∷ 15 ∷ 0 ∷ 2 ∷ 111 ∷ 7 ∷ []) ≡ err incomplete_block
unfolding parse parse_headers cut_blocks
cut_short = refl

no_primary : parse (239 ∷ 15 ∷ 0 ∷ 2 ∷ []) ≡ err incomplete_header
unfolding parse parse_headers cut_blocks
no_primary = refl

wire-parse_example :
    (wire (old_block ∷ []) new_block ≡ sample_bytes)
    × All Fits (headers_of (old_block ∷ []))
    × (111 < 128)
    × ◌≡◌ {A = ℕ} 0 0
wire-parse_example = wire-parse sample_bytes (old_block ∷ []) new_block (omega arith) sample_parses

-- Two frames are remembered; the second one directly precedes the packet.
abbrev encoder : Encoder
encoder = record {
  distance = 2;
  history =
      record { seq = 65534; ts = 0; payload = 1 ∷ [] }
      ∷ record { seq = 65535; ts = 960; payload = 2 ∷ 3 ∷ [] }
      ∷ [];
}

abbrev packet : Packet
packet = record {
  seq = 0;
  ts = 1920;
  payload_type = 63;
  marker = true;
  ssrc = 5;
  payload = 4 ∷ 5 ∷ [];
}

parse-encode_example :
    parse (encode encoder packet 1100).0
    ≡ ok (blocks_of packet (repeated encoder packet 1100), primary_of packet)
parse-encode_example = parse-encode encoder packet 1100

remember_bounded_example :
    (length (encode encoder packet 1100).1.history ≤ 2)
    × ((encode encoder packet 1100).1.distance ≡ 2)
remember_bounded_example = remember_bounded encoder packet 1100 (omega arith)

-- 65534 was handed out, 65535 was lost.
abbrev decoder : Decoder
decoder = record { started = true; newest = 65534; seen = λ i. i == 0 }

loss_repaired :
    missing packet decoder (repeated encoder packet 1100)
    ≡ record packet {
      seq = 65535;
      ts = 960;
      payload_type = 111;
      marker = false;
      payload = 2 ∷ 3 ∷ [];
    }
      ∷ []
unfolding encode run_back
loss_repaired = refl

decode-encode_example :
    let received = record packet { payload = (encode encoder packet 1100).0 } in
    let frames = repeated encoder packet 1100 in
    (d' : Decoder) × (decode decoder received
      ≡ ok (
        missing packet decoder frames ++ (record packet { payload_type = opus_payload_type } ∷ []),
        d',
      ))
decode-encode_example =
    decode-encode encoder decoder packet 1100 (omega arith) (omega arith) refl (omega arith)
      (omega arith) (omega arith) refl

handed_out_once_example : (mark_seen (mark_all decoder (65535 ∷ 3 ∷ 65530 ∷ [])) 65535).0 ≡ false
unfolding mark_seen
handed_out_once_example =
    handed_out_once decoder 65535 (3 ∷ 65530 ∷ []) (omega arith) (omega arith) (omega arith)
      (omega arith)
