-- ===== src/Nack/Tests.antt =====
-- internal/nack at a buffer of four packets.
use getstream_go_webrtc.Base.{
  ℕ, ◌≤◌, ◌≡◌, refl, true, false, none, some, List, [], ◌∷◌, arith, ltb, leb, ◌==◌, if◌then◌else◌,
}
use getstream_go_webrtc.Base.Result.{ok}
use getstream_go_webrtc.Nack.Buffer.{Retained, Buffer, new_buffer, add, get}
use getstream_go_webrtc.Nack.Slots.{IsValid}
use getstream_go_webrtc.Nack.Lookup.{get-add_newer}
use getstream_go_webrtc.Nack.Resend.{Stream, resend, resend_all, writes_of, retries_bounded}
use getstream_go_webrtc.Nack.Rtx.{Header, new_packet, unwrap, unwrap-new_packet}

abbrev sample : ℕ → Retained
sample n = record {
  sequence_number = n;
  payload = n ∷ [];
  sent_at = 1000;
  last_resend_at = none;
  resend_count = 0;
}

abbrev blank : Buffer
blank = record {
  packets = none ∷ none ∷ none ∷ none ∷ [];
  size = 4;
  highest_added = 0;
  started = false;
}

-- 65534, then 65535
abbrev filled : Buffer
filled = record {
  packets = none ∷ none ∷ some (sample 65534) ∷ some (sample 65535) ∷ [];
  size = 4;
  highest_added = 65535;
  started = true;
}

new_blank : new_buffer 4 ≡ some blank
unfolding new_buffer
new_blank = refl

five_refused : new_buffer 5 ≡ none
unfolding new_buffer
five_refused = refl

filling : add (add blank (sample 65534)) (sample 65535) ≡ filled
unfolding add
filling = refl

filled-IsValid : IsValid filled
filled-IsValid = record {
  size_ok = record { rounds = 16384; whole = refl; small = omega arith };
  full_length = refl;
  highest_in = omega arith;
}

-- 0 is skipped, 65534 is still there.
get-add_newer_example : get (add filled (sample 1)) 65534 ≡ (
    if leb 4 3
    then none
    else if 65534 == 1
    then some (sample 1)
    else if ltb 3 2
    then none
    else get filled 65534)
get-add_newer_example =
    get-add_newer filled (sample 1) filled-IsValid refl (omega arith) (omega arith) (omega arith)
      65534 (omega arith)

abbrev stream : Stream
stream = record { buffer = filled; max_retries = 2; min_interval = 20; max_age = 2000 }

found : get filled 65535 ≡ some (sample 65535)
unfolding get
found = refl

abbrev map_payload : List Retained → List (List ℕ)
map_payload [] = []
map_payload (p ∷ ps) = p.payload ∷ map_payload ps

-- Asked at 1500, 1510 (too soon), 1600 and 1700 (no retries left).
asked_four_times :
    map_payload
      (resend_all stream ((1500, 65535) ∷ (1510, 65535) ∷ (1600, 65535) ∷ (1700, 65535) ∷ []))
    ≡ (65535 ∷ []) ∷ (65535 ∷ []) ∷ []
unfolding resend_all resend get
asked_four_times = refl

retries_bounded_example :
    writes_of 65535 (resend_all stream ((1500, 65535) ∷ (1600, 65535) ∷ (1700, 65535) ∷ [])) ≤ 2
retries_bounded_example =
    retries_bounded stream 65535 ((1500, 65535) ∷ (1600, 65535) ∷ (1700, 65535) ∷ []) (sample 65535)
      filled-IsValid (omega arith) (omega arith) found

abbrev header : Header
header = record {
  sequence_number = 258;
  ssrc = 1;
  payload_type = 96;
  padding = false;
  padding_size = 0;
}

unwrap-new_packet_example :
    (sent : Header × List ℕ) × (new_packet header (7 ∷ 8 ∷ []) 2 97 9 ≡ ok sent)
    × (unwrap sent.1 ≡ some (258, 7 ∷ 8 ∷ []))
    × (sent.0.ssrc ≡ 2)
    × (sent.0.payload_type ≡ 97)
    × (sent.0.sequence_number ≡ 9)
unwrap-new_packet_example =
    unwrap-new_packet header (7 ∷ 8 ∷ []) 2 97 9 (omega arith) (omega arith) refl (omega arith)
      (omega arith)
