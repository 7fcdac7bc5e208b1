-- ===== src/Red/Recovery.antt =====
-- internal/red: what the encoder repeats, the decoder recovers.
mod Repeated
pub mod Loss
use mathlib.Core.List.{reverse_aux}
use getstream_go_webrtc.Base.{
  ℕ, zero, suc, ◌+◌, ◌-◌, ◌*◌, ◌/◌, ◌%◌, ◌^◌, ◌≤◌, ◌<◌, max, ◌≡◌, refl, sym, ap, ap₂, ◌∙◌, List, [],
  ◌∷◌, ◌++◌, reverse, append_assoc, arith, length, drop, All, ltb, leb, ◌==◌, Bool, true, false,
  not, ◌||◌, inl, inr, Bool-cases, if◌then◌else◌, length-append, length-drop, ltb→le, map, ltb→lt,
  ==_iff, Option, none, some,
}
use getstream_go_webrtc.Base.Result.{Result, ok, err, ◌>>=◌}
use getstream_go_webrtc.Red.Block.{Block, Error, parse}
use getstream_go_webrtc.Red.Wire.{
  Fits, wire, wire_headers, wire_payloads, headers_of, header_of, parse-wire, word_bytes,
}
use getstream_go_webrtc.Red.Packet.{Packet, sub16, sub32}
use getstream_go_webrtc.Red.Encoder.{
  Frame, Encoder, encode, preceding_run, run_back, repeated, fit, blocks_size, headers, payloads,
  is_gap, remember, opus_payload_type,
}

-- Frames, oldest first, that sit directly before `pkt` and fit their block headers.
abbrev pub IsRun : Packet → List Frame → Type 0
IsRun pkt [] = Unit
IsRun pkt (f ∷ fs) =
    (sub16 pkt.seq f.seq ≡ length (f ∷ fs) % 2 ^ 16)
    × (sub32 pkt.ts f.ts < 2 ^ 14)
    × (length f.payload < 2 ^ 10)
    × IsRun pkt fs

module _ (pkt : Packet) (distance : ℕ) where
  in_place :
      (f : Frame) (later : List Frame) (back : ℕ)
      → back ≡ length later + 1
      → is_gap pkt distance back f ≡ false
      → IsRun pkt later
      → IsRun pkt (f ∷ later)
  in_place f later back e next r = (ground arith, ground arith, ground arith, r)

  -- The walk backwards finds such frames; `fs` is newest first and continues the run `later`.
  IsRun-run_back :
      (fs : List Frame) (later : List Frame) (back : ℕ)
      → back ≡ length later + 1
      → IsRun pkt later
      → IsRun pkt (reverse_aux (run_back pkt distance back fs) later)
  unfolding run_back
  IsRun-run_back [] later back e r = r
  IsRun-run_back (f ∷ fs) later back e r = elim (Bool-cases (is_gap pkt distance back f)) [
    | inl gap ↦ rw gap r
    | inr next ↦
        rw next
          (IsRun-run_back fs (f ∷ later) (back + 1) (omega arith) (in_place f later back e next r))
  ]

  pub run_back-le :
      (fs : List Frame) (back : ℕ)
      → 0 < back
      → length (run_back pkt distance back fs) + back ≤ max back (distance + 1)
  unfolding run_back
  run_back-le [] back h = omega arith
  run_back-le (f ∷ fs) back h = ground (arith, run_back-le fs (back + 1))

IsRun-fit :
    (pkt : Packet) (max_size size : ℕ) (fs : List Frame)
    → IsRun pkt fs
    → IsRun pkt (fit max_size size fs)
unfolding fit
IsRun-fit pkt max_size size [] r = r
IsRun-fit pkt max_size size (f ∷ fs) r = elim (Bool-cases (ltb max_size size)) [
  | inl large ↦ rw large (IsRun-fit pkt max_size (size - (4 + length f.payload)) fs r.3)
  | inr fits ↦ rw fits r
]

-- The frames that `Encode` repeats are the ones directly before the packet, in order, and each
-- can be described by a block header.
pub repeated-IsRun :
    (e : Encoder) (pkt : Packet) (max_size : ℕ) → IsRun pkt (repeated e pkt max_size)
unfolding preceding_run
repeated-IsRun e pkt max_size =
    IsRun-fit pkt max_size _ _ (IsRun-run_back pkt e.distance (reverse e.history) [] 1 refl tt)

abbrev pub block_of : Packet → Frame → Block
block_of pkt f = record {
  payload_type = opus_payload_type;
  ts_offset = sub32 pkt.ts f.ts;
  payload = f.payload;
}

abbrev pub primary_of : Packet → Block
primary_of pkt = record { payload_type = opus_payload_type; ts_offset = 0; payload = pkt.payload }

abbrev pub blocks_of : Packet → List Frame → List Block
blocks_of pkt [] = []
blocks_of pkt (f ∷ fs) = block_of pkt f ∷ blocks_of pkt fs

blocks_of-Fits :
    (pkt : Packet) (fs : List Frame) → IsRun pkt fs → All Fits (headers_of (blocks_of pkt fs))
blocks_of-Fits pkt [] r = tt
blocks_of-Fits pkt (f ∷ fs) r = (omega arith, blocks_of-Fits pkt fs r.3)

headers-eq-wire :
    (pkt : Packet) (fs : List Frame)
    → IsRun pkt fs
    → headers pkt fs ≡ wire_headers (headers_of (blocks_of pkt fs))
unfolding headers wire_headers
headers-eq-wire pkt [] r = refl
headers-eq-wire pkt (f ∷ fs) r =
    let e : sub32 pkt.ts f.ts * 2 ^ 10 % 2 ^ 32 ≡ sub32 pkt.ts f.ts * 2 ^ 10 = omega arith in
    ap₂ (λ w rest. word_bytes w ++ rest) (omega arith) (headers-eq-wire pkt fs r.3)

payloads-eq-wire : (pkt : Packet) (fs : List Frame) → payloads fs ≡ wire_payloads (blocks_of pkt fs)
unfolding payloads wire_payloads
payloads-eq-wire pkt [] = refl
payloads-eq-wire pkt (f ∷ fs) = ap (λ l. f.payload ++ l) (payloads-eq-wire pkt fs)

encode-eq-wire :
    (e : Encoder) (pkt : Packet) (max_size : ℕ)
    → (encode e pkt max_size).0 ≡ wire (blocks_of pkt (repeated e pkt max_size)) (primary_of pkt)
unfolding encode wire
encode-eq-wire e pkt max_size =
    let frames : List Frame = repeated e pkt max_size in
    ap₂ (λ (hs ps : List ℕ). hs ++ (opus_payload_type ∷ ps ++ pkt.payload))
      (headers-eq-wire pkt frames (repeated-IsRun e pkt max_size)) (payloads-eq-wire pkt frames)

-- Parsing what `Encode` writes gives the repeated frames back as redundant blocks, oldest first,
-- and the packet's own payload as the primary block.
pub parse-encode :
    (e : Encoder) (pkt : Packet) (max_size : ℕ)
    → parse (encode e pkt max_size).0 ≡ ok (blocks_of pkt (repeated e pkt max_size), primary_of pkt)
parse-encode e pkt max_size =
    let run : IsRun pkt (repeated e pkt max_size) = repeated-IsRun e pkt max_size in
    ap parse (encode-eq-wire e pkt max_size)
    ∙ parse-wire (blocks_of pkt (repeated e pkt max_size)) (primary_of pkt)
        (blocks_of-Fits pkt (repeated e pkt max_size) run) (omega arith) refl
