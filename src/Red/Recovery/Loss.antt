-- ===== src/Red/Recovery/Loss.antt =====
-- internal/red: a decoder that receives an encoder's packet hands out exactly what was missing.
use getstream_go_webrtc.Base.{
  ℕ, suc, ◌%◌, ◌^◌, ◌≤◌, ◌<◌, ◌≡◌, refl, ap, ◌∙◌, List, [], ◌∷◌, ◌++◌, arith, length, All, ◌==◌,
  ==_refl, Bool, true, false, not, if◌then◌else◌,
}
use getstream_go_webrtc.Base.Result.{ok}
use getstream_go_webrtc.Red.Block.{Block}
use getstream_go_webrtc.Red.Packet.{Packet, sub16, sub32}
use getstream_go_webrtc.Red.Encoder.{Frame, Encoder, encode, repeated, opus_payload_type}
use getstream_go_webrtc.Red.Decoder.{
  Decoder, mark_seen, recover, decode, hand_out, is_ahead, carried,
}
use getstream_go_webrtc.Red.Window.{is_seen, mark_seen-answer, mark_seen_memory}
use getstream_go_webrtc.Red.Recovery.{
  IsRun, block_of, blocks_of, primary_of, parse-encode, repeated-IsRun,
}
use getstream_go_webrtc.Red.Recovery.Repeated.{IsFrame, All-repeated, length-repeated}

-- The packet that a remembered frame was.
abbrev pub packet_of : Packet → Frame → Packet
packet_of pkt f = record pkt {
  seq = f.seq;
  ts = f.ts;
  payload_type = opus_payload_type;
  marker = false;
  payload = f.payload;
}

-- The packets of the frames that `d` has not handed out.
abbrev pub missing : Packet → Decoder → List Frame → List Packet
missing pkt d [] = []
missing pkt d (f ∷ fs) =
    if is_seen d f.seq then missing pkt d fs else packet_of pkt f ∷ missing pkt d fs

abbrev SameMemory : Decoder → Decoder → List Frame → Type 0
SameMemory d d' fs = All (λ f. is_seen d f.seq ≡ is_seen d' f.seq) fs

-- The sequence number and timestamp that the decoder computes are those of the frame.
module _ (pkt : Packet) (f : Frame) (n : ℕ) (hs : pkt.seq < 2 ^ 16) (ht : pkt.ts < 2 ^ 32)
    (v : IsFrame f) where
  seq_back : sub16 pkt.seq f.seq ≡ n % 2 ^ 16 → sub16 pkt.seq (n % 2 ^ 16) ≡ f.seq
  seq_back e = omega arith

  ts_back : sub32 pkt.ts (sub32 pkt.ts f.ts) ≡ f.ts
  ts_back = omega arith

  seq_earlier : sub16 pkt.seq f.seq ≡ n % 2 ^ 16 → 0 < n → n < 64 → (f.seq == pkt.seq) ≡ false
  seq_earlier e lo hi = ground arith

  carried-eq :
      sub16 pkt.seq f.seq ≡ n % 2 ^ 16
      → 0 < n
      → n < 64
      → carried pkt (sub16 pkt.seq (n % 2 ^ 16)) (sub32 pkt.ts (sub32 pkt.ts f.ts)) (block_of pkt f)
        ≡ packet_of pkt f
  carried-eq e lo hi = rw (seq_back e, ts_back, seq_earlier e lo hi)

-- Marking a number just behind the newest one leaves the newest one, and the memory of others.
module _ (d : Decoder) (s : ℕ) (hn : d.newest < 2 ^ 16) (hs : s < 2 ^ 16)
    (near : sub16 d.newest s < 64) where
  newest-mark_behind : (mark_seen d s).1.newest ≡ d.newest
  unfolding mark_seen
  newest-mark_behind = ground arith

  same_at :
      (t : ℕ)
      → t < 2 ^ 16
      → sub16 d.newest t < sub16 d.newest s
      → is_seen (mark_seen d s).1 t ≡ is_seen d t
  same_at t ht lt =
      let e : (t == s) ≡ false = ground arith in
      let w : sub16 (mark_seen d s).1.newest t < 64 = rw newest-mark_behind (omega arith) in
      mark_seen_memory d s t hn hs ht w ∙ rw e

  SameMemory-mark :
      (fs : List Frame) (n : ℕ)
      → All IsFrame fs
      → n < sub16 d.newest s
      → All (λ f. sub16 d.newest f.seq ≤ n) fs
      → SameMemory (mark_seen d s).1 d fs
  SameMemory-mark [] n v lt le = tt
  SameMemory-mark (f ∷ fs) n v lt le =
      (same_at f.seq v.0.0 (omega arith), SameMemory-mark fs n v.1 lt le.1)

IsRun-behind :
    (pkt : Packet) (fs : List Frame) (n : ℕ)
    → IsRun pkt fs
    → length fs ≤ n
    → n < 64
    → All (λ f. sub16 pkt.seq f.seq ≤ n) fs
IsRun-behind pkt [] n r le lt = tt
IsRun-behind pkt (f ∷ fs) n r le lt = (omega arith, IsRun-behind pkt fs n r.3 (omega arith) lt)

missing_cong :
    (pkt : Packet) (d d' : Decoder) (fs : List Frame)
    → SameMemory d d' fs
    → missing pkt d fs ≡ missing pkt d' fs
missing_cong pkt d d' [] e = refl
missing_cong pkt d d' (f ∷ fs) e = rw (e.0, missing_cong pkt d d' fs e.1)

length-blocks_of : (pkt : Packet) (fs : List Frame) → length (blocks_of pkt fs) ≡ length fs
length-blocks_of pkt [] = refl
length-blocks_of pkt (f ∷ fs) = ap suc (length-blocks_of pkt fs)

if_not {ℓ} : {A : Type ℓ} (b : Bool) (x y : A) → (if not b then x else y) ≡ (if b then y else x)
if_not true x y = refl
if_not false x y = refl

module _ (pkt : Packet) (hs : pkt.seq < 2 ^ 16) (ht : pkt.ts < 2 ^ 32) where
  recover-missing :
      (fs : List Frame) (d : Decoder)
      → d.newest ≡ pkt.seq
      → IsRun pkt fs
      → All IsFrame fs
      → length fs < 64
      → (recover pkt (blocks_of pkt fs) d).0 ≡ missing pkt d fs
  unfolding recover
  recover-missing [] d e r v lt = refl
  recover-missing (f ∷ fs) d e r v lt =
      let n : ℕ = suc (length fs) in
      let hn : d.newest < 2 ^ 16 = rw e hs in
      let near : sub16 d.newest f.seq ≡ n % 2 ^ 16 = rw e r.0 in
      let d' : Decoder = (mark_seen d f.seq).1 in
      let e' : d'.newest ≡ pkt.seq = newest-mark_behind d f.seq hn v.0.0 (omega arith) ∙ e in
      let behind : All (λ g. sub16 d.newest g.seq ≤ length fs) fs =
        rw e (IsRun-behind pkt fs (length fs) r.3 (omega arith) (omega arith)) in
      let same : missing pkt d' fs ≡ missing pkt d fs =
        missing_cong pkt d' d fs (
          SameMemory-mark d f.seq hn v.0.0 (omega arith) fs (length fs) v.1 (omega arith) behind) in
      rw
        (
          length-blocks_of pkt fs,
          carried-eq pkt f n hs ht v.0 r.0 (omega arith) (omega arith),
          seq_back pkt f n hs ht v.0 r.0,
          mark_seen-answer d f.seq hn v.0.0,
          recover-missing fs d' e' r.3 v.1 (omega arith),
          same,
        )
        (if_not (is_seen d f.seq) _ _)

module _ (d : Decoder) (s : ℕ) (a : is_ahead (sub16 s d.newest) ≡ true) where
  mark_ahead : ((mark_seen d s).0 ≡ true) × ((mark_seen d s).1.newest ≡ s)
  unfolding mark_seen
  mark_ahead = rw a (refl, refl)

module _ (pkt : Packet) (d : Decoder) (hn : d.newest < 2 ^ 16) (hs : pkt.seq < 2 ^ 16)
    (a : is_ahead (sub16 pkt.seq d.newest) ≡ true) where
  SameMemory-ahead :
      (fs : List Frame)
      → IsRun pkt fs
      → All IsFrame fs
      → length fs < 64
      → SameMemory (mark_seen d pkt.seq).1 d fs
  SameMemory-ahead [] r v lt = tt
  SameMemory-ahead (f ∷ fs) r v lt =
      let e : (f.seq == pkt.seq) ≡ false = ground arith in
      let w : sub16 (mark_seen d pkt.seq).1.newest f.seq < 64 =
        rw (mark_ahead d pkt.seq a).1 (omega arith) in
      (
        mark_seen_memory d pkt.seq f.seq hn hs v.0.0 w ∙ rw e,
        SameMemory-ahead fs r.3 v.1 (omega arith),
      )

hand_out_ahead :
    (pkt : Packet) (d : Decoder) (bs : List Block) (primary : Block)
    → d.started ≡ true
    → is_ahead (sub16 pkt.seq d.newest) ≡ true
    → let (out, d') = recover pkt bs (mark_seen d pkt.seq).1 in
      hand_out d pkt (bs, primary) ≡ (out ++ (carried pkt pkt.seq pkt.ts primary ∷ []), d')
unfolding hand_out
hand_out_ahead pkt d bs primary started ahead = simp (started, (mark_ahead d pkt.seq ahead).0)

-- A decoder that is running receives a packet ahead of all it has seen, wrapped by an encoder that
-- repeats fewer than 64 frames. Of the frames that the packet repeats it hands out exactly those
-- it has not handed out yet, oldest first, each with its own sequence number, timestamp and payload;
-- then the packet itself.
pub decode-encode :
    (e : Encoder) (d : Decoder) (pkt : Packet) (max_size : ℕ)
    → e.distance < 64
    → All IsFrame e.history
    → d.started ≡ true
    → d.newest < 2 ^ 16
    → pkt.seq < 2 ^ 16
    → pkt.ts < 2 ^ 32
    → is_ahead (sub16 pkt.seq d.newest) ≡ true
    → let received = record pkt { payload = (encode e pkt max_size).0 } in
      let frames = repeated e pkt max_size in
      (d' : Decoder) × (decode d received
        ≡ ok (missing pkt d frames ++ (record pkt { payload_type = opus_payload_type } ∷ []), d'))
unfolding decode
decode-encode e d pkt max_size near history started hn hs ht ahead =
    let received : Packet = record pkt { payload = (encode e pkt max_size).0 } in
    let frames : List Frame = repeated e pkt max_size in
    let run : IsRun pkt frames = repeated-IsRun e pkt max_size in
    let few : length frames < 64 = omega (arith, length-repeated e pkt max_size) in
    let valid : All IsFrame frames = All-repeated e pkt max_size history in
    let d2 : Decoder = (mark_seen d pkt.seq).1 in
    let recovered : (recover received (blocks_of pkt frames) d2).0 ≡ missing pkt d frames =
      recover-missing received hs ht frames d2 (mark_ahead d pkt.seq ahead).1 run valid few
      ∙ missing_cong pkt d2 d frames (SameMemory-ahead pkt d hn hs ahead frames run valid few) in
    (
      (recover received (blocks_of pkt frames) d2).1,
      rw
          (
            parse-encode e pkt max_size,
            hand_out_ahead received d (blocks_of pkt frames) (primary_of pkt) started ahead,
            recovered,
            ==_refl pkt.seq,
          )
          refl,
    )
