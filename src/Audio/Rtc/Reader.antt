-- ===== src/Audio/Rtc/Reader.antt =====
-- audio/rtc/reader.go: RTP packets to audio. The opus decoder is a parameter: its state D, its buffers A.
-- The source of the packets is the list of what it gives; none is an error, the end of the stream too.
pub mod Frames
pub mod Gaps
pub mod Continuous
use getstream_go_webrtc.Base.{
  ℕ, zero, suc, ◌+◌, ◌-◌, ◌*◌, ◌/◌, ◌%◌, ◌^◌, Bool, true, false, not, Option, none, some, List, [],
  ◌∷◌, ◌++◌, ltb, leb, ◌==◌, if◌then◌else◌, max,
}
use getstream_go_webrtc.Base.Int.{ℤ, pos, negsuc}
use getstream_go_webrtc.Base.Result.{Result, err, ok}
use getstream_go_webrtc.Red.Packet.{Packet, sub16, sub32}
use getstream_go_webrtc.Red.Decoder.{Decoder, new_decoder, decode}

abbrev pub second : ℕ
second = 1000000000

abbrev pub opus_clock_rate : ℕ
opus_clock_rate = 48000

abbrev pub default_max_conceal : ℕ
default_max_conceal = 500000000

pub record Opus {d a} (D : Type d) (A : Type a) : Type (d ⊔ a) where
  pub decode_frame : List ℕ → D → Option (A × D)
  pub conceal_frame : D → Option (A × D)
  pub reset_decoder : D → D
  pub frame_duration : ℕ
  pub is_empty : A → Bool

-- A buffer with its presentation time
pub record Timed {a} (A : Type a) : Type a where
  pub pts : ℕ
  pub audio : A

pub record Reader {d a} (D : Type d) (A : Type a) : Type (d ⊔ a) where
  pub dec : D
  pub red : Option Decoder
  pub conceals : Bool
  pub max_conceal : ℕ
  pub clock_rate : ℕ
  pub pending : List (Timed A)
  pub expected_seq : ℕ  -- uint16
  pub have_seq : Bool
  pub base_timestamp : ℕ  -- uint32
  pub have_base : Bool

abbrev conceal_time : ℤ → ℕ
conceal_time (pos zero) = default_max_conceal
conceal_time (pos (suc n)) = suc n
conceal_time (negsuc n) = default_max_conceal

-- `NewRTPReader`, of a decoder that could be made
unfoldable pub new_rtp_reader {d a} :
    {D : Type d} {A : Type a} → Opus D A → D → Bool → ℕ → Bool → ℤ → Reader D A
new_rtp_reader opus dec is_red clock_rate disables limit = record {
  dec = dec;
  red = if is_red then some new_decoder else none;
  conceals = not disables;
  max_conceal = max 1 (conceal_time limit / opus.frame_duration);
  clock_rate = if clock_rate == 0 then opus_clock_rate else clock_rate;
  pending = [];
  expected_seq = 0;
  have_seq = false;
  base_timestamp = 0;
  have_base = false;
}

module _ {d a} {D : Type d} {A : Type a} where
  -- `ptsOf`
  unfoldable pub pts_of : Reader D A → ℕ → ℕ
  pts_of r timestamp = sub32 timestamp r.base_timestamp * second / r.clock_rate

  -- `Close`
  unfoldable pub close : Reader D A → Reader D A
  close r = record r { pending = [] }

module _ {d a} {D : Type d} {A : Type a} (opus : Opus D A) where
  -- `append`
  unfoldable pub append : Timed A → Reader D A → Reader D A
  append pcm r =
      if opus.is_empty pcm.audio then r else record r { pending = r.pending ++ (pcm ∷ []) }

  unfoldable pub frame_ticks : Reader D A → ℕ
  frame_ticks r = (opus.frame_duration * r.clock_rate / second) % 2 ^ 32

  -- The loop of `concealGap`, with the frames that are left
  unfoldable pub conceal_frames : ℕ → ℕ → Reader D A → Reader D A
  unfolding append pts_of
  conceal_frames zero timestamp r = r
  conceal_frames (suc i) timestamp r = elim (opus.conceal_frame r.dec) [
    | none ↦ r
    | some (pcm, dec) ↦
        let at = pts_of r (sub32 timestamp ((suc i * frame_ticks r) % 2 ^ 32)) in
        conceal_frames i timestamp
          (append (record { pts = at; audio = pcm }) (record r { dec = dec }))
  ]

  unfoldable pub conceal_gap : ℕ → ℕ → Reader D A → Reader D A
  conceal_gap count timestamp r =
      if not r.conceals
      then r
      else if ltb r.max_conceal count
      then conceal_frames r.max_conceal timestamp (record r { dec = opus.reset_decoder r.dec })
      else conceal_frames count timestamp r

  abbrev based : Packet → Reader D A → Reader D A
  based pkt r = if r.have_base then r else record r { base_timestamp = pkt.ts; have_base = true }

  abbrev pub expecting : Packet → Reader D A → Reader D A
  expecting pkt r = record r { expected_seq = (pkt.seq + 1) % 2 ^ 16; have_seq = true }

  -- `handle` from the decoding on
  unfoldable pub decoded : Packet → Reader D A → Bool × Reader D A
  unfolding append pts_of
  decoded pkt r = elim (opus.decode_frame pkt.payload r.dec) [
    | none ↦ if r.conceals then (true, conceal_gap 1 pkt.ts r) else (false, r)
    | some (pcm, dec) ↦
        (true, append (record { pts = pts_of r pkt.ts; audio = pcm }) (record r { dec = dec }))
  ]

  -- `handle` of a packet that is so far ahead of the expected one
  unfoldable pub after_gap : ℕ → Packet → Reader D A → Bool × Reader D A
  after_gap gap pkt r =
      if ltb 0x8000 gap
      then (true, r)
      else if ltb 0 gap
      then decoded pkt (expecting pkt (conceal_gap gap pkt.ts r))
      else decoded pkt (expecting pkt r)

  -- `handle`, and whether it returned no error
  unfoldable pub handle : Packet → Reader D A → Bool × Reader D A
  handle pkt r =
      let r' = based pkt r in
      if r'.have_seq
      then after_gap (sub16 pkt.seq r'.expected_seq) pkt r'
      else decoded pkt (expecting pkt r')

  -- The loop of `readPacket`
  unfoldable pub handle_all : List Packet → Reader D A → Bool × Reader D A
  unfolding handle
  handle_all [] r = (true, r)
  handle_all (pkt ∷ pkts) r =
      let first = handle pkt r in
      let rest = handle_all pkts first.1 in if first.0 then rest else first

  -- `readPacket` of a packet that came
  unfoldable pub read_packet : Packet → Reader D A → Bool × Reader D A
  unfolding handle_all
  read_packet pkt r = elim r.red [
    | none ↦ handle_all (pkt ∷ []) r
    | some red ↦ elim (decode red pkt) [
      | err e ↦ (false, r)
      | ok (recovered, red') ↦ handle_all recovered (record r { red = some red' })
    ]
  ]

  -- What `Read` answers: a buffer, an error, or nothing as long as no packet comes
  abbrev pub Answer : Type a
  Answer = Option (Result (Unit {0}) (Timed A))

  unfoldable pub read : List (Option Packet) → List (Timed A) → Reader D A → Answer × Reader D A
  unfolding read_packet
  read source (pcm ∷ pending) r = (some (ok pcm), record r { pending = pending })
  read [] [] r = (none, r)
  read (none ∷ source) [] r = (some (err tt), r)
  read (some pkt ∷ source) [] r =
      let done = read_packet pkt r in
      let rest = read source done.1.pending done.1 in
      if done.0 then rest else (some (err tt), done.1)
