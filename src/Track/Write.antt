-- ===== src/Track/Write.antt =====
-- track/local.go: how a sample and a packet are written, and what the RTCP of the SFU changes. The
-- packetizer, the packets and the track that takes them are pion's: they are the record Pion, whose
-- fields are what the code calls. Texts are lists of bytes.
use getstream_go_webrtc.Base.{
  ℕ, zero, suc, ◌+◌, ◌%◌, ◌^◌, Bool, true, false, not, ◌||◌, Option, none, some, List, [], ◌∷◌,
  ◌++◌, ◌==◌, if◌then◌else◌,
}
use getstream_go_webrtc.Base.Result.{err, ok}
use getstream_go_webrtc.Track.Clock.{Sample, SampleClock, Placed, new_clock, place}

-- S is the packetizer with its sequencer, P a packet.
pub record Pion {s p} (S : Type s) (P : Type p) : Type (s ⊔ p) where
  pub next_sequence_number : S → S
  pub skip_samples : ℕ → S → S
  pub packetize : List ℕ → ℕ → S → List P × S
  pub set_extension : ℕ → List ℕ → P → Option P
  pub marshal_level : ℕ → Option (List ℕ)
  pub write_rtp : P → Bool  -- whether the track took the packet

pub record Binding {s} (S : Type s) : Type s where
  pub ssrc : ℕ
  pub audio_level_id : ℕ
  pub mid_id : ℕ
  pub rid_id : ℕ
  pub acked : Bool
  pub packetizer : S
  pub clock_rate : ℕ
  pub clock : SampleClock

pub data ExtensionUri : Type 0 where
  audio_level_uri : ExtensionUri
  mid_uri : ExtensionUri
  rid_uri : ExtensionUri
  other_uri : ExtensionUri

-- The `switch` on one header extension; identifiers are a uint8.
abbrev identified {s} : {S : Type s} → Binding S → ExtensionUri → ℕ → Binding S
identified b audio_level_uri i = record b { audio_level_id = i % 2 ^ 8 }
identified b mid_uri i = record b { mid_id = i % 2 ^ 8 }
identified b rid_uri i = record b { rid_id = i % 2 ^ 8 }
identified b other_uri i = b

unfoldable pub with_extensions {s} : {S : Type s} → List (ExtensionUri × ℕ) → Binding S → Binding S
with_extensions [] b = b
with_extensions ((uri, i) ∷ extensions) b = with_extensions extensions (identified b uri i)

-- `newBinding`, with the packetizer that the codec gets, which is none where no payloader is known
unfoldable pub new_binding {s} :
    {S : Type s} → Option S → ℕ → ℕ → List (ExtensionUri × ℕ) → Option (Binding S)
unfolding with_extensions
new_binding none ssrc rate extensions = none
new_binding (some packetizer) ssrc rate extensions = some (
    with_extensions extensions record {
      ssrc = ssrc;
      audio_level_id = 0;
      mid_id = 0;
      rid_id = 0;
      acked = false;
      packetizer = packetizer;
      clock_rate = rate;
      clock = new_clock;
    })

-- What the track knows of its layer: its RTP stream id, and the mid of its transceiver, if it has one
pub record Layer : Type 0 where
  pub rid : List ℕ
  pub mid : Option (List ℕ)

abbrev pub is_empty : List ℕ → Bool
is_empty [] = true
is_empty (c ∷ t) = false

-- The packets that were handed to the track, and whether there was an error
pub record Written {p} (P : Type p) : Type p where
  pub handed : List P
  pub failed : Bool

-- The `for` over the dropped packets
unfoldable pub skip_numbers {s} : {S : Type s} → (S → S) → ℕ → S → S
skip_numbers next zero packetizer = packetizer
skip_numbers next (suc n) packetizer = skip_numbers next n (next packetizer)

infixl 5 ◌>>=◌
abbrev pub ◌>>=◌ {a b} : {A : Type a} {B : Type b} → Option A → (A → Option B) → Option B
none >>= next = none
some x >>= next = next x

module _ {s p} {S : Type s} {P : Type p} (pion : Pion S P) (layer : Layer) where
  unfoldable pub stamp_level : Binding S → Option ℕ → P → Option P
  stamp_level b none pkt = some pkt
  stamp_level b (some level) pkt =
      if b.audio_level_id == 0
      then some pkt
      else pion.marshal_level level >>= λ bytes. pion.set_extension b.audio_level_id bytes pkt

  unfoldable pub stamp_text : ℕ → List ℕ → P → Option P
  stamp_text i text pkt = if i == 0 then some pkt else pion.set_extension i text pkt

  unfoldable pub stamp_layer : Binding S → Option (List ℕ) → P → Option P
  unfolding stamp_text
  stamp_layer b none pkt = some pkt
  stamp_layer b (some mid) pkt =
      if is_empty mid
      then some pkt
      else stamp_text b.mid_id mid pkt >>= λ q. stamp_text b.rid_id layer.rid q

  -- The header extensions of a packet, none where one of them cannot be set
  unfoldable pub stamp : Binding S → Option ℕ → P → Option P
  unfolding stamp_level stamp_layer
  stamp b level pkt = stamp_level b level pkt >>= λ q.
      if is_empty layer.rid || b.acked then some q else stamp_layer b layer.mid q

  unfoldable pub write : Binding S → Option ℕ → P → Written P
  unfolding stamp
  write b level pkt = elim (stamp b level pkt) [
    | none ↦ record { handed = []; failed = true }
    | some q ↦ record { handed = q ∷ []; failed = not (pion.write_rtp q) }
  ]

  -- `WriteRTP`, which a track that is not bound hands on as it is
  unfoldable pub write_rtp : Option (Binding S) → Option ℕ → P → Written P
  unfolding write
  write_rtp none level pkt = record { handed = pkt ∷ []; failed = not (pion.write_rtp pkt) }
  write_rtp (some b) level pkt = write b level pkt

  -- The loop over the packets of a sample
  unfoldable pub write_packets : Binding S → Option ℕ → List P → Written P
  unfolding write
  write_packets b level [] = record { handed = []; failed = false }
  write_packets b level (pkt ∷ pkts) =
      let first = write b level pkt in
      let later = write_packets b level pkts in
      record { handed = first.handed ++ later.handed; failed = first.failed || later.failed }

  -- `WriteSample` from the placement of the sample on
  unfoldable pub write_placed :
      Binding S → Sample → Option ℕ → Placed × SampleClock → Written P × Binding S
  unfolding skip_numbers write_packets
  write_placed b sample level (placed, clock) =
      let numbered =
        skip_numbers pion.next_sequence_number sample.prev_dropped_packets b.packetizer in
      let made =
        pion.packetize sample.payload placed.span (pion.skip_samples placed.skip numbered) in
      (write_packets b level made.0, record b { packetizer = made.1; clock = clock })

  unfoldable pub write_bound : Binding S → Sample → Option ℕ → Written P × Binding S
  unfolding place write_placed
  write_bound b sample level = elim (place b.clock sample b.clock_rate) [
    | err e ↦ (record { handed = []; failed = true }, b)
    | ok placed ↦ write_placed b sample level placed
  ]

  -- `WriteSample`
  unfoldable pub write_sample :
      Option (Binding S) → Sample → Option ℕ → Written P × Option (Binding S)
  unfolding write_bound
  write_sample none sample level = (record { handed = []; failed = false }, none)
  write_sample (some b) sample level =
      let done = write_bound b sample level in (done.0, some done.1)

-- What the SFU's RTCP says: the SSRCs of a receiver report, a request for a key frame (PLI, FIR), or else
pub data Rtcp : Type 0 where
  receiver_report : List ℕ → Rtcp
  picture_loss_indication : Rtcp
  full_intra_request : Rtcp
  other_rtcp : Rtcp

unfoldable pub reports_on : List ℕ → ℕ → Bool
reports_on [] ssrc = false
reports_on (r ∷ reports) ssrc = if r == ssrc then true else reports_on reports ssrc

abbrev pub acknowledges : Rtcp → ℕ → Bool
acknowledges (receiver_report reports) ssrc = reports_on reports ssrc
acknowledges picture_loss_indication ssrc = false
acknowledges full_intra_request ssrc = false
acknowledges other_rtcp ssrc = false

-- `requestKeyFrame`: whether the provider, if it makes key frames, is asked for one
abbrev pub request_key_frame : Bool → Rtcp → Bool
request_key_frame is_key_framer picture_loss_indication = is_key_framer
request_key_frame is_key_framer full_intra_request = is_key_framer
request_key_frame is_key_framer (receiver_report reports) = false
request_key_frame is_key_framer other_rtcp = false

-- The loop over the packets of one read, with the number of key frames asked for
unfoldable pub on_rtcp {s} : {S : Type s} → Bool → List Rtcp → Binding S → ℕ × Binding S
unfolding reports_on
on_rtcp is_key_framer [] b = (0, b)
on_rtcp is_key_framer (pkt ∷ pkts) b =
    let b' = if acknowledges pkt b.ssrc then record b { acked = true } else b in
    let later = on_rtcp is_key_framer pkts b' in
    ((if request_key_frame is_key_framer pkt then later.0 + 1 else later.0), later.1)

-- `readRTCP` over what it reads until it fails; what cannot be parsed is `none`.
unfoldable pub read_rtcp {s} :
    {S : Type s} → Bool → List (Option (List Rtcp)) → Binding S → ℕ × Binding S
unfolding on_rtcp
read_rtcp is_key_framer [] b = (0, b)
read_rtcp is_key_framer (none ∷ reads) b = read_rtcp is_key_framer reads b
read_rtcp is_key_framer (some pkts ∷ reads) b =
    let first = on_rtcp is_key_framer pkts b in
    let later = read_rtcp is_key_framer reads first.1 in (first.0 + later.0, later.1)
