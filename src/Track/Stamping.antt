-- ===== src/Track/Stamping.antt =====
-- The time of the packets that a sample is written as.
use getstream_go_webrtc.Base.{
  ℕ, zero, suc, ◌^◌, ◌<◌, ◌≡◌, refl, ap, ◌∙◌, inl, inr, Bool-cases, Option-cases, ◌||◌, Option,
  none, some, List, [], ◌∷◌, All, arith, ◌==◌, All-append, length,
}
use getstream_go_webrtc.Track.Clock.{add32}
use getstream_go_webrtc.Track.Write.{
  Pion, Binding, Layer, skip_numbers, write, write_packets, stamp_level, stamp_text, stamp_layer,
  stamp, ◌>>=◌, is_empty,
}

-- A chain that succeeds has got a value at its first step.
bind-eq-some {a b} :
    {A : Type a} {B : Type b} (first : Option A) (next : A → Option B) {got : B}
    → (first >>= next) ≡ some got
    → (x : A) × (first ≡ some x) × (next x ≡ some got)
bind-eq-some none next h = absurd (ground arith)
bind-eq-some (some x) next h = (x, refl, h)

-- What is known of pion's packetizer and packets: where the next packet stands on the RTP timeline, and
-- what moves that.
pub record Keeps {s p} {S : Type s} {P : Type p} (pion : Pion S P) : Type (s ⊔ p) where
  pub position : S → ℕ
  pub time : P → ℕ
  pub position_bound : (packetizer : S) → position packetizer < 2 ^ 32
  pub number_position :
      (packetizer : S) → position (pion.next_sequence_number packetizer) ≡ position packetizer
  pub skip_position :
      (n : ℕ) (packetizer : S)
      → position (pion.skip_samples n packetizer) ≡ add32 (position packetizer) n
  pub packetize_position :
      (payload : List ℕ) (n : ℕ) (packetizer : S)
      → 0 < length payload
      → position (pion.packetize payload n packetizer).1 ≡ add32 (position packetizer) n
  pub packetize_time :
      (payload : List ℕ) (n : ℕ) (packetizer : S)
      → All (λ pkt. time pkt ≡ position packetizer) (pion.packetize payload n packetizer).0
  pub extension_time :
      (i : ℕ) (text : List ℕ) (pkt q : P)
      → pion.set_extension i text pkt ≡ some q
      → time q ≡ time pkt

module _ {u v} {S : Type u} {P : Type v} (pion : Pion S P) (keeps : Keeps pion)
    (layer : Layer) where
  open keeps use {
    position, time, position_bound, number_position, skip_position, packetize_position,
    packetize_time, extension_time,
  }

  pub skip_numbers-position :
      (n : ℕ) (packetizer : S)
      → position (skip_numbers pion.next_sequence_number n packetizer) ≡ position packetizer
  unfolding skip_numbers
  skip_numbers-position zero packetizer = refl
  skip_numbers-position (suc n) packetizer =
      skip_numbers-position n (pion.next_sequence_number packetizer) ∙ number_position packetizer

  text-time :
      (i : ℕ) (text : List ℕ) (pkt q : P)
      → stamp_text pion layer i text pkt ≡ some q
      → time q ≡ time pkt
  unfolding stamp_text
  text-time i text pkt q h = ground (arith, extension_time i text pkt q)

  level-time :
      (b : Binding S) (level : Option ℕ) (pkt q : P)
      → stamp_level pion layer b level pkt ≡ some q
      → time q ≡ time pkt
  unfolding stamp_level
  level-time b none pkt q h = ground arith
  level-time b (some level) pkt q h = elim (Bool-cases (b.audio_level_id == 0)) [
    | inl off ↦ ap time (cc (rw off at h))
    | inr on ↦
        let (bytes, _, set) = bind-eq-some (pion.marshal_level level) _ (rw on at h) in
        extension_time b.audio_level_id bytes pkt q set
  ]

  layer-time :
      (b : Binding S) (mid : Option (List ℕ)) (pkt q : P)
      → stamp_layer pion layer b mid pkt ≡ some q
      → time q ≡ time pkt
  unfolding stamp_layer
  layer-time b none pkt q h = ground arith
  layer-time b (some []) pkt q h = ground arith
  layer-time b (some (c ∷ mid)) pkt q h =
      let (q', first, second) = bind-eq-some (stamp_text pion layer b.mid_id (c ∷ mid) pkt) _ h in
      text-time b.rid_id layer.rid q' q second ∙ text-time b.mid_id (c ∷ mid) pkt q' first

  stamp-time :
      (b : Binding S) (level : Option ℕ) (pkt q : P)
      → stamp pion layer b level pkt ≡ some q
      → time q ≡ time pkt
  unfolding stamp
  stamp-time b level pkt q h =
      let (q', first, second) = bind-eq-some (stamp_level pion layer b level pkt) _ h in
      let before = level-time b level pkt q' first in
      elim (Bool-cases (is_empty layer.rid || b.acked)) [
        | inl plain ↦ ap time (cc (rw plain at second)) ∙ before
        | inr layered ↦ layer-time b layer.mid q' q (rw layered at second) ∙ before
      ]

  write-time :
      (b : Binding S) (level : Option ℕ) (t : ℕ) (pkt : P)
      → time pkt ≡ t
      → All (λ q. time q ≡ t) (write pion layer b level pkt).handed
  unfolding write
  write-time b level t pkt now = elim (Option-cases (stamp pion layer b level pkt)) [
    | inl refused ↦ rw (refused, write, All) tt
    | inr (q, stamped) ↦ rw (stamped, write, All) (stamp-time b level pkt q stamped ∙ now, tt)
  ]

  -- All packets that are handed on have the time that the packetizer gave them.
  pub packets-time :
      (b : Binding S) (level : Option ℕ) (t : ℕ) (pkts : List P)
      → All (λ pkt. time pkt ≡ t) pkts
      → All (λ pkt. time pkt ≡ t) (write_packets pion layer b level pkts).handed
  unfolding write_packets
  packets-time b level t [] h = tt
  packets-time b level t (pkt ∷ pkts) (now, later) =
      All-append (λ q. time q ≡ t) (write pion layer b level pkt).handed _
        (write-time b level t pkt now) (packets-time b level t pkts later)
