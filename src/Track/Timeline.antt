-- ===== src/Track/Timeline.antt =====
-- Where samples come to lie on the RTP timeline.
use getstream_go_webrtc.Base.{
  ℕ, ◌^◌, ◌<◌, ◌≡◌, refl, ap₂, sym, subst, subst₂, ◌∙◌, true, false, Option, List, [], ◌∷◌, All,
  arith, length,
}
use getstream_go_webrtc.Base.Int.{pos_part, neg_part}
use getstream_go_webrtc.Track.Clock.{Sample, SampleClock, Placed, add32, sub32, ticks}
use getstream_go_webrtc.Track.Placing.{dropped_ticks}
use getstream_go_webrtc.Track.Wanted.{IsPlacedAt, running-placed, fresh-placed}
use getstream_go_webrtc.Track.Stamping.{Keeps, packets-time, skip_numbers-position}
use getstream_go_webrtc.Track.Write.{
  Pion, Binding, Layer, Written, skip_numbers, write_placed, write_bound,
}

-- A sample with a payload, a duration and a packet timestamp
abbrev pub IsTimed : Sample → Type 0
IsTimed x =
    (0 < length x.payload)
    × (neg_part x.duration ≡ 0)
    × (0 < x.packet_timestamp)
    × (x.packet_timestamp < 2 ^ 32)

-- Samples whose packet timestamps do not overlap: each is at or after the end of the one before it and
-- the time of the packets dropped, by less than half of the counter's range.
abbrev pub IsSpaced : ℕ → ℕ → ℕ → List Sample → Type 0
IsSpaced rate start end [] = Unit
IsSpaced rate start end (x ∷ xs) =
    let span = ticks (pos_part x.duration) rate in
    IsTimed x
    × (sub32 x.packet_timestamp start < 2 ^ 31)
    × (sub32 x.packet_timestamp (add32 end (dropped_ticks x span)) < 2 ^ 31)
    × IsSpaced rate x.packet_timestamp (add32 x.packet_timestamp span) xs

IsSpaced-moved :
    (xs : List Sample) {rate rate' start start' end end' : ℕ}
    → rate' ≡ rate
    → start' ≡ start
    → end' ≡ end
    → IsSpaced rate start end xs
    → IsSpaced rate' start' end' xs
IsSpaced-moved xs {rate} {start' = start'} {end' = end'} e f g h =
    subst (λ r. IsSpaced r start' end' xs) (sym e)
      (subst₂ (λ a b. IsSpaced rate a b xs) (sym f) (sym g) h)

module _ {u v} {S : Type u} {P : Type v} (pion : Pion S P) (layer : Layer) where
  -- `WriteSample` of one sample after the other
  unfoldable pub write_all : Option ℕ → Binding S → List Sample → List (Written P) × Binding S
  unfolding write_bound
  write_all level b [] = ([], b)
  write_all level b (x ∷ xs) =
      let first = write_bound pion layer b x level in
      let later = write_all level first.1 xs in (first.0 ∷ later.0, later.1)

module _ {u v} {S : Type u} {P : Type v} (pion : Pion S P) (keeps : Keeps pion)
    (layer : Layer) where
  open keeps use {
    position, time, position_bound, number_position, skip_position, packetize_position,
    packetize_time, extension_time,
  }

  -- A sample that is placed has the time where it starts, as far as the counter stood where it was
  -- placed from; then the counter stands at its end.
  placed-time :
      (b : Binding S) (s : Sample) (level : Option ℕ) (offset origin : ℕ)
      (got : Placed × SampleClock)
      → 0 < length s.payload
      → position b.packetizer ≡ add32 offset origin
      → got.1.start ≡ add32 origin got.0.skip
      → got.1.end ≡ add32 got.1.start got.0.span
      → let done = write_placed pion layer b s level got in
        All (λ pkt. time pkt ≡ add32 offset got.1.start) done.0.handed
        × (position done.1.packetizer ≡ add32 offset got.1.end)
        × (done.1.clock ≡ got.1)
        × (done.1.clock_rate ≡ b.clock_rate)
  unfolding write_placed
  placed-time b s level offset origin (placed, clock) some_payload before starts ends =
      let numbered = skip_numbers pion.next_sequence_number s.prev_dropped_packets b.packetizer in
      let skipped = pion.skip_samples placed.skip numbered in
      let stands : position skipped ≡ add32 offset clock.start = ground (
        arith,
        skip_position placed.skip numbered,
        skip_numbers-position pion keeps layer s.prev_dropped_packets b.packetizer,
      ) in
      (
        packets-time pion keeps layer b level (add32 offset clock.start) _ (
            subst (λ t. All (λ pkt. time pkt ≡ t) (pion.packetize s.payload placed.span skipped).0)
              stands (packetize_time s.payload placed.span skipped)),
        ground (arith, packetize_position s.payload placed.span skipped),
        refl,
        refl,
      )

  -- Each sample's packets have its packet timestamp, counted from a common origin.
  abbrev pub Follows : ℕ → List Sample → List (Written P) → Type 0
  Follows offset [] [] = Unit
  Follows offset (x ∷ xs) (w ∷ ws) =
      All (λ pkt. time pkt ≡ add32 offset x.packet_timestamp) w.handed × Follows offset xs ws
  Follows offset _ _ = ⊥

  bound-time :
      (b : Binding S) (x : Sample) (level : Option ℕ) (offset origin : ℕ)
      → 0 < length x.payload
      → position b.packetizer ≡ add32 offset origin
      → IsPlacedAt b.clock x b.clock_rate origin
      → let done = write_bound pion layer b x level in
        All (λ pkt. time pkt ≡ add32 offset x.packet_timestamp) done.0.handed
        × (position done.1.packetizer ≡ add32 offset done.1.clock.end)
        × (done.1.clock.start ≡ x.packet_timestamp)
        × (done.1.clock.end ≡ add32 x.packet_timestamp (ticks (pos_part x.duration) b.clock_rate))
        × (done.1.clock.started ≡ true)
        × (done.1.clock_rate ≡ b.clock_rate)
  unfolding write_bound
  bound-time b x level offset origin some_payload before
        (got, places, starts, ends, at, spans, on) =
      let done = placed-time b x level offset origin got some_payload before starts ends in
      let written = (write_placed pion layer b x level got).0.handed in
      rw (places, write_bound)
        (
          subst (λ t. All (λ pkt. time pkt ≡ add32 offset t) written) at done.0,
          done.1,
          at,
          ends ∙ ap₂ add32 at spans,
          on,
          refl,
        )

  follows :
      (level : Option ℕ) (offset : ℕ) (b : Binding S) (xs : List Sample)
      → b.clock.started ≡ true
      → b.clock.end < 2 ^ 32
      → position b.packetizer ≡ add32 offset b.clock.end
      → IsSpaced b.clock_rate b.clock.start b.clock.end xs
      → Follows offset xs (write_all pion layer level b xs).0
  unfolding write_all
  follows level offset b [] on bound at spaced = tt
  follows level offset b (x ∷ xs) on bound at (timed, ahead, apart, rest) =
      let first =
        bound-time b x level offset b.clock.end timed.0 at
          (running-placed b.clock x b.clock_rate on bound timed.1 timed.2 timed.3 ahead apart) in
      (
        first.0,
        follows level offset (write_bound pion layer b x level).1 xs first.4
            (omega (arith, first.3)) first.1 (IsSpaced-moved xs first.5 first.2 first.3 rest),
      )

  -- The packets of samples whose packet timestamps do not overlap have these as their RTP timestamps, but
  -- for a common offset that is the packetizer's.
  pub timestamps_followed :
      (level : Option ℕ) (b : Binding S) (x : Sample) (xs : List Sample)
      → b.clock.started ≡ false
      → IsTimed x
      → IsSpaced b.clock_rate x.packet_timestamp
          (add32 x.packet_timestamp (ticks (pos_part x.duration) b.clock_rate))
          xs
      → let dropped = dropped_ticks x (ticks (pos_part x.duration) b.clock_rate) in
        let offset = sub32 (position b.packetizer) (sub32 x.packet_timestamp dropped) in
        Follows offset (x ∷ xs) (write_all pion layer level b (x ∷ xs)).0
  unfolding write_all
  timestamps_followed level b x xs off timed spaced =
      let dropped = dropped_ticks x (ticks (pos_part x.duration) b.clock_rate) in
      let origin = sub32 x.packet_timestamp dropped in
      let offset = sub32 (position b.packetizer) origin in
      let at : position b.packetizer ≡ add32 offset origin =
        omega (arith, position_bound b.packetizer) in
      let first =
        bound-time b x level offset origin timed.0 at
          (fresh-placed b.clock x b.clock_rate off timed.1 timed.2 timed.3) in
      (
        first.0,
        follows level offset (write_bound pion layer b x level).1 xs first.4
            (omega (arith, first.3)) first.1 (IsSpaced-moved xs first.5 first.2 first.3 spaced),
      )
