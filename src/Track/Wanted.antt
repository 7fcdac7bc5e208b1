-- ===== src/Track/Wanted.antt =====
-- The sample clock puts a sample where its packet timestamp says.
use getstream_go_webrtc.Base.{ℕ, ◌^◌, ◌<◌, ◌≡◌, refl, ap, ◌∙◌, true, false, arith}
use getstream_go_webrtc.Base.Int.{ℤ, pos, pos_part, neg_part}
use getstream_go_webrtc.Base.Result.{ok}
use getstream_go_webrtc.Track.Clock.{
  Sample, SampleClock, Placed, add32, sub32, ticks, begun, target, settled, place, place_lasting,
}
use getstream_go_webrtc.Track.Placing.{dropped_ticks, settled_after, begun-started}

-- A sample that wants to be after the start it may have gets its wish.
settled-wanted :
    (c : SampleClock) (x : Sample) (origin start span wanted : ℕ)
    → start < 2 ^ 32
    → wanted < 2 ^ 32
    → sub32 wanted start < 2 ^ 31
    → (settled c x origin start span wanted).1.start ≡ wanted
unfolding settled
settled-wanted c x origin start span wanted hs hw apart = ground arith

target-started :
    (c : SampleClock) (x : Sample) (rate start : ℕ)
    → c.started ≡ true
    → 0 < x.packet_timestamp
    → sub32 x.packet_timestamp c.start < 2 ^ 31
    → target c x rate start ≡ ok x.packet_timestamp
unfolding target
target-started c x rate start on some_time ahead = ground arith

begun-fresh :
    (c : SampleClock) (x : Sample) (n : ℕ)
    → c.started ≡ false
    → 0 < x.packet_timestamp
    → begun c x n ≡ sub32 x.packet_timestamp n
unfolding begun
begun-fresh c x n off some_time = ground arith

target-fresh :
    (c : SampleClock) (x : Sample) (rate start : ℕ)
    → c.started ≡ false
    → target c x rate start ≡ ok start
unfolding target
target-fresh c x rate start off = rw off

-- The outcome of `place`, where its parts are known
place-parts :
    (c : SampleClock) (x : Sample) (rate d origin wanted : ℕ)
    → x.duration ≡ pos d
    → (let dropped = dropped_ticks x (ticks d rate) in
        (begun c x dropped ≡ origin) × (target c x rate (add32 origin dropped) ≡ ok wanted))
    → place c x rate
      ≡ ok
          (settled c x origin (add32 origin (dropped_ticks x (ticks d rate))) (ticks d rate) wanted)
unfolding place place_lasting
place-parts c x rate d origin wanted lasts (from, aims) = rw (lasts, from, aims)

-- A sample that is put where its packet timestamp says
abbrev pub IsPlacedAt : SampleClock → Sample → ℕ → ℕ → Type 0
IsPlacedAt c x rate origin =
    (got : Placed × SampleClock) × (place c x rate ≡ ok got)
    × (got.1.start ≡ add32 origin got.0.skip)
    × (got.1.end ≡ add32 got.1.start got.0.span)
    × (got.1.start ≡ x.packet_timestamp)
    × (got.0.span ≡ ticks (pos_part x.duration) rate)
    × (got.1.started ≡ true)

whole : (z : ℤ) → neg_part z ≡ 0 → z ≡ pos (pos_part z)
whole z h = ground arith

placed_at :
    (c : SampleClock) (x : Sample) (rate origin : ℕ)
    → let dropped = dropped_ticks x (ticks (pos_part x.duration) rate) in
      origin < 2 ^ 32
      → neg_part x.duration ≡ 0
      → x.packet_timestamp < 2 ^ 32
      → sub32 x.packet_timestamp (add32 origin dropped) < 2 ^ 31
      → begun c x dropped ≡ origin
      → target c x rate (add32 origin dropped) ≡ ok x.packet_timestamp
      → IsPlacedAt c x rate origin
unfolding settled
placed_at c x rate origin small lasts fits apart from aims =
    let span = ticks (pos_part x.duration) rate in
    let dropped = dropped_ticks x span in
    let after = settled_after c x origin dropped span x.packet_timestamp small (omega arith) fits in
    (
      settled c x origin (add32 origin dropped) span x.packet_timestamp,
      place-parts c x rate (pos_part x.duration) origin x.packet_timestamp (whole x.duration lasts)
          (from, aims),
      after.3,
      refl,
      settled-wanted c x origin (add32 origin dropped) span x.packet_timestamp (omega arith) fits
          apart,
      refl,
      refl,
    )

-- A running clock puts a sample at its packet timestamp that does not overlap what came before.
pub running-placed :
    (c : SampleClock) (x : Sample) (rate : ℕ)
    → c.started ≡ true
    → c.end < 2 ^ 32
    → neg_part x.duration ≡ 0
    → 0 < x.packet_timestamp
    → x.packet_timestamp < 2 ^ 32
    → sub32 x.packet_timestamp c.start < 2 ^ 31
    → sub32 x.packet_timestamp (add32 c.end (dropped_ticks x (ticks (pos_part x.duration) rate)))
      < 2 ^ 31
    → IsPlacedAt c x rate c.end
running-placed c x rate on bound lasts some_time fits ahead apart =
    placed_at c x rate c.end bound lasts fits apart (begun-started c x _ on)
      (target-started c x rate _ on some_time ahead)

-- A clock that has not started begins at the first packet timestamp.
pub fresh-placed :
    (c : SampleClock) (x : Sample) (rate : ℕ)
    → c.started ≡ false
    → neg_part x.duration ≡ 0
    → 0 < x.packet_timestamp
    → x.packet_timestamp < 2 ^ 32
    → IsPlacedAt c x rate
        (sub32 x.packet_timestamp (dropped_ticks x (ticks (pos_part x.duration) rate)))
fresh-placed c x rate off lasts some_time fits =
    let dropped = dropped_ticks x (ticks (pos_part x.duration) rate) in
    let origin = sub32 x.packet_timestamp dropped in
    let back : add32 origin dropped ≡ x.packet_timestamp = omega arith in
    placed_at c x rate origin (omega arith) lasts fits (omega (arith, back))
      (begun-fresh c x dropped off some_time) (target-fresh c x rate _ off ∙ ap ok back)
