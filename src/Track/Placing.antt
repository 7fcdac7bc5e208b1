-- ===== src/Track/Placing.antt =====
-- Where the sample clock puts a sample.
use getstream_go_webrtc.Base.{
  ℕ, ◌*◌, ◌%◌, ◌^◌, ◌<◌, ◌≡◌, refl, ap, sym, subst, subst, ◌∙◌, true, inl, inr, Bool-cases, Option,
  none, some, arith, ◌==◌,
}
use getstream_go_webrtc.Base.Int.{ℤ, pos, negsuc}
use getstream_go_webrtc.Base.Result.{ok, >>=-eq-ok}
use getstream_go_webrtc.Track.Clock.{
  Sample, SampleClock, Placed, add32, sub32, ticks, begun, wall_target, target, settled, place,
  place_lasting, is_ahead,
}

abbrev pub dropped_ticks : Sample → ℕ → ℕ
dropped_ticks s span = (s.prev_dropped_packets * span) % 2 ^ 32

-- What `place` returns is where the sample settles.
lasting-settled :
    (c : SampleClock) (s : Sample) (rate : ℕ) (lasts : ℤ) {got : Placed × SampleClock}
    → place_lasting c s rate lasts ≡ ok got
    → (d : ℕ) × (wanted : ℕ) × (lasts ≡ pos d)
      × (let dropped = dropped_ticks s (ticks d rate) in
          let origin = begun c s dropped in
          (target c s rate (add32 origin dropped) ≡ ok wanted)
          × (settled c s origin (add32 origin dropped) (ticks d rate) wanted ≡ got))
unfolding place_lasting
lasting-settled c s rate (negsuc n) h = absurd (ground arith)
lasting-settled c s rate (pos d) h =
    let dropped = dropped_ticks s (ticks d rate) in
    let origin = begun c s dropped in
    let (wanted, aimed, reached) = >>=-eq-ok (target c s rate (add32 origin dropped)) _ h in
    (d, wanted, refl, (aimed, cc reached))

ahead_gap :
    (origin dropped wanted : ℕ)
    → origin < 2 ^ 32
    → dropped < 2 ^ 32
    → wanted < 2 ^ 32
    → let gap = sub32 wanted (add32 origin dropped) in
      (sub32 wanted origin ≡ add32 dropped gap) × (wanted ≡ add32 origin (sub32 wanted origin))
ahead_gap origin dropped wanted ho hd hw = omega arith

no_gap :
    (origin dropped : ℕ)
    → origin < 2 ^ 32
    → dropped < 2 ^ 32
    → (sub32 (add32 origin dropped) origin ≡ dropped)
      × (add32 origin dropped ≡ add32 origin (sub32 (add32 origin dropped) origin))
no_gap origin dropped ho hd = omega arith

-- A sample starts after the end of the one before it and the time of the dropped packets, by less than
-- half of the counter's range.
pub settled_after :
    (c : SampleClock) (s : Sample) (origin dropped span wanted : ℕ)
    → origin < 2 ^ 32
    → dropped < 2 ^ 32
    → wanted < 2 ^ 32
    → let got = settled c s origin (add32 origin dropped) span wanted in
      (gap : ℕ) × (gap < 2 ^ 31)
      × (got.0.skip ≡ add32 dropped gap)
      × (got.1.start ≡ add32 origin got.0.skip)
      × (got.1.end ≡ add32 got.1.start span)
unfolding settled
settled_after c s origin dropped span wanted ho hd hw =
    elim (Bool-cases (is_ahead wanted (add32 origin dropped))) [
      | inl later ↦ rw later (
        sub32 wanted (add32 origin dropped),
        ground arith,
        (ahead_gap origin dropped wanted ho hd hw).0,
        (ahead_gap origin dropped wanted ho hd hw).1,
        refl,
      )
      | inr now ↦ rw now (
        0,
        omega arith,
        omega (arith, no_gap origin dropped ho hd),
        (no_gap origin dropped ho hd).1,
        refl,
      )
    ]

pub begun-started : (c : SampleClock) (x : Sample) (n : ℕ) → c.started ≡ true → begun c x n ≡ c.end
unfolding begun
begun-started c x n on = rw on

wall_bound :
    (c : SampleClock) (rate : ℕ) (now before : Option ℕ) (start : ℕ) {wanted : ℕ}
    → start < 2 ^ 32
    → wall_target c rate now before start ≡ ok wanted
    → wanted < 2 ^ 32
unfolding wall_target
wall_bound c rate (some now) (some before) start hs h = ground arith
wall_bound c rate (some now) none start hs h = ground arith
wall_bound c rate none before start hs h = ground arith

target_bound :
    (c : SampleClock) (s : Sample) (rate start : ℕ) {wanted : ℕ}
    → start < 2 ^ 32
    → s.packet_timestamp < 2 ^ 32
    → target c s rate start ≡ ok wanted
    → wanted < 2 ^ 32
unfolding target
target_bound c s rate start hs hp h = elim (Bool-cases c.started) [
  | inl on ↦ elim (Bool-cases (s.packet_timestamp == 0)) [
    | inl unset ↦ wall_bound c rate s.timestamp c.wall start hs (rw (on, unset) at h)
    | inr given ↦ ground arith
  ]
  | inr off ↦ ground arith
]

-- Wherever a running clock places a sample, it starts after the end of the sample before it and the time
-- of the packets dropped in between, by less than half of the counter's range, and ends its own span
-- later; what is skipped is exactly the distance.
pub place_after :
    (c : SampleClock) (s : Sample) (rate : ℕ) (placed : Placed) (after : SampleClock)
    → c.started ≡ true
    → c.end < 2 ^ 32
    → s.packet_timestamp < 2 ^ 32
    → place c s rate ≡ ok (placed, after)
    → (gap : ℕ) × (gap < 2 ^ 31)
      × (placed.skip ≡ add32 (dropped_ticks s placed.span) gap)
      × (after.start ≡ add32 c.end placed.skip)
      × (after.end ≡ add32 after.start placed.span)
unfolding place
place_after c s rate placed after on bound fits h =
    let (d, wanted, _, (aims, reached)) = lasting-settled c s rate s.duration h in
    let dropped = dropped_ticks s (ticks d rate) in
    let from : begun c s dropped ≡ c.end = begun-started c s dropped on in
    let (gap, small, skips, starts, ends) =
      settled_after c s c.end dropped (ticks d rate) wanted bound (omega arith)
        (target_bound c s rate (add32 (begun c s dropped) dropped) (omega arith) fits aims) in
    let reached' =
      subst (λ o. settled c s o (add32 o dropped) (ticks d rate) wanted ≡ (placed, after)) from
        reached in
    let spans : ticks d rate ≡ placed.span = ap (λ g. g.0.span) reached' in
    (
      gap,
      small,
      sym (ap (λ g. g.0.skip) reached') ∙ skips ∙ ap (λ n. add32 (dropped_ticks s n) gap) spans,
      sym (ap (λ g. g.1.start) reached') ∙ starts ∙ ap (λ g. add32 c.end g.0.skip) reached',
      sym (ap (λ g. g.1.end) reached') ∙ ends ∙ ap (λ g. add32 g.1.start g.0.span) reached',
    )
