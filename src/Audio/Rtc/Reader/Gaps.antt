-- ===== src/Audio/Rtc/Reader/Gaps.antt =====
-- Gaps of lost packets are filled, so that the audio is continuous.
use getstream_go_webrtc.Base.{
  ℕ, zero, suc, ◌+◌, ◌*◌, ◌/◌, ◌%◌, ◌^◌, ◌≤◌, ◌<◌, ◌≡◌, refl, ap, ap₂, sym, ◌∙◌, true, false, some,
  List, [], ◌∷◌, ◌++◌, append_assoc, append-nil, arith,
}
use getstream_go_webrtc.Red.Packet.{Packet, sub16, sub32}
use getstream_go_webrtc.Audio.Rtc.Reader.{
  second, Opus, Reader, pts_of, append, frame_ticks, conceal_frames, conceal_gap, expecting,
  decoded, after_gap, handle,
}
use getstream_go_webrtc.Audio.Rtc.Reader.Frames.{
  frame_pts, frames_from, times, Carries, frames_at, frames_from-append, heard, heard-pending,
  heard-pending', ticks_back, next_expected, distance_expected, elapsed_ticks,
}

-- The opus decoder makes audio of every payload and of every gap.
pub record Decodes {d a} {D : Type d} {A : Type a} (opus : Opus D A) : Type (d ⊔ a) where
  pub decodes :
      (payload : List ℕ) (dec : D)
      → (pcm : A) × (dec' : D) × (opus.decode_frame payload dec ≡ some (pcm, dec'))
        × (opus.is_empty pcm ≡ false)
  pub conceals :
      (dec : D)
      → (pcm : A) × (dec' : D) × (opus.conceal_frame dec ≡ some (pcm, dec'))
        × (opus.is_empty pcm ≡ false)

module _ {d a} {D : Type d} {A : Type a} (opus : Opus D A) (works : Decodes opus) where
  open works use {decodes, conceals}

  -- What concealing and decoding leave alone
  abbrev pub SameStream : Reader D A → Reader D A → Type 0
  SameStream r s =
      (s.conceals ≡ r.conceals)
      × (s.max_conceal ≡ r.max_conceal)
      × (s.clock_rate ≡ r.clock_rate)
      × (s.expected_seq ≡ r.expected_seq)
      × (s.have_seq ≡ r.have_seq)
      × (s.base_timestamp ≡ r.base_timestamp)
      × (s.have_base ≡ r.have_base)

  conceal_frames-suc :
      (n timestamp : ℕ) (r : Reader D A) (pcm : A) (dec : D)
      → opus.conceal_frame r.dec ≡ some (pcm, dec)
      → opus.is_empty pcm ≡ false
      → let at = pts_of r (sub32 timestamp ((suc n * frame_ticks opus r) % 2 ^ 32)) in
        conceal_frames opus (suc n) timestamp r
        ≡ conceal_frames opus n timestamp (heard at pcm dec r)
  unfolding conceal_frames append
  conceal_frames-suc n timestamp r pcm dec made sounds = rw (made, conceal_frames, sounds)

  pts_of-carried :
      (n k start ticks timestamp : ℕ) (r : Reader D A)
      → r.base_timestamp ≡ start
      → start < 2 ^ 32
      → frame_ticks opus r ≡ ticks
      → timestamp ≡ (start + (k + suc n) * ticks) % 2 ^ 32
      → pts_of r (sub32 timestamp ((suc n * frame_ticks opus r) % 2 ^ 32))
        ≡ frame_pts r.clock_rate ticks k
  unfolding pts_of
  pts_of-carried n k start ticks timestamp r base bound same at =
      let elapsed : sub32 (sub32 timestamp ((suc n * frame_ticks opus r) % 2 ^ 32)) r.base_timestamp
          ≡ (k * ticks) % 2 ^ 32 =
        rw (at, same, base) (ticks_back start k (suc n) ticks bound) in
      ap (λ e. e * second / r.clock_rate) elapsed

  pub conceal_frames-pending :
      (n k start ticks timestamp : ℕ) (r : Reader D A)
      → r.base_timestamp ≡ start
      → start < 2 ^ 32
      → frame_ticks opus r ≡ ticks
      → timestamp ≡ (start + (k + n) * ticks) % 2 ^ 32
      → (times (conceal_frames opus n timestamp r).pending
          ≡ times r.pending ++ frames_from r.clock_rate ticks k n)
        × SameStream r (conceal_frames opus n timestamp r)
  unfolding conceal_frames frame_ticks
  conceal_frames-pending zero k start ticks timestamp r base bound same at =
      (sym (append-nil (times r.pending)), (refl, refl, refl, refl, refl, refl, refl))
  conceal_frames-pending (suc n) k start ticks timestamp r base bound same at =
      let (pcm, dec, made, sounds) = conceals r.dec in
      let p = pts_of r (sub32 timestamp ((suc n * frame_ticks opus r) % 2 ^ 32)) in
      let time : p ≡ frame_pts r.clock_rate ticks k =
        pts_of-carried n k start ticks timestamp r base bound same at in
      let rest =
        conceal_frames-pending n (suc k) start ticks timestamp (heard p pcm dec r) base bound same (
          at
          ∙ ap (λ m. (start + m * ticks) % 2 ^ 32) {x = k + suc n} {y = suc k + n} (omega arith)) in
      rw (conceal_frames-suc n timestamp r pcm dec made sounds) (
        rest.0
            ∙ heard-pending p pcm dec r _
            ∙ ap (λ t. times r.pending ++ (t ∷ frames_from r.clock_rate ticks (suc k) n)) time,
        rest.1,
      )

module _ {d a} {D : Type d} {A : Type a} (opus : Opus D A) (works : Decodes opus) (first start : ℕ)
    (bound : start < 2 ^ 32) where
  -- The reader has heard all frames before the k-th; rate, ticks and limit are those that it goes by.
  abbrev pub IsAt : ℕ → ℕ → ℕ → ℕ → Reader D A → Type 0
  IsAt rate ticks limit k r =
      (r.clock_rate ≡ rate)
      × (frame_ticks opus r ≡ ticks)
      × (r.max_conceal ≡ limit)
      × (r.conceals ≡ true)
      × (r.have_seq ≡ true)
      × (r.have_base ≡ true)
      × (r.base_timestamp ≡ start)
      × (r.expected_seq ≡ (first + k) % 2 ^ 16)

  decoded-heard :
      (pkt : Packet) (r : Reader D A) (pcm : A) (dec : D)
      → opus.decode_frame pkt.payload r.dec ≡ some (pcm, dec)
      → opus.is_empty pcm ≡ false
      → decoded opus pkt r ≡ (true, heard (pts_of r pkt.ts) pcm dec r)
  unfolding decoded append
  decoded-heard pkt r pcm dec made sounds = rw (made, decoded, sounds)

  pub decoded-pending :
      (rate ticks limit k : ℕ) (pkt : Packet) (r : Reader D A)
      → IsAt rate ticks limit (suc k) r
      → Carries first start ticks k pkt
      → let done = decoded opus pkt r in
        (done.0 ≡ true)
        × (times done.1.pending ≡ times r.pending ++ (frame_pts rate ticks k ∷ []))
        × IsAt rate ticks limit (suc k) done.1
  unfolding pts_of frame_ticks
  decoded-pending rate ticks limit k pkt r at here =
      let (pcm, dec, made, sounds) = works.decodes pkt.payload r.dec in
      let elapsed : sub32 pkt.ts r.base_timestamp ≡ (k * ticks) % 2 ^ 32 =
        rw (here.1, at.6) (elapsed_ticks start (k * ticks) bound) in
      let time : pts_of r pkt.ts ≡ frame_pts rate ticks k =
        ap₂ (λ e n. e * second / n) elapsed at.0 in
      rw (decoded-heard pkt r pcm dec made sounds) (
        refl,
        heard-pending' (pts_of r pkt.ts) pcm dec r ∙ ap (λ t. times r.pending ++ (t ∷ [])) time,
        at,
      )

  pub handle-started :
      (pkt : Packet) (r : Reader D A)
      → r.have_seq ≡ true
      → r.have_base ≡ true
      → handle opus pkt r ≡ after_gap opus (sub16 pkt.seq r.expected_seq) pkt r
  unfolding handle
  handle-started pkt r on based = ground arith

  pub conceal_gap-frames :
      (gap limit timestamp : ℕ) (r : Reader D A)
      → r.conceals ≡ true
      → r.max_conceal ≡ limit
      → gap ≤ limit
      → conceal_gap opus gap timestamp r ≡ conceal_frames opus gap timestamp r
  unfolding conceal_gap
  conceal_gap-frames gap limit timestamp r on same short = ground arith

  after_some :
      (gap limit : ℕ) (pkt : Packet) (r : Reader D A)
      → suc gap ≤ limit
      → limit ≤ 0x8000
      → after_gap opus (suc gap) pkt r
        ≡ decoded opus pkt (expecting opus pkt (conceal_gap opus (suc gap) pkt.ts r))
  unfolding after_gap
  after_some gap limit pkt r short small = ground arith

  after_gap-concealed :
      (gap limit : ℕ) (pkt : Packet) (r : Reader D A)
      → r.conceals ≡ true
      → r.max_conceal ≡ limit
      → gap ≤ limit
      → limit ≤ 0x8000
      → after_gap opus gap pkt r
        ≡ decoded opus pkt (expecting opus pkt (conceal_frames opus gap pkt.ts r))
  unfolding after_gap conceal_frames
  after_gap-concealed zero limit pkt r on same short small = refl
  after_gap-concealed (suc gap) limit pkt r on same short small =
      let fills = conceal_gap-frames (suc gap) limit pkt.ts r on same short in
      after_some gap limit pkt r short small
      ∙ ap (λ s. decoded opus pkt (expecting opus pkt s)) fills

  -- A gap that is not too long is concealed frame by frame; no gap at all is such a one.
  pub handle-concealed :
      (gap limit : ℕ) (pkt : Packet) (r : Reader D A)
      → r.have_seq ≡ true
      → r.have_base ≡ true
      → r.conceals ≡ true
      → r.max_conceal ≡ limit
      → sub16 pkt.seq r.expected_seq ≡ gap
      → gap ≤ limit
      → limit ≤ 0x8000
      → handle opus pkt r ≡ decoded opus pkt (expecting opus pkt (conceal_frames opus gap pkt.ts r))
  handle-concealed gap limit pkt r on based on_ same at short small =
      handle-started pkt r on based
      ∙ ap (λ g. after_gap opus g pkt r) at
      ∙ after_gap-concealed gap limit pkt r on_ same short small

  pub handle-pending :
      (rate ticks limit k gap : ℕ) (pkt : Packet) (r : Reader D A)
      → IsAt rate ticks limit k r
      → Carries first start ticks (k + gap) pkt
      → gap ≤ limit
      → limit ≤ 0x8000
      → let done = handle opus pkt r in
        (done.0 ≡ true)
        × (times done.1.pending ≡ times r.pending ++ frames_from rate ticks k (suc gap))
        × IsAt rate ticks limit (suc (k + gap)) done.1
  unfolding frame_ticks
  handle-pending rate ticks limit k gap pkt r at here short small =
      let (rated, ticked, limited, on, with_seq, with_base, base, expected) = at in
      let (filled, (c0, c1, c2, c3, c4, c5, c6)) =
        conceal_frames-pending opus works gap k start ticks pkt.ts r base bound ticked here.1 in
      let r' = expecting opus pkt (conceal_frames opus gap pkt.ts r) in
      let (fine, more, still) =
        decoded-pending rate ticks limit (k + gap) pkt r'
          (
            c2 ∙ rated,
            ap (λ c. (opus.frame_duration * c / second) % 2 ^ 32) c2 ∙ ticked,
            c1 ∙ limited,
            c0 ∙ on,
            refl,
            c6 ∙ with_base,
            c5 ∙ base,
            next_expected pkt.seq first (k + gap) here.0,
          )
          here in
      rw
        (handle-concealed gap limit pkt r with_seq with_base on limited
          (distance_expected pkt.seq r.expected_seq first k gap here.0 expected (omega arith)) short
          small)
        (
          fine,
          more
              ∙ ap (λ l. l ++ (frame_pts rate ticks (k + gap) ∷ [])) filled
              ∙ append_assoc (times r.pending) (frames_from r.clock_rate ticks k gap) _
              ∙ ap (λ l. times r.pending ++ l)
                  (ap (λ c. frames_from c ticks k gap ++ (frame_pts rate ticks (k + gap) ∷ []))
                      rated
                    ∙ frames_from-append rate ticks k gap 1
                    ∙ frames_at rate ticks {k = k} {n = gap + 1} {m = suc gap} refl (omega arith)),
          still,
        )
