-- ===== src/Audio/Rtc/Reader/Continuous.antt =====
-- What a reader makes of a stream with lost packets, and of one with a malformed packet.
use getstream_go_webrtc.Base.{
  ℕ, suc, ◌+◌, ◌*◌, ◌%◌, ◌^◌, ◌≤◌, ◌<◌, ◌≡◌, refl, ap, sym, ◌∙◌, true, false, none, some, List, [],
  ◌∷◌, ◌++◌, append_assoc, append-nil, arith,
}
use getstream_go_webrtc.Red.Packet.{Packet, sub16, sub32}
use getstream_go_webrtc.Audio.Rtc.Reader.{
  Opus, Reader, pts_of, frame_ticks, conceal_gap, conceal_frames, expecting, decoded, after_gap,
  handle, handle_all, append,
}
use getstream_go_webrtc.Audio.Rtc.Reader.Gaps.{Decodes, IsAt, handle-pending, decoded-pending}
use getstream_go_webrtc.Audio.Rtc.Reader.Frames.{
  Carries, times, frame_pts, frames_from, frames_from-append, starts_from, frames_from-starts_from,
}

-- Packets of which each is so many frames after the one before it, the first after the k-th
abbrev pub Arrives : ℕ → ℕ → ℕ → ℕ → ℕ → List Packet → List ℕ → Type 0
Arrives first start ticks limit k [] [] = Unit
Arrives first start ticks limit k (pkt ∷ pkts) (gap ∷ gaps) =
    Carries first start ticks (k + gap) pkt
    × (gap ≤ limit)
    × Arrives first start ticks limit (suc (k + gap)) pkts gaps
Arrives first start ticks limit k _ _ = ⊥

-- How many frames there are in all, the lost ones included
abbrev pub frames_in : List ℕ → ℕ
frames_in [] = 0
frames_in (gap ∷ gaps) = suc gap + frames_in gaps

module _ {d a} {D : Type d} {A : Type a} (opus : Opus D A) (works : Decodes opus) (first start : ℕ)
    (bound : start < 2 ^ 32) (rate ticks limit : ℕ) (small : limit ≤ 0x8000) where
  handle_all-pending :
      (k : ℕ) (pkts : List Packet) (gaps : List ℕ) (r : Reader D A)
      → IsAt opus works first start bound rate ticks limit k r
      → Arrives first start ticks limit k pkts gaps
      → let done = handle_all opus pkts r in
        (done.0 ≡ true)
        × (times done.1.pending ≡ times r.pending ++ frames_from rate ticks k (frames_in gaps))
  unfolding handle_all
  handle_all-pending k [] [] r at arrive = (refl, sym (append-nil (times r.pending)))
  handle_all-pending k (pkt ∷ pkts) (gap ∷ gaps) r at (here, short, later) =
      let (fine, more, still) =
        handle-pending opus works first start bound rate ticks limit k gap pkt r at here short
          small in
      let (fine', more') =
        handle_all-pending (suc (k + gap)) pkts gaps (handle opus pkt r).1 still later in
      rw fine (
        fine',
        more'
            ∙ ap (λ l. l ++ frames_from rate ticks (suc (k + gap)) (frames_in gaps)) more
            ∙ append_assoc (times r.pending) (frames_from rate ticks k (suc gap)) _
            ∙ ap (λ l. times r.pending ++ l)
                (ap
                    (λ j.
                      frames_from rate ticks k (suc gap)
                      ++ frames_from rate ticks j (frames_in gaps))
                    {x = suc (k + gap)} {y = k + suc gap} (omega arith)
                  ∙ frames_from-append rate ticks k (suc gap) (frames_in gaps)),
      )
  handle_all-pending k [] (gap ∷ gaps) r at arrive = elim arrive [ ]
  handle_all-pending k (pkt ∷ pkts) [] r at arrive = elim arrive [ ]

module _ {d a} {D : Type d} {A : Type a} (opus : Opus D A) (works : Decodes opus) where
  handle-fresh :
      (pkt : Packet) (r : Reader D A)
      → r.have_seq ≡ false
      → r.have_base ≡ false
      → handle opus pkt r
        ≡ decoded opus pkt
            (expecting opus pkt (record r { base_timestamp = pkt.ts; have_base = true }))
  unfolding handle
  handle-fresh pkt r off unbased = ground arith

  all-pending :
      (r : Reader D A) (pkt : Packet) (pkts : List Packet) (gaps : List ℕ)
      → r.conceals ≡ true
      → r.have_seq ≡ false
      → r.have_base ≡ false
      → r.pending ≡ []
      → r.max_conceal ≤ 0x8000
      → pkt.seq < 2 ^ 16
      → pkt.ts < 2 ^ 32
      → Arrives pkt.seq pkt.ts (frame_ticks opus r) r.max_conceal 1 pkts gaps
      → let done = handle_all opus (pkt ∷ pkts) r in
        (done.0 ≡ true)
        × (times done.1.pending
            ≡ frames_from r.clock_rate (frame_ticks opus r) 0 (suc (frames_in gaps)))
  unfolding handle_all frame_ticks
  all-pending r pkt pkts gaps on off unbased none_yet small seq_bound ts_bound arrive =
      let r' = expecting opus pkt (record r { base_timestamp = pkt.ts; have_base = true }) in
      let ticks = frame_ticks opus r in
      let (fine, more, at) =
        decoded-pending opus works pkt.seq pkt.ts ts_bound r.clock_rate ticks r.max_conceal 0 pkt r'
          (refl, refl, refl, on, refl, refl, refl, refl) (omega arith, omega arith) in
      let (fine', more') =
        handle_all-pending opus works pkt.seq pkt.ts ts_bound r.clock_rate ticks r.max_conceal small
          1 pkts gaps (decoded opus pkt r').1 at arrive in
      rw (handle-fresh pkt r off unbased, fine)
        (
          fine',
          more'
              ∙ ap (λ l. l ++ frames_from r.clock_rate ticks 1 (frames_in gaps))
                  (more ∙ ap (λ l. times l ++ (frame_pts r.clock_rate ticks 0 ∷ [])) none_yet),
        )

  -- A new reader of a stream of which packets are lost, never more in a row than it conceals, which is
  -- 32768 frames at most, and whose decoder takes every frame, has one buffer for each frame from the
  -- first packet's to the last's, the lost ones included, in order and each at the time at which it
  -- begins, counted from the first packet; the stream is shorter than 2 ^ 32 ticks of its clock.
  pub no_frame_missing :
      (r : Reader D A) (pkt : Packet) (pkts : List Packet) (gaps : List ℕ)
      → r.conceals ≡ true
      → r.have_seq ≡ false
      → r.have_base ≡ false
      → r.pending ≡ []
      → r.max_conceal ≤ 0x8000
      → pkt.seq < 2 ^ 16
      → pkt.ts < 2 ^ 32
      → Arrives pkt.seq pkt.ts (frame_ticks opus r) r.max_conceal 1 pkts gaps
      → frames_in gaps * frame_ticks opus r < 2 ^ 32
      → let done = handle_all opus (pkt ∷ pkts) r in
        (done.0 ≡ true)
        × (times done.1.pending
            ≡ starts_from r.clock_rate (frame_ticks opus r) 0 (suc (frames_in gaps)))
  no_frame_missing r pkt pkts gaps on off unbased none_yet small seq_bound ts_bound arrive brief =
      let (fine, heard) =
        all-pending r pkt pkts gaps on off unbased none_yet small seq_bound ts_bound arrive in
      let n = frames_in gaps in
      (
        fine,
        heard
            ∙ frames_from-starts_from r.clock_rate (frame_ticks opus r) 0 n
                (let e : 0 + n ≡ n = omega arith in rw e brief),
      )

back :
    (ts before ticks : ℕ)
    → before < 2 ^ 32
    → ts ≡ (before + ticks) % 2 ^ 32
    → sub32 ts (ticks % 2 ^ 32) ≡ before
back ts before ticks bound at = omega arith

module _ {d a} {D : Type d} {A : Type a} (opus : Opus D A) where
  handle-next :
      (pkt : Packet) (r : Reader D A)
      → r.have_seq ≡ true
      → r.have_base ≡ true
      → sub16 pkt.seq r.expected_seq ≡ 0
      → handle opus pkt r ≡ decoded opus pkt (expecting opus pkt r)
  unfolding handle after_gap
  handle-next pkt r on based next = ground arith

  conceal_gap-one :
      (timestamp : ℕ) (r : Reader D A)
      → r.conceals ≡ true
      → 1 ≤ r.max_conceal
      → conceal_gap opus 1 timestamp r ≡ conceal_frames opus 1 timestamp r
  unfolding conceal_gap
  conceal_gap-one timestamp r on limit = ground arith

  conceal-one :
      (timestamp : ℕ) (r : Reader D A) (pcm : A) (dec : D)
      → r.conceals ≡ true
      → 1 ≤ r.max_conceal
      → opus.conceal_frame r.dec ≡ some (pcm, dec)
      → opus.is_empty pcm ≡ false
      → (conceal_gap opus 1 timestamp r).pending
        ≡ r.pending
          ++ (record { pts = pts_of r (sub32 timestamp (frame_ticks opus r % 2 ^ 32)); audio = pcm }
              ∷ [])
  unfolding conceal_frames append
  conceal-one timestamp r pcm dec on limit made sounds =
      ap (λ s. s.pending) (conceal_gap-one timestamp r on limit)
      ∙ rw (made, conceal_frames, sounds)
          (ap
            (λ t.
              r.pending
              ++ (record { pts = pts_of r (sub32 timestamp (t % 2 ^ 32)); audio = pcm } ∷ []))
            {x = 1 * frame_ticks opus r} {y = frame_ticks opus r} (omega arith))

  decoded-bad :
      (pkt : Packet) (r : Reader D A)
      → r.conceals ≡ true
      → opus.decode_frame pkt.payload r.dec ≡ none
      → decoded opus pkt r ≡ (true, conceal_gap opus 1 pkt.ts r)
  unfolding decoded
  decoded-bad pkt r on bad = rw (bad, decoded, on)

  -- A malformed frame that comes in its turn is concealed by audio with the presentation time of the frame
  -- before it, not its own.
  pub malformed_early :
      (pkt : Packet) (before : ℕ) (r : Reader D A) (pcm : A) (dec : D)
      → r.have_seq ≡ true
      → r.have_base ≡ true
      → r.conceals ≡ true
      → 1 ≤ r.max_conceal
      → sub16 pkt.seq r.expected_seq ≡ 0
      → before < 2 ^ 32
      → pkt.ts ≡ (before + frame_ticks opus r) % 2 ^ 32
      → opus.decode_frame pkt.payload r.dec ≡ none
      → opus.conceal_frame r.dec ≡ some (pcm, dec)
      → opus.is_empty pcm ≡ false
      → (handle opus pkt r).1.pending
        ≡ r.pending ++ (record { pts = pts_of r before; audio = pcm } ∷ [])
  unfolding frame_ticks pts_of
  malformed_early pkt before r pcm dec on based conceals limit next bound at bad made sounds =
      let r' = expecting opus pkt r in
      ap (λ done. done.1.pending)
        (handle-next pkt r on based next ∙ decoded-bad pkt r' conceals bad)
      ∙ conceal-one pkt.ts r' pcm dec conceals limit made sounds
      ∙ ap (λ t. r.pending ++ (record { pts = pts_of r t; audio = pcm } ∷ []))
          {x = sub32 pkt.ts (frame_ticks opus r % 2 ^ 32)} {y = before}
          (back pkt.ts before (frame_ticks opus r) bound at)
