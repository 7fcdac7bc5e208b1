-- ===== src/Audio/Rtc/Writer/Queue.antt =====
-- What a track hears of what was written.
use getstream_go_webrtc.Base.{
  ℕ, zero, suc, ◌-◌, ◌*◌, ◌/◌, ◌≤◌, ◌<◌, ◌≡◌, refl, ap, sym, ◌∙◌, true, false, List, [], ◌∷◌, ◌++◌,
  map, some, length, take, drop, replicate, drop-nil, arith, ltb, ltb→lt, ltb→le, Bool-cases, inl,
  inr,
}
use getstream_go_webrtc.Audio.Pcm.{Pcm, is_empty, len, second}
use getstream_go_webrtc.Audio.Rtc.Writer.Levels.{with_stretches, leveled-with_stretches}
use getstream_go_webrtc.Audio.Rtc.Writer.{
  Opus, QueuedFrame, TrackWriter, Next, leveled, levels_of, pushed, write, flush,
  enqueue_with_levels, trimmed, trim, enqueue, popped, next_sample, silence_level,
}

-- `trim` keeps the newest.
trimmed-drop : (limit : ℕ) (q : List QueuedFrame) → trimmed limit q ≡ drop (length q - limit) q
unfolding trimmed
trimmed-drop limit [] = sym (drop-nil (0 - limit))
trimmed-drop limit (f ∷ q) = elim (Bool-cases (ltb limit (length (f ∷ q)))) [
  | inl long ↦
      let less = ltb→lt limit (length (f ∷ q)) long in
      rw long (trimmed-drop limit q)
      ∙ ap (λ n. drop n (f ∷ q)) {x = suc (length q - limit)} {y = length (f ∷ q) - limit}
          (omega arith)
  | inr short ↦
      let fits = ltb→le limit (length (f ∷ q)) short in
      rw short (ap (λ n. drop n (f ∷ q)) {x = 0} {y = length (f ∷ q) - limit} (omega arith))
]

-- What some samples in a row are, with the level that is reported for each
unfoldable pub played {e} : {E : Type e} → ℕ → TrackWriter E → List (Next × ℕ)
unfolding next_sample
played zero w = []
played (suc n) w = let first = next_sample false w in (first.0, first.1.level) ∷ played n first.1

abbrev pub heard : QueuedFrame → Next × ℕ
heard f = (Next.sample f.packet, f.level)

abbrev pub silent {e} : {E : Type e} → TrackWriter E → Next × ℕ
silent w = (Next.sample w.silence, silence_level)

next_sample-popped {e} :
    {E : Type e} (q : List QueuedFrame) (w : TrackWriter E)
    → w.closed ≡ false
    → w.queue ≡ q
    → next_sample false w ≡ popped q w
unfolding next_sample
next_sample-popped q w open_ queued = simp (open_, queued)

played-queue {e} :
    {E : Type e} (n m : ℕ) (q : List QueuedFrame) (w : TrackWriter E)
    → n ≤ m
    → w.closed ≡ false
    → w.queue ≡ q
    → played n w ≡ take n (map heard q ++ replicate m (silent w))
unfolding played popped
played-queue zero m q w few open_ queued = refl
played-queue (suc n) zero q w few open_ queued = absurd (omega arith)
played-queue (suc n) (suc m) [] w few open_ queued =
    let w' = record w { level = silence_level } in
    rw (next_sample-popped [] w open_ queued)
      (ap (λ l. silent w ∷ l) (played-queue n m [] w' (omega arith) open_ queued))
played-queue (suc n) (suc m) (f ∷ q) w few open_ queued =
    let w' = record w { queue = q; level = f.level } in
    rw (next_sample-popped (f ∷ q) w open_ queued)
      (ap (λ l. heard f ∷ l) (played-queue n (suc m) q w' (omega arith) open_ refl))

-- Both ways of queueing end alike.
pushed-played {e} :
    {E : Type e} (n : ℕ) (frames : List QueuedFrame) (w : TrackWriter E)
    → w.closed ≡ false
    → let all : List QueuedFrame = w.queue ++ frames in
      played n (trim (pushed frames w))
      ≡ take n (map heard (drop (length all - w.max_frames) all) ++ replicate n (silent w))
unfolding trim
pushed-played n frames w open_ =
    let all : List QueuedFrame = w.queue ++ frames in
    played-queue n n (drop (length all - w.max_frames) all) (trim (pushed frames w)) (omega arith)
      open_ (trimmed-drop w.max_frames all)

write-encoded {e} :
    {E : Type e} (opus : Opus E) (pcm : Pcm) (packets : List (List ℕ)) (w : TrackWriter E)
    → w.closed ≡ false
    → is_empty pcm ≡ false
    → (opus.encode_pcm pcm w.enc).0 ≡ some packets
    → write opus pcm w ≡ (
      true,
      enqueue_with_levels opus packets pcm (record w { enc = (opus.encode_pcm pcm w.enc).1 }),
    )
unfolding write
write-encoded opus pcm packets w open_ sounds made = ground arith

flush-encoded {e} :
    {E : Type e} (opus : Opus E) (packets : List (List ℕ)) (w : TrackWriter E)
    → w.closed ≡ false
    → (opus.flush w.enc).0 ≡ some packets
    → flush opus w ≡ (true, enqueue packets w.level (record w { enc = (opus.flush w.enc).1 }))
unfolding flush
flush-encoded opus packets w open_ made = ground arith

written_heard {e} :
    {E : Type e} (opus : Opus E) (n : ℕ) (pcm : Pcm) (packets : List (List ℕ)) (w : TrackWriter E)
    → w.closed ≡ false
    → is_empty pcm ≡ false
    → (opus.encode_pcm pcm w.enc).0 ≡ some packets
    → 0 < length packets
    → let all : List QueuedFrame =
        w.queue ++ leveled (levels_of opus w.frame_duration pcm) 0 packets in
      played n (write opus pcm w).1
      ≡ take n (map heard (drop (length all - w.max_frames) all) ++ replicate n (silent w))
unfolding enqueue_with_levels
written_heard opus n pcm [] w open_ sounds made some_packet = absurd (omega arith)
written_heard opus n pcm (p ∷ packets) w open_ sounds made some_packet =
    ap (λ done. played n done.1) (write-encoded opus pcm (p ∷ packets) w open_ sounds made)
    ∙ pushed-played n (leveled (levels_of opus w.frame_duration pcm) 0 (p ∷ packets))
        (record w { enc = (opus.encode_pcm pcm w.enc).1 }) open_

-- After Write of audio that the encoder makes packets of, an open writer keeps the newest packets, those
-- queued before included, as many as its buffer holds; a track that asks for samples hears these in order
-- and then silence. The audio is cut into stretches of a packet's length, and each of its packets has the
-- RFC 6464 level of the next stretch, the last stretch counting for all packets that are left; the audio
-- has at least one frame, and a packet lasts at least one.
pub newest_heard {e} :
    {E : Type e} (opus : Opus E) (n : ℕ) (pcm : Pcm) (packets : List (List ℕ)) (w : TrackWriter E)
    → w.closed ≡ false
    → is_empty pcm ≡ false
    → (opus.encode_pcm pcm w.enc).0 ≡ some packets
    → 0 < length packets
    → 0 < len pcm
    → 0 < w.frame_duration * pcm.sample_rate / second
    → let frames : ℕ = w.frame_duration * pcm.sample_rate / second in
      let all : List QueuedFrame = w.queue ++ with_stretches opus.loudness frames pcm 0 packets in
      played n (write opus pcm w).1
      ≡ take n (map heard (drop (length all - w.max_frames) all) ++ replicate n (silent w))
newest_heard opus n pcm packets w open_ sounds made some_packet some_audio some_frame =
    written_heard opus n pcm packets w open_ sounds made some_packet
    ∙ ap
        (λ frames.
          let all : List QueuedFrame = w.queue ++ frames in
          take n (map heard (drop (length all - w.max_frames) all) ++ replicate n (silent w)))
        (leveled-with_stretches opus w.frame_duration pcm packets some_frame some_audio)

-- `Flush` queues what the encoder held with the level that was reported last.
pub flushed_heard {e} :
    {E : Type e} (opus : Opus E) (n : ℕ) (packets : List (List ℕ)) (w : TrackWriter E)
    → w.closed ≡ false
    → (opus.flush w.enc).0 ≡ some packets
    → let all : List QueuedFrame =
        w.queue ++ map (λ p. record { packet = p; level = w.level }) packets in
      played n (flush opus w).1
      ≡ take n (map heard (drop (length all - w.max_frames) all) ++ replicate n (silent w))
unfolding enqueue
flushed_heard opus n packets w open_ made =
    ap (λ done. played n done.1) (flush-encoded opus packets w open_ made)
    ∙ pushed-played n (map (λ p. record { packet = p; level = w.level }) packets)
        (record w { enc = (opus.flush w.enc).1 }) open_
