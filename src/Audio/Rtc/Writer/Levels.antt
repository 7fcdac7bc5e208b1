-- ===== src/Audio/Rtc/Writer/Levels.antt =====
-- audio/rtc/writer.go: enqueueWithLevels and audioLevel, the level that each packet gets.
use getstream_go_webrtc.Base.{
  ℕ, zero, suc, ◌+◌, ◌-◌, ◌*◌, ◌/◌, ◌≤◌, ◌<◌, ◌≡◌, refl, ap, ap₂, sym, ◌∙◌, true, false, Option,
  none, some, List, [], ◌∷◌, ◌++◌, map, length, get_elem?, append_assoc, length-append, min, max,
  arith, ltb, if◌then◌else◌, Bool-cases, inl, inr,
}
use getstream_go_webrtc.Base.Int.{ℤ, pos, negsuc, pos_part}
use getstream_go_webrtc.Audio.Pcm.{Pcm, len, slice, second}
use getstream_go_webrtc.Audio.Chunk.{chunk_at, chunks_from, chunks}
use getstream_go_webrtc.Audio.Chunk.Cover.{chunk_at-unpadded}
use getstream_go_webrtc.Audio.Rtc.Writer.{
  Opus, QueuedFrame, clamped, level_at, leveled, levels_of, silence_level,
}

-- The level of RFC 6464: from 0, the loudest, to 127, which is also that of silence
unfoldable pub rfc_level : Option ℤ → ℕ
rfc_level none = 127
rfc_level (some z) = min 127 (pos_part z)

rfc_level-clamped : (o : Option ℤ) → rfc_level o ≡ clamped o
unfolding rfc_level
rfc_level-clamped none = refl
rfc_level-clamped (some (pos n)) = ground arith
rfc_level-clamped (some (negsuc n)) = refl

-- Each packet has the level of the next stretch of so many frames, from frame `at` on; the last stretch
-- counts for all packets that are left.
unfoldable pub with_stretches : (Pcm → Option ℤ) → ℕ → Pcm → ℕ → List (List ℕ) → List QueuedFrame
with_stretches loudness frames src at [] = []
with_stretches loudness frames src at (p ∷ packets) =
    record { packet = p; level = rfc_level (loudness (slice at (min (at + frames) (len src)) src)) }
    ∷ with_stretches loudness frames src (if ltb (at + frames) (len src) then at + frames else at)
        packets

-- The levels from one on, each for a packet, the last one for the rest
assigned : ℕ → List ℕ → List (List ℕ) → List QueuedFrame
assigned level later [] = []
assigned level [] (p ∷ packets) = record { packet = p; level = level } ∷ assigned level [] packets
assigned level (next ∷ later) (p ∷ packets) =
    record { packet = p; level = level } ∷ assigned next later packets

get_elem?-middle :
    (before : List ℕ) (x : ℕ) (later : List ℕ)
    → get_elem? (before ++ (x ∷ later)) (length before) ≡ some x
get_elem?-middle [] x later = refl
get_elem?-middle (b ∷ before) x later = get_elem?-middle before x later

level_at-middle :
    (before : List ℕ) (x : ℕ) (later : List ℕ) (i : ℕ)
    → min i (length (before ++ (x ∷ later)) - 1) ≡ length before
    → level_at (before ++ (x ∷ later)) i ≡ x
level_at-middle before x later i here =
    ap
      (λ k. elim (get_elem? (before ++ (x ∷ later)) k) [
        | none ↦ silence_level
        | some level ↦ level
      ])
      here
    ∙ ap (λ o. elim o [ none ↦ silence_level | some level ↦ level ])
        (get_elem?-middle before x later)

leveled-last :
    (before : List ℕ) (x i : ℕ) (packets : List (List ℕ))
    → length before ≤ i
    → leveled (before ++ (x ∷ [])) i packets ≡ assigned x [] packets
unfolding leveled assigned
leveled-last before x i [] h = refl
leveled-last before x i (p ∷ packets) h =
    ap₂ (λ l q. record { packet = p; level = l } ∷ q)
      (level_at-middle before x [] i (omega (arith, h, length-append before (x ∷ []))))
      (leveled-last before x (suc i) packets (omega (arith, h)))

leveled-assigned :
    (before : List ℕ) (x : ℕ) (later : List ℕ) (i : ℕ) (packets : List (List ℕ))
    → i ≡ length before
    → leveled (before ++ (x ∷ later)) i packets ≡ assigned x later packets
unfolding leveled assigned
leveled-assigned before x later i [] e = refl
leveled-assigned before x [] i (p ∷ packets) e =
    leveled-last before x i (p ∷ packets) (omega (arith, e))
leveled-assigned before x (y ∷ later) i (p ∷ packets) e =
    ap₂ (λ l q. record { packet = p; level = l } ∷ q)
      (level_at-middle before x (y ∷ later) i
        (omega (arith, e, length-append before (x ∷ y ∷ later))))
      (ap (λ ls. leveled ls (suc i) packets) (sym (append_assoc before (x ∷ []) (y ∷ later)))
        ∙ leveled-assigned (before ++ (x ∷ [])) y later (suc i) packets
            (omega (arith, e, length-append before (x ∷ []))))

module _ (loudness : Pcm → Option ℤ) (frames : ℕ) (src : Pcm) (some_frame : 0 < frames) where
  abbrev level_of : Pcm → ℕ
  level_of chunk = clamped (loudness chunk)

  abbrev later_levels : ℕ → ℕ → List ℕ
  later_levels fuel at = map level_of (chunks_from fuel (at + frames) frames frames false src)

  level_of-stretch :
      (at : ℕ)
      → level_of (chunk_at at frames false src)
        ≡ rfc_level (loudness (slice at (min (at + frames) (len src)) src))
  level_of-stretch at = ap level_of (chunk_at-unpadded at frames src) ∙ sym (rfc_level-clamped _)

  later-over : (fuel at : ℕ) → ltb (at + frames) (len src) ≡ false → later_levels fuel at ≡ []
  unfolding chunks_from
  later-over zero at over = refl
  later-over (suc fuel) at over =
      ap
        (λ b. map level_of (
          if b
          then chunk_at (at + frames) frames false src
            ∷ chunks_from fuel (at + frames + frames) frames frames false src
          else []))
        over

  later-more :
      (fuel at : ℕ)
      → ltb (at + frames) (len src) ≡ true
      → later_levels (suc fuel) at
        ≡ level_of (chunk_at (at + frames) frames false src) ∷ later_levels fuel (at + frames)
  unfolding chunks_from
  later-more fuel at more =
      ap
        (λ b. map level_of (
          if b
          then chunk_at (at + frames) frames false src
            ∷ chunks_from fuel (at + frames + frames) frames frames false src
          else []))
        more

  assigned-with_stretches :
      (fuel at : ℕ) (packets : List (List ℕ))
      → len src ≤ at + frames + fuel
      → assigned (level_of (chunk_at at frames false src)) (later_levels fuel at) packets
        ≡ with_stretches loudness frames src at packets
  unfolding assigned with_stretches
  assigned-with_stretches fuel at [] reach = refl
  assigned-with_stretches fuel at (p ∷ packets) reach =
      let here : ℕ = level_of (chunk_at at frames false src) in
      let all : List (List ℕ) = p ∷ packets in
      elim (Bool-cases (ltb (at + frames) (len src))) [
        | inr over ↦
            ap (λ l. assigned here l all) (later-over fuel at over)
            ∙ ap₂ (λ level q. record { packet = p; level = level } ∷ q) (level_of-stretch at)
                (ap (λ l. assigned here l packets) (sym (later-over fuel at over))
                  ∙ assigned-with_stretches fuel at packets reach
                  ∙ ap
                      (λ b.
                        with_stretches loudness frames src (if b then at + frames else at) packets)
                      (sym over))
        | inl more ↦
            elim fuel
                as (λ f.
                  len src ≤ at + frames + f
                  → assigned here (later_levels f at) all
                    ≡ with_stretches loudness frames src at all) [
                      | zero ↦ λ reach'. absurd (ground (arith, more, reach'))
                      | suc f ↦ λ reach'.
                          ap (λ l. assigned here l all) (later-more f at more)
                          ∙ ap₂ (λ level q. record { packet = p; level = level } ∷ q)
                              (level_of-stretch at)
                              (assigned-with_stretches f (at + frames) packets
                                  (omega (arith, reach', some_frame))
                                ∙ ap
                                    (λ b.
                                      with_stretches loudness frames src
                                        (if b then at + frames else at) packets)
                                    (sym more))
                    ]
              reach
      ]

  chunk_levels :
      (n : ℕ)
      → len src ≡ suc n
      → map level_of (chunks frames 0 false src)
        ≡ level_of (chunk_at 0 frames false src) ∷ later_levels n 0
  unfolding chunks chunks_from
  chunk_levels n long =
      ap
        (λ b.
          map level_of
            (if b then [] else chunks_from (len src) 0 frames (max 1 (frames - 0)) false src))
        {y = false} (ground (arith, some_frame))
      ∙ ap₂ (λ fuel step. map level_of (chunks_from fuel 0 frames step false src)) long
          (let e : max 1 (frames - 0) ≡ frames = omega (arith, some_frame) in e)
      ∙ ap
          (λ b. map level_of (
            if b
            then chunk_at 0 frames false src ∷ chunks_from n (0 + frames) frames frames false src
            else []))
          {y = true} (ground (arith, long))

  leveled-chunks :
      (packets : List (List ℕ))
      → 0 < len src
      → leveled (map level_of (chunks frames 0 false src)) 0 packets
        ≡ with_stretches loudness frames src 0 packets
  leveled-chunks packets some_audio =
      let n : ℕ = len src - 1 in
      ap (λ levels. leveled levels 0 packets) (chunk_levels n (omega (arith, some_audio)))
      ∙ leveled-assigned [] (level_of (chunk_at 0 frames false src)) (later_levels n 0) 0 packets
          refl
      ∙ assigned-with_stretches n 0 packets (omega (arith, some_frame))

-- The levels that the writer finds are those of the stretches.
pub leveled-with_stretches {e} :
    {E : Type e} (opus : Opus E) (frame_duration : ℕ) (src : Pcm) (packets : List (List ℕ))
    → let frames = frame_duration * src.sample_rate / second in
      0 < frames
      → 0 < len src
      → leveled (levels_of opus frame_duration src) 0 packets
        ≡ with_stretches opus.loudness frames src 0 packets
unfolding levels_of
leveled-with_stretches opus frame_duration src packets some_frame some_audio =
    let frames : ℕ = frame_duration * src.sample_rate / second in
    ap
      (λ b.
        leveled
          (if b
            then []
            else map (λ chunk. clamped (opus.loudness chunk)) (chunks frames 0 false src))
          0 packets)
      {y = false} (ground (arith, some_frame))
    ∙ leveled-chunks opus.loudness frames src some_frame packets some_audio
