-- ===== src/Audio/Stream/Conserve.antt =====
-- audio/stream.go: what FromByteSeq yields, collected, is what the bytes give in one piece.
use native.Mathlib.Nat.{le-mul_of_pos_right}
use getstream_go_webrtc.Base.{
  ℕ, ◌-◌, ◌*◌, ◌/◌, ◌%◌, ◌≤◌, ◌<◌, ◌≡◌, refl, sym, ap, ◌∙◌, inl, inr, true, false, none, some, List,
  [], ◌∷◌, ◌++◌, append_assoc, append-nil, arith, ◌==◌, if◌then◌else◌, Bool-cases, length, take,
  drop, replicate, length-append, take-append-drop, length-take,
}
use getstream_go_webrtc.Base.Int.{ℤ}
use getstream_go_webrtc.Base.Result.{Result, ok, err, ◌>>=◌}
use getstream_go_webrtc.Audio.Format.{Format, Error, bytes_per_sample, validate}
use getstream_go_webrtc.Audio.Pcm.{Pcm, empty, from_bytes, append}
use getstream_go_webrtc.Audio.Pcm.Encoding.{from_bytes-valid, take_whole}
use getstream_go_webrtc.Audio.Stream.{
  Aligner, new_aligner, kept, write, padded, flush, ending, yielded, feed, from_byte_seq, zero_pcm,
  collect_from, collect,
}
use getstream_go_webrtc.Audio.Stream.Pieces.{
  validate-none, buffer, append-buffer, append_zero-buffer, is_empty-buffer, is_empty-empty,
  bytes_per_sample-positive,
}
use getstream_go_webrtc.Audio.Stream.Padding.{
  concat, whole-rest, at_least, add-mod_whole, padded-append, length-padded, padded-nil, words_of,
}

module _ (narrow : ℕ → ℤ) (widen : ℤ → ℕ) (resample : Format → ℕ → ℕ → Pcm → Result Error Pcm)
    (f : Format) (r c : ℕ) (valid : validate f r c ≡ none) where
  abbrev w : ℕ
  w = bytes_per_sample f * c

  sample_le : bytes_per_sample f ≤ w
  sample_le = le-mul_of_pos_right (bytes_per_sample f) (validate-none f r c valid).1

  w-positive : 0 < w
  w-positive = omega (arith, sample_le, bytes_per_sample-positive f r c valid)

  -- What has been collected once the samples in some bytes have been.
  unfoldable out_of : List ℕ → Pcm
  out_of [] = zero_pcm
  out_of (b ∷ x) = buffer f r c (b ∷ x)

  append-out_of :
      (x y : List ℕ)
      → length x % w ≡ 0
      → w ≤ length y
      → append narrow widen resample (buffer f r c y) (out_of x) ≡ ok (out_of (x ++ y))
  unfolding out_of
  append-out_of x [] e h = absurd (omega (arith, w-positive))
  append-out_of [] (b ∷ y) e h =
      append_zero-buffer narrow widen resample f r c (b ∷ y) valid (omega (arith, sample_le, h))
  append-out_of (b' ∷ x) (b ∷ y) e h =
      append-buffer narrow widen resample f r c (length (b' ∷ x) / w * c) (b' ∷ x) (b ∷ y) valid
        (words_of (length (b' ∷ x)) (bytes_per_sample f) c e) (omega (arith, sample_le, h))

  read-whole : (y : List ℕ) → length y % w ≡ 0 → from_bytes y f r c ≡ ok (buffer f r c y)
  read-whole y e = from_bytes-valid y f r c valid ∙ ap (λ b. ok (buffer f r c b)) (take_whole y w e)

  out_of-positive : (z : List ℕ) → 0 < length z → out_of z ≡ buffer f r c z
  unfolding out_of
  out_of-positive [] h = absurd (omega arith)
  out_of-positive (b ∷ z) h = refl

  -- A piece of whole frames that is yielded is collected.
  collect-yielded :
      (x y : List ℕ) (later : List (Result Error Pcm))
      → length x % w ≡ 0
      → length y % w ≡ 0
      → 0 < length y
      → collect_from narrow widen resample (out_of x) (yielded (from_bytes y f r c) later)
        ≡ collect_from narrow widen resample (out_of (x ++ y)) later
  unfolding collect_from
  collect-yielded x y later e e' h =
      let room : w ≤ length y = at_least (length y) w e' h in
      let read : from_bytes y f r c ≡ ok (buffer f r c y) = read-whole y e' in
      ap (λ p. collect_from narrow widen resample (out_of x) (yielded p later)) read
      ∙ ap
          (λ b.
            collect_from narrow widen resample (out_of x)
              (if b then later else ok (buffer f r c y) ∷ later))
          (is_empty-buffer f r c y valid (omega (arith, sample_le, room)))
      ∙ ap (λ p. p >>= λ out'. collect_from narrow widen resample out' later)
          (append-out_of x y e room)

  ending-yielded : (p : Result Error Pcm) → ending p ≡ yielded p []
  ending-yielded (ok p) = refl
  ending-yielded (err e) = refl

  abbrev with_buf : List ℕ → Aligner
  with_buf buf = record (new_aligner f r c) { buf = buf }

  -- An empty buffer is passed over.
  yielded-nothing : (later : List (Result Error Pcm)) → yielded (ok (empty f r c)) later ≡ later
  yielded-nothing later =
      ap (λ b. if b then later else ok (empty f r c) ∷ later) (is_empty-empty f r c)

  padded-positive : (b : ℕ) (buf : List ℕ) → 0 < length (padded w (b ∷ buf))
  padded-positive b buf =
      omega (arith, length-append (b ∷ buf) (replicate ((w - length (b ∷ buf) % w) % w) 0))

  collect-flush :
      (x buf : List ℕ)
      → length x % w ≡ 0
      → collect_from narrow widen resample (out_of x) (ending (flush (with_buf buf)).0)
        ≡ ok (out_of (x ++ padded w buf))
  unfolding flush collect_from
  collect-flush x [] e =
      ap (collect_from narrow widen resample (out_of x))
        (ending-yielded (ok (empty f r c)) ∙ yielded-nothing [])
      ∙ ap (λ l. ok (out_of l))
          (sym (append-nil x) ∙ ap (λ l. x ++ l) (sym (padded-nil w w-positive)))
  collect-flush x (b ∷ buf) e =
      ap
        (λ t. collect_from narrow widen resample (out_of x) (
          ending
            (if◌then◌else◌ {A = Result Error Pcm × Aligner} t (ok (empty f r c), with_buf (b ∷ buf))
              (from_bytes (padded w (b ∷ buf)) f r c, with_buf [])).0))
        {x = length (b ∷ buf) == 0} {y = false} (ground arith)
      ∙ ap (collect_from narrow widen resample (out_of x))
          (ending-yielded (from_bytes (padded w (b ∷ buf)) f r c))
      ∙ collect-yielded x (padded w (b ∷ buf)) [] e (length-padded w (b ∷ buf) w-positive)
          (padded-positive b buf)

  length-whole :
      (buf : List ℕ) → length (take (length buf - length buf % w) buf) ≡ length buf - length buf % w
  length-whole buf = omega (arith, length-take (length buf - length buf % w) buf)

  write-short :
      (piece buf : List ℕ)
      → length (buf ++ piece) - length (buf ++ piece) % w ≡ 0
      → write piece (with_buf buf) ≡ (ok (empty f r c), with_buf (buf ++ piece))
  unfolding write
  write-short piece buf e =
      let bytes : List ℕ = buf ++ piece in
      let whole : ℕ = length bytes - length bytes % w in
      ap
        (λ t.
          if t
          then (ok (empty f r c), with_buf bytes)
          else kept bytes whole (with_buf buf) (from_bytes (take whole bytes) f r c))
        {x = whole == 0} {y = true} (ground (arith, e))

  write-whole :
      (piece buf : List ℕ)
      → let bytes : List ℕ = buf ++ piece in
        let whole : ℕ = length bytes - length bytes % w in
        0 < whole
        → write piece (with_buf buf)
          ≡ (from_bytes (take whole bytes) f r c, with_buf (drop whole bytes))
  unfolding write
  write-whole piece buf h =
      let bytes : List ℕ = buf ++ piece in
      let whole : ℕ = length bytes - length bytes % w in
      let read : from_bytes (take whole bytes) f r c ≡ ok (buffer f r c (take whole bytes)) =
        read-whole (take whole bytes)
          (ap (λ k. k % w) (length-whole bytes) ∙ whole-rest (length bytes) w w-positive) in
      ap
        (λ t.
          if t
          then (ok (empty f r c), with_buf bytes)
          else kept bytes whole (with_buf buf) (from_bytes (take whole bytes) f r c))
        {x = whole == 0} {y = false} (ground (arith, h))
      ∙ ap (kept bytes whole (with_buf buf)) read
      ∙ ap (λ p. (p, with_buf (drop whole bytes))) (sym read)

  collect-feed :
      (pieces : List (List ℕ)) (x buf : List ℕ)
      → length x % w ≡ 0
      → collect_from narrow widen resample (out_of x) (feed pieces (with_buf buf))
        ≡ ok (out_of (x ++ padded w (buf ++ concat pieces)))
  unfolding feed concat
  collect-feed [] x buf e =
      collect-flush x buf e ∙ ap (λ l. ok (out_of (x ++ padded w l))) (sym (append-nil buf))
  collect-feed (piece ∷ pieces) x buf e =
      let bytes : List ℕ = buf ++ piece in
      let whole : ℕ = length bytes - length bytes % w in
      let rest : List ℕ = drop whole bytes in
      elim (Bool-cases (whole == 0)) [
        | inl short ↦
            ap (λ t. collect_from narrow widen resample (out_of x) (yielded t.0 (feed pieces t.1)))
              (write-short piece buf (ground (arith, short)))
            ∙ ap (collect_from narrow widen resample (out_of x))
                (yielded-nothing (feed pieces (with_buf bytes)))
            ∙ collect-feed pieces x bytes e
            ∙ ap (λ l. ok (out_of (x ++ padded w l))) (append_assoc buf piece (concat pieces))
        | inr more ↦
            let front : List ℕ = take whole bytes in
            let front_whole : length front % w ≡ 0 =
              ap (λ k. k % w) (length-whole bytes) ∙ whole-rest (length bytes) w w-positive in
            ap (λ t. collect_from narrow widen resample (out_of x) (yielded t.0 (feed pieces t.1)))
              (write-whole piece buf (ground (arith, more)))
            ∙ collect-yielded x front (feed pieces (with_buf rest)) e front_whole
                (ground (arith, more, length-whole bytes))
            ∙ collect-feed pieces (x ++ front) rest (
                ap (λ k. k % w) (length-append x front)
                ∙ add-mod_whole (length x) (length front) w e
                ∙ front_whole)
            ∙ ap (λ l. ok (out_of l))
                (append_assoc x front (padded w (rest ++ concat pieces))
                  ∙ ap (λ l. x ++ l)
                      (sym (padded-append w front (rest ++ concat pieces) front_whole)
                        ∙ ap (padded w) (
                            sym (append_assoc front rest (concat pieces))
                            ∙ ap (λ l. l ++ concat pieces) (take-append-drop whole bytes)
                            ∙ append_assoc buf piece (concat pieces))))
      ]

  -- However the bytes of a stream are cut into pieces, what FromByteSeq yields is, collected, what
  -- FromBytes makes of them in one piece, padded with silence to whole frames; the parameters are valid
  -- and there is at least one byte.
  pub collect-from_byte_seq :
      (pieces : List (List ℕ))
      → 0 < length (concat pieces)
      → collect narrow widen resample (from_byte_seq pieces f r c)
        ≡ from_bytes (padded w (concat pieces)) f r c
  unfolding collect from_byte_seq out_of
  collect-from_byte_seq pieces h =
      ap
        (λ t.
          collect_from narrow widen resample zero_pcm
            (elim t [ some e ↦ err e ∷ [] | none ↦ feed pieces (new_aligner f r c) ]))
        valid
      ∙ collect-feed pieces [] [] (omega arith)
      ∙ ap ok (
          out_of-positive (padded w (concat pieces)) (
            omega (
              arith,
              h,
              length-append (concat pieces) (replicate ((w - length (concat pieces) % w) % w) 0),
            )))
      ∙ sym (read-whole (padded w (concat pieces)) (length-padded w (concat pieces) w-positive))
