-- ===== src/Audio/Stream/Pieces.antt =====
-- audio/pcm.go, as stream.go uses it: buffers read from bytes and appended to each other.
use getstream_go_webrtc.Base.{
  ℕ, zero, suc, ◌*◌, ◌≤◌, ◌<◌, ◌≡◌, refl, sym, ap, ◌∙◌, true, false, none, List, [], ◌∷◌, ◌++◌,
  arith, length,
}
use getstream_go_webrtc.Base.Int.{ℤ}
use getstream_go_webrtc.Base.Result.{Result, ok}
use getstream_go_webrtc.Audio.Words.{le16, le32, to_int16, read_s16, read_f32}
use getstream_go_webrtc.Audio.Format.{Format, s16, f32, unknown, Error, bytes_per_sample, validate}
use getstream_go_webrtc.Audio.Pcm.{
  Pcm, empty, is_empty, append, to_format, to_int16_format, to_float32_format, with_s16, with_f32,
  read_samples,
}
use getstream_go_webrtc.Audio.Pcm.Encoding.{unknown-invalid}
use getstream_go_webrtc.Audio.Stream.{zero_pcm}

-- Rates and counts that are valid are positive.
pub validate-none : (f : Format) (r c : ℕ) → validate f r c ≡ none → (0 < r) × (0 < c)
unfolding validate
validate-none s16 r c h = ground (arith, h)
validate-none f32 r c h = ground (arith, h)
validate-none unknown r c h = absurd (ground arith)

read_s16-append :
    (k : ℕ) (xs ys : List ℕ) → length xs ≡ k * 2 → read_s16 (xs ++ ys) ≡ read_s16 xs ++ read_s16 ys
unfolding read_s16
read_s16-append zero [] ys h = refl
read_s16-append (suc k) [] ys h = absurd (omega arith)
read_s16-append k (b0 ∷ []) ys h = absurd (omega arith)
read_s16-append zero (b0 ∷ b1 ∷ xs) ys h = absurd (omega arith)
read_s16-append (suc k) (b0 ∷ b1 ∷ xs) ys h = rw (read_s16-append k xs ys (omega arith))

read_f32-append :
    (k : ℕ) (xs ys : List ℕ) → length xs ≡ k * 4 → read_f32 (xs ++ ys) ≡ read_f32 xs ++ read_f32 ys
unfolding read_f32
read_f32-append zero [] ys h = refl
read_f32-append (suc k) [] ys h = absurd (omega arith)
read_f32-append k (b0 ∷ []) ys h = absurd (omega arith)
read_f32-append k (b0 ∷ b1 ∷ []) ys h = absurd (omega arith)
read_f32-append k (b0 ∷ b1 ∷ b2 ∷ []) ys h = absurd (omega arith)
read_f32-append zero (b0 ∷ b1 ∷ b2 ∷ b3 ∷ xs) ys h = absurd (omega arith)
read_f32-append (suc k) (b0 ∷ b1 ∷ b2 ∷ b3 ∷ xs) ys h = rw (read_f32-append k xs ys (omega arith))

-- The samples in some bytes
abbrev pub buffer : Format → ℕ → ℕ → List ℕ → Pcm
buffer f r c b = read_samples f b (empty f r c)

module _ (narrow : ℕ → ℤ) (widen : ℤ → ℕ) (resample : Format → ℕ → ℕ → Pcm → Result Error Pcm) where
  append_s16 :
      (r c : ℕ) (xs : List ℤ) (y : ℤ) (ys : List ℤ)
      → 0 < r
      → 0 < c
      → append narrow widen resample
          (with_s16 (y ∷ ys) (empty s16 r c))
          (with_s16 xs (empty s16 r c))
        ≡ ok (with_s16 (xs ++ (y ∷ ys)) (empty s16 r c))
  unfolding append validate to_format to_int16_format
  append_s16 r c xs y ys h h' = ground arith

  append_zero_s16 :
      (r c : ℕ) (y : ℤ) (ys : List ℤ)
      → 0 < r
      → 0 < c
      → append narrow widen resample (with_s16 (y ∷ ys) (empty s16 r c)) zero_pcm
        ≡ ok (with_s16 (y ∷ ys) (empty s16 r c))
  unfolding append validate to_format to_int16_format
  append_zero_s16 r c y ys h h' = ground arith

  append_f32 :
      (r c : ℕ) (xs : List ℕ) (y : ℕ) (ys : List ℕ)
      → 0 < r
      → 0 < c
      → append narrow widen resample
          (with_f32 (y ∷ ys) (empty f32 r c))
          (with_f32 xs (empty f32 r c))
        ≡ ok (with_f32 (xs ++ (y ∷ ys)) (empty f32 r c))
  unfolding append validate to_format to_float32_format
  append_f32 r c xs y ys h h' = ground arith

  append_zero_f32 :
      (r c : ℕ) (y : ℕ) (ys : List ℕ)
      → 0 < r
      → 0 < c
      → append narrow widen resample (with_f32 (y ∷ ys) (empty f32 r c)) zero_pcm
        ≡ ok (with_f32 (y ∷ ys) (empty f32 r c))
  unfolding append validate to_format to_float32_format
  append_zero_f32 r c y ys h h' = ground arith

  pub append-buffer :
      (f : Format) (r c k : ℕ) (x y : List ℕ)
      → validate f r c ≡ none
      → length x ≡ k * bytes_per_sample f
      → bytes_per_sample f ≤ length y
      → append narrow widen resample (buffer f r c y) (buffer f r c x) ≡ ok (buffer f r c (x ++ y))
  unfolding read_s16 read_f32
  append-buffer s16 r c k x (b0 ∷ b1 ∷ y) valid e room =
      let (h, h') = validate-none s16 r c valid in
      append_s16 r c (read_s16 x) (to_int16 (le16 b0 b1)) (read_s16 y) h h'
      ∙ ap (λ vs. ok (with_s16 vs (empty s16 r c))) (sym (read_s16-append k x (b0 ∷ b1 ∷ y) e))
  append-buffer s16 r c k x (b0 ∷ []) valid e room = absurd (omega arith)
  append-buffer s16 r c k x [] valid e room = absurd (omega arith)
  append-buffer f32 r c k x (b0 ∷ b1 ∷ b2 ∷ b3 ∷ y) valid e room =
      let (h, h') = validate-none f32 r c valid in
      append_f32 r c (read_f32 x) (le32 b0 b1 b2 b3) (read_f32 y) h h'
      ∙ ap (λ vs. ok (with_f32 vs (empty f32 r c)))
          (sym (read_f32-append k x (b0 ∷ b1 ∷ b2 ∷ b3 ∷ y) e))
  append-buffer f32 r c k x (b0 ∷ b1 ∷ b2 ∷ []) valid e room = absurd (omega arith)
  append-buffer f32 r c k x (b0 ∷ b1 ∷ []) valid e room = absurd (omega arith)
  append-buffer f32 r c k x (b0 ∷ []) valid e room = absurd (omega arith)
  append-buffer f32 r c k x [] valid e room = absurd (omega arith)
  append-buffer unknown r c k x y valid e room = absurd (unknown-invalid r c valid)

  pub append_zero-buffer :
      (f : Format) (r c : ℕ) (y : List ℕ)
      → validate f r c ≡ none
      → bytes_per_sample f ≤ length y
      → append narrow widen resample (buffer f r c y) zero_pcm ≡ ok (buffer f r c y)
  unfolding read_s16 read_f32
  append_zero-buffer s16 r c (b0 ∷ b1 ∷ y) valid room =
      let (h, h') = validate-none s16 r c valid in
      append_zero_s16 r c (to_int16 (le16 b0 b1)) (read_s16 y) h h'
  append_zero-buffer s16 r c (b0 ∷ []) valid room = absurd (omega arith)
  append_zero-buffer s16 r c [] valid room = absurd (omega arith)
  append_zero-buffer f32 r c (b0 ∷ b1 ∷ b2 ∷ b3 ∷ y) valid room =
      let (h, h') = validate-none f32 r c valid in
      append_zero_f32 r c (le32 b0 b1 b2 b3) (read_f32 y) h h'
  append_zero-buffer f32 r c (b0 ∷ b1 ∷ b2 ∷ []) valid room = absurd (omega arith)
  append_zero-buffer f32 r c (b0 ∷ b1 ∷ []) valid room = absurd (omega arith)
  append_zero-buffer f32 r c (b0 ∷ []) valid room = absurd (omega arith)
  append_zero-buffer f32 r c [] valid room = absurd (omega arith)
  append_zero-buffer unknown r c y valid room = absurd (unknown-invalid r c valid)

pub is_empty-buffer :
    (f : Format) (r c : ℕ) (y : List ℕ)
    → validate f r c ≡ none
    → bytes_per_sample f ≤ length y
    → is_empty (buffer f r c y) ≡ false
unfolding read_s16 read_f32
is_empty-buffer s16 r c (b0 ∷ b1 ∷ y) valid room = ground arith
is_empty-buffer s16 r c (b0 ∷ []) valid room = absurd (omega arith)
is_empty-buffer s16 r c [] valid room = absurd (omega arith)
is_empty-buffer f32 r c (b0 ∷ b1 ∷ b2 ∷ b3 ∷ y) valid room = ground arith
is_empty-buffer f32 r c (b0 ∷ b1 ∷ b2 ∷ []) valid room = absurd (omega arith)
is_empty-buffer f32 r c (b0 ∷ b1 ∷ []) valid room = absurd (omega arith)
is_empty-buffer f32 r c (b0 ∷ []) valid room = absurd (omega arith)
is_empty-buffer f32 r c [] valid room = absurd (omega arith)
is_empty-buffer unknown r c y valid room = absurd (unknown-invalid r c valid)

pub is_empty-empty : (f : Format) (r c : ℕ) → is_empty (empty f r c) ≡ true
is_empty-empty s16 r c = refl
is_empty-empty f32 r c = refl
is_empty-empty unknown r c = refl

pub bytes_per_sample-positive :
    (f : Format) (r c : ℕ) → validate f r c ≡ none → 0 < bytes_per_sample f
bytes_per_sample-positive s16 r c valid = omega arith
bytes_per_sample-positive f32 r c valid = omega arith
bytes_per_sample-positive unknown r c valid = absurd (unknown-invalid r c valid)
