-- ===== src/Audio/Pcm/Encoding.antt =====
-- audio/pcm.go: samples as bytes and back.
use native.Mathlib.Nat.{div-add-mod', mul-mod_left}
use getstream_go_webrtc.Base.{
  ℕ, ◌-◌, ◌*◌, ◌/◌, ◌%◌, ◌^◌, ◌<◌, ◌≡◌, refl, sym, ap, ◌∙◌, ◌≢◌, none, List, [], arith, length,
  take, All, take-length_all,
}
use getstream_go_webrtc.Base.Int.{ℤ, pos}
use getstream_go_webrtc.Base.Result.{ok, ◌>>=◌}
use getstream_go_webrtc.Audio.Words.{
  IsInt16, read_s16, read_f32, write_s16, write_f32, read-write_s16, read-write_f32,
  length-write_s16, length-write_f32,
}
use getstream_go_webrtc.Audio.Format.{Format, s16, f32, unknown, bytes_per_sample, validate}
use getstream_go_webrtc.Audio.Pcm.{
  or_error, with_s16, with_f32, read_samples, Pcm, from_bytes, new_checked, bytes, num_samples,
  empty,
}

pub unknown-invalid : (rate channels : ℕ) → validate unknown rate channels ≢ none
unfolding validate
unknown-invalid rate channels e = absurd (ground arith)

-- A buffer in which samples fit their format, only the active ones are there, and frames are whole.
abbrev pub IsWhole : Pcm → Type 0
IsWhole p =
    (validate p.format p.sample_rate p.channels ≡ none)
    × (num_samples p % p.channels ≡ 0)
    × All IsInt16 p.s16_samples
    × All (λ v. v < 2 ^ 32) p.f32_samples
    × (p.format ≡ s16 → p.f32_samples ≡ [])
    × (p.format ≡ f32 → p.s16_samples ≡ [])

-- Cutting to whole frames keeps what is whole.
pub take_whole {ℓ} :
    {A : Type ℓ} (xs : List A) (m : ℕ)
    → length xs % m ≡ 0
    → take (length xs - length xs % m) xs ≡ xs
take_whole xs m e = ap (λ k. take k xs) (omega (arith, e)) ∙ take-length_all xs

pub scaled-mod : (w n c : ℕ) → n % c ≡ 0 → w * n % (w * c) ≡ 0
scaled-mod w n c e =
    let q : ℕ = n / c in
    let whole : n ≡ q * c = omega (arith, div-add-mod' n c) in
    let swap : w * (q * c) ≡ q * (w * c) = grind arith in
    ap (λ k. k % (w * c)) (ap (λ k. w * k) whole ∙ swap) ∙ mul-mod_left q (w * c)

pub from_bytes-valid :
    (b : List ℕ) (format : Format) (rate channels : ℕ)
    → validate format rate channels ≡ none
    → from_bytes b format rate channels
      ≡ ok (
          read_samples format
            (take (length b - length b % (bytes_per_sample format * channels)) b)
            (empty format rate channels))
unfolding from_bytes new_checked
from_bytes-valid b format rate channels valid =
    ap
      (λ e. or_error e (empty format rate channels) >>= λ p. ok (
        read_samples format (take (length b - length b % (bytes_per_sample format * channels)) b)
          p))
      valid

whole_bytes : (w n c k : ℕ) → k ≡ w * n → n % c ≡ 0 → k % (w * c) ≡ 0
whole_bytes w n c k e whole = ap (λ j. j % (w * c)) e ∙ scaled-mod w n c whole

from_bytes_s16 :
    (rate channels : ℕ) (xs : List ℤ)
    → validate s16 rate channels ≡ none
    → length xs % channels ≡ 0
    → All IsInt16 xs
    → from_bytes (write_s16 xs) s16 rate channels ≡ ok (with_s16 xs (empty s16 rate channels))
from_bytes_s16 rate channels xs valid whole fit =
    from_bytes-valid (write_s16 xs) s16 rate channels valid
    ∙ ap (λ b. ok (with_s16 (read_s16 b) (empty s16 rate channels)))
        (take_whole (write_s16 xs) (2 * channels)
          (whole_bytes 2 (length xs) channels (length (write_s16 xs)) (length-write_s16 xs) whole))
    ∙ ap (λ vs. ok (with_s16 vs (empty s16 rate channels))) (read-write_s16 xs fit)

from_bytes_f32 :
    (rate channels : ℕ) (xs : List ℕ)
    → validate f32 rate channels ≡ none
    → length xs % channels ≡ 0
    → All (λ v. v < 2 ^ 32) xs
    → from_bytes (write_f32 xs) f32 rate channels ≡ ok (with_f32 xs (empty f32 rate channels))
from_bytes_f32 rate channels xs valid whole fit =
    from_bytes-valid (write_f32 xs) f32 rate channels valid
    ∙ ap (λ b. ok (with_f32 (read_f32 b) (empty f32 rate channels)))
        (take_whole (write_f32 xs) (4 * channels)
          (whole_bytes 4 (length xs) channels (length (write_f32 xs)) (length-write_f32 xs) whole))
    ∙ ap (λ vs. ok (with_f32 vs (empty f32 rate channels))) (read-write_f32 xs fit)

abbrev pub make : Format → ℕ → ℕ → ℤ → List ℤ → List ℕ → Pcm
make format rate channels pts xs ys = record {
  format = format;
  sample_rate = rate;
  channels = channels;
  pts = pts;
  s16_samples = xs;
  f32_samples = ys;
}

from_bytes-bytes_parts :
    (format : Format) (rate channels : ℕ) (pts : ℤ) (xs : List ℤ) (ys : List ℕ)
    → IsWhole (make format rate channels pts xs ys)
    → from_bytes (bytes (make format rate channels pts xs ys)) format rate channels
      ≡ ok (make format rate channels (pos 0) xs ys)
unfolding bytes
from_bytes-bytes_parts s16 rate channels pts xs ys (valid, whole, fit, _, one, _) =
    from_bytes_s16 rate channels xs valid whole fit
    ∙ ap (λ zs. ok (make s16 rate channels (pos 0) xs zs)) (sym (one refl))
from_bytes-bytes_parts f32 rate channels pts xs ys (valid, whole, _, fit, _, one) =
    from_bytes_f32 rate channels ys valid whole fit
    ∙ ap (λ zs. ok (make f32 rate channels (pos 0) zs ys)) (sym (one refl))
from_bytes-bytes_parts unknown rate channels pts xs ys (valid, _, _, _, _, _) =
    absurd (unknown-invalid rate channels valid)

-- A buffer of whole frames, each sample in its range and nothing in the other format, is read back
-- from its bytes as it is, with presentation time 0.
pub from_bytes-bytes :
    (p : Pcm)
    → IsWhole p
    → from_bytes (bytes p) p.format p.sample_rate p.channels ≡ ok (record p { pts = pos 0 })
from_bytes-bytes p whole =
    from_bytes-bytes_parts p.format p.sample_rate p.channels p.pts p.s16_samples p.f32_samples whole
