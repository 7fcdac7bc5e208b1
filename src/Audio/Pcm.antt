-- ===== src/Audio/Pcm.antt =====
-- audio/pcm.go: the buffer of samples and its operations, but for the measures of loudness and the
-- text. A float32 is its 32 bits. A slice of Go is the list of its elements, so Clone is the buffer
-- itself. Rates, counts and indices are not negative; a rate or a count of 0 stands for one that is
-- not positive.
pub mod Encoding
use getstream_go_webrtc.Base.{
  ℕ, zero, suc, ◌+◌, ◌-◌, ◌*◌, ◌/◌, ◌%◌, ap, Bool, true, false, not, ◌&&◌, Option, none, some, List,
  [], ◌∷◌, ◌++◌, map, leb, ◌==◌, if◌then◌else◌, length, get_elem?, take, drop,
}
use getstream_go_webrtc.Base.Int.{ℤ, pos, add_ℤ}
use getstream_go_webrtc.Base.Result.{Result, ok, err, ◌>>=◌}
use getstream_go_webrtc.Audio.Words.{read_s16, read_f32, write_s16, write_f32}
use getstream_go_webrtc.Audio.Format.{
  Format, s16, f32, unknown, Error, channel_out_of_range, bytes_per_sample, validate,
}

pub record Pcm : Type 0 where
  pub format : Format
  pub sample_rate : ℕ
  pub channels : ℕ
  pub pts : ℤ  -- nanoseconds
  pub s16_samples : List ℤ
  pub f32_samples : List ℕ

abbrev pub second : ℕ
second = 1000000000

abbrev pub empty : Format → ℕ → ℕ → Pcm
empty format sample_rate channels = record {
  format = format;
  sample_rate = sample_rate;
  channels = channels;
  pts = pos 0;
  s16_samples = [];
  f32_samples = [];
}

abbrev pub or_error {ℓ} : {A : Type ℓ} → Option Error → A → Result Error A
or_error none a = ok a
or_error (some e) a = err e

-- `NewChecked`; `New` is this with a panic on the error.
unfoldable pub new_checked : Format → ℕ → ℕ → Result Error Pcm
unfolding validate
new_checked format sample_rate channels =
    or_error (validate format sample_rate channels) (empty format sample_rate channels)

abbrev pub with_s16 : List ℤ → Pcm → Pcm
with_s16 xs p = record p { s16_samples = xs }

abbrev pub with_f32 : List ℕ → Pcm → Pcm
with_f32 xs p = record p { f32_samples = xs }

abbrev pub read_samples : Format → List ℕ → Pcm → Pcm
read_samples s16 b p = with_s16 (read_s16 b) p
read_samples f32 b p = with_f32 (read_f32 b) p
read_samples unknown b p = p

unfoldable pub from_bytes : List ℕ → Format → ℕ → ℕ → Result Error Pcm
unfolding new_checked
from_bytes b format sample_rate channels = new_checked format sample_rate channels >>= λ p.
    ok (read_samples format (take (length b - length b % (bytes_per_sample format * channels)) b) p)

abbrev pub count_of : Format → List ℤ → List ℕ → ℕ
count_of s16 xs ys = length xs
count_of f32 xs ys = length ys
count_of unknown xs ys = length xs

abbrev pub num_samples : Pcm → ℕ
num_samples p = count_of p.format p.s16_samples p.f32_samples

-- `Len`, in frames
unfoldable pub len : Pcm → ℕ
len p = if p.channels == 0 then 0 else num_samples p / p.channels

abbrev pub is_empty : Pcm → Bool
is_empty p = num_samples p == 0

unfoldable pub duration : Pcm → ℕ
unfolding len
duration p = if p.sample_rate == 0 then 0 else len p * second / p.sample_rate

abbrev pub write_samples : Format → List ℤ → List ℕ → List ℕ
write_samples f32 xs ys = write_f32 ys
write_samples s16 xs ys = write_s16 xs
write_samples unknown xs ys = write_s16 xs

unfoldable pub bytes : Pcm → List ℕ
bytes p = write_samples p.format p.s16_samples p.f32_samples

-- The time that `frames` frames take, added where there is a rate.
abbrev pub later : ℕ → Pcm → ℤ
later frames p =
    if p.sample_rate == 0 then p.pts else add_ℤ p.pts (pos (frames * second / p.sample_rate))

abbrev slice_samples : Format → ℕ → ℕ → Pcm → Pcm
slice_samples f32 lo hi p = with_f32 (drop lo (take hi p.f32_samples)) p
slice_samples s16 lo hi p = with_s16 (drop lo (take hi p.s16_samples)) p
slice_samples unknown lo hi p = with_s16 (drop lo (take hi p.s16_samples)) p

-- `Slice`, of a range within the buffer
unfoldable pub slice : ℕ → ℕ → Pcm → Pcm
slice from to p = record (slice_samples p.format (from * p.channels) (to * p.channels) p) {
  pts = later from p;
}

-- `samples[f*channels+i]` for each frame
unfoldable pub pick {ℓ} : {A : Type ℓ} → ℕ → ℕ → ℕ → List A → List A
pick zero channels i xs = []
pick (suc frames) channels i xs =
    let rest = pick frames channels i (drop channels xs) in
    elim (get_elem? xs i) [ none ↦ rest | some x ↦ x ∷ rest ]

abbrev pick_samples : Format → ℕ → ℕ → Pcm → Pcm
pick_samples f32 frames i p = with_f32 (pick frames p.channels i p.f32_samples) p
pick_samples s16 frames i p = with_s16 (pick frames p.channels i p.s16_samples) p
pick_samples unknown frames i p = with_s16 (pick frames p.channels i p.s16_samples) p

unfoldable pub channel : ℕ → Pcm → Result Error Pcm
unfolding len
channel i p =
    if leb p.channels i
    then err channel_out_of_range
    else if p.channels == 1
    then ok p
    else ok (record (pick_samples p.format (len p) i p) { channels = 1 })

abbrev pub clear : Pcm → Pcm
clear p = record p { s16_samples = []; f32_samples = [] }

abbrev append_samples : Format → Pcm → Pcm → Pcm
append_samples f32 other p = with_f32 (p.f32_samples ++ other.f32_samples) p
append_samples s16 other p = with_s16 (p.s16_samples ++ other.s16_samples) p
append_samples unknown other p = with_s16 (p.s16_samples ++ other.s16_samples) p

-- The conversions between the formats and the resampler compute with floating point.
module _ (narrow : ℕ → ℤ) (widen : ℤ → ℕ) (resample : Format → ℕ → ℕ → Pcm → Result Error Pcm) where
  narrowed : Format → Pcm → Pcm
  narrowed s16 p = p
  narrowed f32 p = record p {
    format = s16;
    f32_samples = [];
    s16_samples = map narrow p.f32_samples;
  }
  narrowed unknown p = record p {
    format = s16;
    f32_samples = [];
    s16_samples = map narrow p.f32_samples;
  }

  widened : Format → Pcm → Pcm
  widened f32 p = p
  widened s16 p = record p { format = f32; s16_samples = []; f32_samples = map widen p.s16_samples }
  widened unknown p = record p {
    format = f32;
    s16_samples = [];
    f32_samples = map widen p.s16_samples;
  }

  unfoldable pub to_int16_format : Pcm → Pcm
  unfolding narrowed
  to_int16_format p = narrowed p.format p

  unfoldable pub to_float32_format : Pcm → Pcm
  unfolding widened
  to_float32_format p = widened p.format p

  unfoldable pub to_format : Format → Pcm → Pcm
  unfolding to_int16_format to_float32_format
  to_format f32 p = to_float32_format p
  to_format s16 p = to_int16_format p
  to_format unknown p = to_int16_format p

  same_format : Format → Format → Bool
  same_format s16 s16 = true
  same_format f32 f32 = true
  same_format _ _ = false

  -- A zero buffer takes the parameters of what is appended first.
  adopt : Pcm → Pcm → Pcm
  adopt other p =
      if p.sample_rate == 0 && p.channels == 0 && is_empty p
      then record p {
        format = other.format;
        sample_rate = other.sample_rate;
        channels = other.channels;
        pts = other.pts;
      }
      else p

  converted : Pcm → Pcm → Result Error Pcm
  converted p other =
      if other.sample_rate == p.sample_rate && other.channels == p.channels
      then ok other
      else resample p.format p.sample_rate p.channels other

  append_valid : Option Error → Pcm → Pcm → Result Error Pcm
  append_valid (some e) other p = err e
  append_valid none other p =
      converted p other >>= λ o. ok (append_samples p.format (to_format p.format o) p)

  -- The buffer that `other` has been appended to.
  unfoldable pub append : Pcm → Pcm → Result Error Pcm
  unfolding adopt append_valid converted to_format validate
  append other p =
      let p' = adopt other p in
      if is_empty other
      then ok p
      else append_valid (validate p'.format p'.sample_rate p'.channels) other p'
