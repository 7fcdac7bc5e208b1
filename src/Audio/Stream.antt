-- ===== src/Audio/Stream.antt =====
-- audio/stream.go: bytes that arrive in any pieces become buffers of whole frames. A buffer of the
-- aligner that the code reuses is a list of bytes here, and a sequence is the list of all it yields.
pub mod Padding
mod Pieces
pub mod Conserve
use getstream_go_webrtc.Base.{
  ℕ, zero, ◌+◌, ◌-◌, ◌*◌, ◌/◌, ◌%◌, max, ap, not, none, some, List, [], ◌∷◌, ◌++◌, map, ◌==◌,
  if◌then◌else◌, length, take, drop, replicate,
}
use getstream_go_webrtc.Base.Result.{Result, ok, err, ◌>>=◌}
use getstream_go_webrtc.Base.Int.{ℤ}
use getstream_go_webrtc.Audio.Format.{Format, s16, Error, bytes_per_sample, validate}
use getstream_go_webrtc.Audio.Pcm.{Pcm, empty, from_bytes, is_empty, append}

pub record Aligner : Type 0 where
  pub format : Format
  pub sample_rate : ℕ
  pub channels : ℕ
  pub frame_size : ℕ
  pub buf : List ℕ

-- `NewAligner`, which panics where `validate` gives an error.
abbrev pub new_aligner : Format → ℕ → ℕ → Aligner
new_aligner format sample_rate channels = record {
  format = format;
  sample_rate = sample_rate;
  channels = channels;
  frame_size = bytes_per_sample format * channels;
  buf = [];
}

abbrev pub nothing_yet : Aligner → Pcm
nothing_yet a = empty a.format a.sample_rate a.channels

-- What Write answers once the whole frames have been read, and the bytes it keeps.
abbrev pub kept : List ℕ → ℕ → Aligner → Result Error Pcm → Result Error Pcm × Aligner
kept buf whole a (err e) = (err e, record a { buf = buf })
kept buf whole a (ok p) = (ok p, record a { buf = drop whole buf })

unfoldable pub write : List ℕ → Aligner → Result Error Pcm × Aligner
write b a =
    let buf = a.buf ++ b in
    let whole = length buf - length buf % a.frame_size in
    if whole == 0
    then (ok (nothing_yet a), record a { buf = buf })
    else kept buf whole a (from_bytes (take whole buf) a.format a.sample_rate a.channels)

-- Zero bytes up to the end of the frame
abbrev pub padded : ℕ → List ℕ → List ℕ
padded frame_size buf = buf ++ replicate ((frame_size - length buf % frame_size) % frame_size) 0

unfoldable pub flush : Aligner → Result Error Pcm × Aligner
flush a = if length a.buf == 0 then (ok (nothing_yet a), a) else (
  from_bytes (padded a.frame_size a.buf) a.format a.sample_rate a.channels,
  record a { buf = [] },
)

abbrev pub pending : Aligner → ℕ
pending a = length a.buf

-- What is yielded at the end
abbrev pub ending : Result Error Pcm → List (Result Error Pcm)
ending (err e) = err e ∷ []
ending (ok tail) = if is_empty tail then [] else ok tail ∷ []

-- What is yielded for a piece, before what comes later; an error ends the sequence.
abbrev pub yielded : Result Error Pcm → List (Result Error Pcm) → List (Result Error Pcm)
yielded (err e) later = err e ∷ []
yielded (ok p) later = if is_empty p then later else ok p ∷ later

unfoldable pub feed : List (List ℕ) → Aligner → List (Result Error Pcm)
unfolding flush write
feed [] a = ending (flush a).0
feed (piece ∷ pieces) a =
    let later = feed pieces (write piece a).1 in yielded (write piece a).0 later

unfoldable pub from_byte_seq : List (List ℕ) → Format → ℕ → ℕ → List (Result Error Pcm)
unfolding feed
from_byte_seq pieces format sample_rate channels = elim (validate format sample_rate channels) [
  | some e ↦ err e ∷ []
  | none ↦ feed pieces (new_aligner format sample_rate channels)
]

-- What one call of Read gives: bytes, and whether the reader ended or failed.
pub data Ending : Type 0 where
  more : Ending
  eof : Ending
  failed : Ending

pub data StreamError : Type 0 where
  audio : Error → StreamError
  reader : StreamError

abbrev pub as_stream : Result Error Pcm → Result StreamError Pcm
as_stream (err e) = err (audio e)
as_stream (ok p) = ok p

-- The size of the buffer that is read into, for which 0 frames are 20 ms
unfoldable pub read_size : ℕ → Format → ℕ → ℕ → ℕ
read_size chunk_frames format sample_rate channels =
    max
      ((if chunk_frames == 0 then sample_rate / 50 else chunk_frames)
        * bytes_per_sample format
        * channels)
      1

-- `FromReader`, of the answers of a reader to its calls
unfoldable pub read_loop : List (List ℕ × Ending) → Aligner → List (Result StreamError Pcm)
unfolding write flush
read_loop [] a = []
read_loop ((b, end) ∷ reads) a =
    let later = read_loop reads (if length b == 0 then a else (write b a).1) in
    let after : List (Result StreamError Pcm) = elim end [
      | more ↦ later
      | eof ↦ map as_stream (ending (flush (if length b == 0 then a else (write b a).1)).0)
      | failed ↦ err reader ∷ []
    ] in
    if length b == 0 then after else elim (write b a).0 [
      | err e ↦ err (audio e) ∷ []
      | ok p ↦ if is_empty p then after else ok p ∷ after
    ]

unfoldable pub from_reader : List (List ℕ × Ending) → Format → ℕ → ℕ → List (Result StreamError Pcm)
unfolding read_loop
from_reader reads format sample_rate channels = elim (validate format sample_rate channels) [
  | some e ↦ err (audio e) ∷ []
  | none ↦ read_loop reads (new_aligner format sample_rate channels)
]

-- The zero value of a buffer
abbrev pub zero_pcm : Pcm
zero_pcm = empty s16 0 0

module _ (narrow : ℕ → ℤ) (widen : ℤ → ℕ) (resample : Format → ℕ → ℕ → Pcm → Result Error Pcm) where
  -- `Collect` from what has been collected so far, without the part collected before an error
  unfoldable pub collect_from : Pcm → List (Result Error Pcm) → Result Error Pcm
  collect_from out [] = ok out
  collect_from out (err e ∷ later) = err e
  collect_from out (ok p ∷ later) =
      append narrow widen resample p out >>= λ out'. collect_from out' later

  unfoldable pub collect : List (Result Error Pcm) → Result Error Pcm
  unfolding collect_from
  collect seq = collect_from zero_pcm seq
