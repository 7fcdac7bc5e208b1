-- ===== src/Audio/Chunk.antt =====
-- audio/chunk.go: buffers cut into pieces. A size, an overlap and a duration that are negative in the
-- source count as 0 there, and are not negative here.
pub mod Cover
pub mod Loop
pub mod Size
use getstream_go_webrtc.Base.{
  ℕ, zero, suc, ◌+◌, ◌-◌, ◌*◌, ◌/◌, min, max, ap, Bool, not, ◌&&◌, List, [], ◌∷◌, ◌++◌, ltb, leb,
  ◌==◌, if◌then◌else◌, length, set, take, replicate,
}
use getstream_go_webrtc.Base.Int.{ℤ, pos, sub_ℤ}
use getstream_go_webrtc.Audio.Format.{Format, s16, f32, unknown}
use getstream_go_webrtc.Audio.Pcm.{Pcm, second, len, slice, with_s16, with_f32}

pub data PadPosition : Type 0 where
  pad_end : PadPosition
  pad_start : PadPosition

abbrev pub pad_offset : PadPosition → ℕ → ℕ
pad_offset pad_start missing = missing
pad_offset pad_end missing = 0

-- `copy(make([]T, total)[offset:], xs)`
unfoldable pub paste {ℓ} : {A : Type ℓ} → A → ℕ → ℕ → List A → List A
paste zero_value total offset xs =
    let kept = take (total - offset) xs in
    replicate offset zero_value ++ kept ++ replicate (total - offset - length kept) zero_value

abbrev pub pad_samples : Format → ℕ → ℕ → Pcm → Pcm
pad_samples f32 total offset p = with_f32 (paste 0 total offset p.f32_samples) p
pad_samples s16 total offset p = with_s16 (paste (pos 0) total offset p.s16_samples) p
pad_samples unknown total offset p = with_s16 (paste (pos 0) total offset p.s16_samples) p

-- Silence at the start moves the presentation time back.
abbrev pub padded_pts : PadPosition → ℕ → Pcm → ℤ
padded_pts pad_end missing p = p.pts
padded_pts pad_start missing p =
    if p.sample_rate == 0 then p.pts else sub_ℤ p.pts (pos (missing * second / p.sample_rate))

unfoldable pub pad_to : ℕ → PadPosition → Pcm → Pcm
pad_to frames at p =
    if leb frames (len p)
    then p
    else record (pad_samples p.format (frames * p.channels)
        (pad_offset at ((frames - len p) * p.channels)) p) {
          pts = padded_pts at (frames - len p) p;
        }

unfoldable pub chunk_at : ℕ → ℕ → Bool → Pcm → Pcm
chunk_at i size pad_last p =
    let end = min (i + size) (len p) in
    let chunk = slice i end p in
    if ltb (end - i) size && pad_last then pad_to size pad_end chunk else chunk

-- The loop from frame `i` on, with the number of rounds that it may take.
unfoldable pub chunks_from : ℕ → ℕ → ℕ → ℕ → Bool → Pcm → List Pcm
chunks_from zero i size step pad_last p = []
chunks_from (suc fuel) i size step pad_last p =
    let rest = chunks_from fuel (i + step) size step pad_last p in
    if ltb i (len p) then chunk_at i size pad_last p ∷ rest else []

-- `Chunks`, all that it yields. A round goes at least one frame on.
unfoldable pub chunks : ℕ → ℕ → Bool → Pcm → List Pcm
chunks size overlap pad_last p =
    if size == 0 then [] else chunks_from (len p) 0 size (max 1 (size - overlap)) pad_last p

abbrev pub frames_in : ℕ → Pcm → ℕ
frames_in d p = d * p.sample_rate / second

unfoldable pub sliding_window : ℕ → ℕ → Bool → Pcm → List Pcm
unfolding chunks
sliding_window window hop pad_last p =
    chunks (frames_in window p) (frames_in window p - frames_in hop p) pad_last p

unfoldable pub head : ℕ → Bool → PadPosition → Pcm → Pcm
head d pad at p =
    let want = frames_in d p in
    if leb want (len p) then slice 0 want p else if not pad then p else pad_to want at p

unfoldable pub tail : ℕ → Bool → PadPosition → Pcm → Pcm
tail d pad at p =
    let want = frames_in d p in
    if leb want (len p)
    then slice (len p - want) (len p) p
    else if not pad
    then p
    else pad_to want at p
