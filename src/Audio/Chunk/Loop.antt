-- ===== src/Audio/Chunk/Loop.antt =====
-- audio/chunk.go: the loop of Chunks ends.
use getstream_go_webrtc.Base.{
  ℕ, zero, suc, ◌+◌, ◌-◌, ◌≤◌, ◌<◌, max, ◌≡◌, refl, sym, ap, ◌∙◌, Bool, false, [], ◌∷◌, arith, ltb,
  if◌then◌else◌,
}
use getstream_go_webrtc.Audio.Pcm.{Pcm, len}
use getstream_go_webrtc.Audio.Chunk.{chunk_at, chunks_from, chunks}

chunks_from-over :
    (fuel i size step : ℕ) (pad_last : Bool) (p : Pcm)
    → len p ≤ i
    → chunks_from fuel i size step pad_last p ≡ []
unfolding chunks_from
chunks_from-over zero i size step pad_last p h = refl
chunks_from-over (suc fuel) i size step pad_last p h =
    ap
      (λ b.
        if b
        then chunk_at i size pad_last p ∷ chunks_from fuel (i + step) size step pad_last p
        else [])
      {y = false} (ground arith)

-- Any two numbers of rounds that reach the end give the same chunks.
rounds_agree :
    (m n i size step : ℕ) (pad_last : Bool) (p : Pcm)
    → 0 < step
    → len p ≤ i + m
    → len p ≤ i + n
    → chunks_from m i size step pad_last p ≡ chunks_from n i size step pad_last p
unfolding chunks_from
rounds_agree zero n i size step pad_last p h reach reach' =
    sym (chunks_from-over n i size step pad_last p (omega arith))
rounds_agree (suc m) zero i size step pad_last p h reach reach' =
    chunks_from-over (suc m) i size step pad_last p (omega arith)
rounds_agree (suc m) (suc n) i size step pad_last p h reach reach' =
    ap (λ rest. if ltb i (len p) then chunk_at i size pad_last p ∷ rest else [])
      (rounds_agree m n (i + step) size step pad_last p h (omega arith) (omega arith))

-- The loop of Chunks ends for every overlap, also one as large as the chunks: however many rounds it is
-- given beyond the number of frames, it yields what `chunks` yields.
pub chunks_end :
    (extra size overlap : ℕ) (pad_last : Bool) (p : Pcm)
    → 0 < size
    → chunks size overlap pad_last p
      ≡ chunks_from (len p + extra) 0 size (max 1 (size - overlap)) pad_last p
unfolding chunks
chunks_end extra size overlap pad_last p h =
    ap (λ b. if b then [] else chunks_from (len p) 0 size (max 1 (size - overlap)) pad_last p)
      {y = false} (ground arith)
    ∙ rounds_agree (len p) (len p + extra) 0 size (max 1 (size - overlap)) pad_last p (omega arith)
        (omega arith) (omega arith)
