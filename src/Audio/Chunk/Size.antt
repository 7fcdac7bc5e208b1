-- ===== src/Audio/Chunk/Size.antt =====
-- audio/chunk.go: the length of a chunk.
use native.Mathlib.Nat.{mul-le-mul_right, mul-div_cancel, mul-sub, mul_comm}
use getstream_go_webrtc.Base.{
  ℕ, zero, suc, ◌+◌, ◌-◌, ◌*◌, ◌/◌, ◌≤◌, ◌<◌, min, max, ◌≡◌, refl, sym, ap, ap₂, subst, ◌∙◌, inl,
  inr, true, false, ◌&&◌, List, [], ◌∷◌, ◌++◌, arith, ltb, ◌==◌, if◌then◌else◌, ltb→lt, Bool-cases,
  length, take, drop, replicate, All, length-append, length-take, length-drop, length-replicate,
}
use getstream_go_webrtc.Base.Int.{ℤ, pos}
use getstream_go_webrtc.Audio.Format.{Format, s16, f32, unknown}
use getstream_go_webrtc.Audio.Pcm.{Pcm, len, slice, num_samples}
use getstream_go_webrtc.Audio.Pcm.Encoding.{make}
use getstream_go_webrtc.Audio.Chunk.{
  PadPosition, pad_end, pad_start, pad_offset, padded_pts, pad_to, pad_samples, paste, chunk_at,
  chunks_from, chunks,
}

length-filled {ℓ} :
    {A : Type ℓ} (z : A) (offset room : ℕ) (kept : List A)
    → length kept ≤ room
    → length (replicate offset z ++ kept ++ replicate (room - length kept) z) ≡ offset + room
length-filled z offset room kept h =
    length-append (replicate offset z ++ kept) (replicate (room - length kept) z)
    ∙ ap₂ (λ m n. m + n)
        (length-append (replicate offset z) kept
          ∙ ap (λ n. n + length kept) (length-replicate offset z))
        (length-replicate (room - length kept) z)
    ∙ omega (arith, h)

length-paste {ℓ} :
    {A : Type ℓ} (z : A) (total offset : ℕ) (xs : List A)
    → offset ≤ total
    → length (paste z total offset xs) ≡ total
unfolding paste
length-paste z total offset xs h =
    length-filled z offset (total - offset) (take (total - offset) xs)
      (omega (arith, length-take (total - offset) xs))
    ∙ omega arith

sub-mul : (m n k : ℕ) → (m - n) * k ≡ m * k - n * k
sub-mul m n k =
    mul_comm (m - n) k ∙ mul-sub k m n ∙ ap₂ (λ a b. a - b) (mul_comm k m) (mul_comm k n)

length-cut {ℓ} :
    {A : Type ℓ} (c a e n : ℕ) (xs : List A)
    → length xs ≡ n * c
    → e ≤ n
    → length (drop (a * c) (take (e * c) xs)) ≡ (e - a) * c
length-cut c a e n xs size h =
    let below : e * c ≤ n * c = mul-le-mul_right c h in
    length-drop (a * c) (take (e * c) xs)
    ∙ ap (λ k. k - a * c) (length-take (e * c) xs)
    ∙ omega (arith, below, size, sub-mul e a c)

num_samples-slice_parts :
    (format : Format) (rate c : ℕ) (pts : ℤ) (xs : List ℤ) (ys : List ℕ) (a e n : ℕ)
    → num_samples (make format rate c pts xs ys) ≡ n * c
    → e ≤ n
    → num_samples (slice a e (make format rate c pts xs ys)) ≡ (e - a) * c
unfolding slice
num_samples-slice_parts s16 rate c pts xs ys a e n size h = length-cut c a e n xs size h
num_samples-slice_parts f32 rate c pts xs ys a e n size h = length-cut c a e n ys size h
num_samples-slice_parts unknown rate c pts xs ys a e n size h = length-cut c a e n xs size h

channels-slice_parts :
    (format : Format) (rate c : ℕ) (pts : ℤ) (xs : List ℤ) (ys : List ℕ) (a e : ℕ)
    → (slice a e (make format rate c pts xs ys)).channels ≡ c
unfolding slice
channels-slice_parts s16 rate c pts xs ys a e = refl
channels-slice_parts f32 rate c pts xs ys a e = refl
channels-slice_parts unknown rate c pts xs ys a e = refl

-- A buffer of `n` whole frames has length `n`.
len-whole : (n : ℕ) (p : Pcm) → 0 < p.channels → num_samples p ≡ n * p.channels → len p ≡ n
unfolding len
len-whole n p h size =
    ap (λ b. if b then 0 else num_samples p / p.channels) {y = false} (ground arith)
    ∙ ap (λ k. k / p.channels) size
    ∙ mul-div_cancel n h

pub len-slice :
    (a e : ℕ) (p : Pcm)
    → 0 < p.channels
    → num_samples p ≡ len p * p.channels
    → e ≤ len p
    → len (slice a e p) ≡ e - a
len-slice a e p h whole within =
    let same : (slice a e p).channels ≡ p.channels =
      channels-slice_parts p.format p.sample_rate p.channels p.pts p.s16_samples p.f32_samples a
        e in
    len-whole (e - a) (slice a e p) (omega (arith, same)) (
      num_samples-slice_parts p.format p.sample_rate p.channels p.pts p.s16_samples p.f32_samples a
        e (len p) whole within
      ∙ ap (λ k. (e - a) * k) (sym same))

num_samples-padded_parts :
    (format : Format) (rate c : ℕ) (pts : ℤ) (xs : List ℤ) (ys : List ℕ) (total offset : ℕ)
    → offset ≤ total
    → num_samples (pad_samples format total offset (make format rate c pts xs ys)) ≡ total
num_samples-padded_parts s16 rate c pts xs ys total offset h =
    length-paste (pos 0) total offset xs h
num_samples-padded_parts f32 rate c pts xs ys total offset h = length-paste 0 total offset ys h
num_samples-padded_parts unknown rate c pts xs ys total offset h =
    length-paste (pos 0) total offset xs h

channels-padded_parts :
    (format : Format) (rate c : ℕ) (pts : ℤ) (xs : List ℤ) (ys : List ℕ) (total offset : ℕ)
    → (pad_samples format total offset (make format rate c pts xs ys)).channels ≡ c
channels-padded_parts s16 rate c pts xs ys total offset = refl
channels-padded_parts f32 rate c pts xs ys total offset = refl
channels-padded_parts unknown rate c pts xs ys total offset = refl

num_samples-pts : (p : Pcm) (pts : ℤ) → num_samples (record p { pts = pts }) ≡ num_samples p
num_samples-pts p pts = refl

len-pts : (p : Pcm) (pts : ℤ) → len (record p { pts = pts }) ≡ len p
unfolding len
len-pts p pts = refl

offset_le : (at : PadPosition) (missing total : ℕ) → missing ≤ total → pad_offset at missing ≤ total
offset_le pad_end missing total h = omega arith
offset_le pad_start missing total h = h

-- PadTo pads a buffer that is shorter to exactly the number of frames asked for.
pub len-pad_to :
    (frames : ℕ) (at : PadPosition) (p : Pcm)
    → 0 < p.channels
    → len p < frames
    → len (pad_to frames at p) ≡ frames
unfolding pad_to
len-pad_to frames at p h short =
    let total : ℕ = frames * p.channels in
    let offset : ℕ = pad_offset at ((frames - len p) * p.channels) in
    let padded : Pcm = pad_samples p.format total offset p in
    let fits : offset ≤ total =
      offset_le at ((frames - len p) * p.channels) total
        (mul-le-mul_right p.channels (omega arith)) in
    let same : padded.channels ≡ p.channels =
      channels-padded_parts p.format p.sample_rate p.channels p.pts p.s16_samples p.f32_samples
        total offset in
    let pts : ℤ = padded_pts at (frames - len p) p in
    ap (λ b. len (if b then p else record padded { pts = pts })) {y = false} (ground (arith, short))
    ∙ len-pts padded pts
    ∙ len-whole frames padded (omega (arith, same)) (
        num_samples-padded_parts p.format p.sample_rate p.channels p.pts p.s16_samples p.f32_samples
          total offset fits
        ∙ ap (λ k. frames * k) (sym same))

len-chunk_at :
    (i size : ℕ) (p : Pcm)
    → 0 < p.channels
    → num_samples p ≡ len p * p.channels
    → i < len p
    → len (chunk_at i size true p) ≡ size
unfolding chunk_at
len-chunk_at i size p h whole inside =
    let end : ℕ = min (i + size) (len p) in
    let chunk : Pcm = slice i end p in
    let cut : len chunk ≡ end - i = len-slice i end p h whole (omega arith) in
    elim (Bool-cases (ltb (end - i) size)) [
      | inl short ↦
          ap (λ b. len (if b && true then pad_to size pad_end chunk else chunk)) short
          ∙ len-pad_to size pad_end chunk
              (omega (
                arith,
                channels-slice_parts p.format p.sample_rate p.channels p.pts p.s16_samples
                    p.f32_samples i end,
              ))
              (ground (arith, cut, short))
      | inr full ↦
          ap (λ b. len (if b && true then pad_to size pad_end chunk else chunk)) full
          ∙ cut
          ∙ ground (arith, full)
    ]

All-len :
    (fuel i size step : ℕ) (p : Pcm)
    → 0 < p.channels
    → num_samples p ≡ len p * p.channels
    → All (λ c. len c ≡ size) (chunks_from fuel i size step true p)
unfolding chunks_from
All-len zero i size step p h whole = tt
All-len (suc fuel) i size step p h whole =
    let rest : List Pcm = chunks_from fuel (i + step) size step true p in
    let later : All (λ c. len c ≡ size) rest = All-len fuel (i + step) size step p h whole in
    elim (Bool-cases (ltb i (len p))) [
      | inl more ↦
          subst (λ b. All (λ c. len c ≡ size) (if b then chunk_at i size true p ∷ rest else []))
            (sym more) (len-chunk_at i size p h whole (ltb→lt i (len p) more), later)
      | inr over ↦
          subst (λ b. All (λ c. len c ≡ size) (if b then chunk_at i size true p ∷ rest else []))
            (sym over) tt
    ]

-- With padLast every chunk has exactly the size asked for, whatever the overlap.
pub chunks_full :
    (size overlap : ℕ) (p : Pcm)
    → 0 < p.channels
    → num_samples p ≡ len p * p.channels
    → All (λ c. len c ≡ size) (chunks size overlap true p)
unfolding chunks
chunks_full size overlap p h whole = elim (Bool-cases (size == 0)) [
  | inl nothing ↦
      subst
        (λ b.
          All (λ c. len c ≡ size)
            (if b then [] else chunks_from (len p) 0 size (max 1 (size - overlap)) true p))
        (sym nothing) tt
  | inr some_size ↦
      subst
        (λ b.
          All (λ c. len c ≡ size)
            (if b then [] else chunks_from (len p) 0 size (max 1 (size - overlap)) true p))
        (sym some_size) (All-len (len p) 0 size (max 1 (size - overlap)) p h whole)
]
