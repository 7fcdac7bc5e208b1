-- ===== src/Audio/Chunk/Cover.antt =====
-- audio/chunk.go: chunks without overlap cover the buffer.
use native.Mathlib.Nat.{mul-le-mul_right}
use getstream_go_webrtc.Base.{
  ℕ, zero, suc, ◌+◌, ◌-◌, ◌*◌, ◌≤◌, ◌<◌, min, max, ◌≡◌, refl, sym, ap, ap₂, ◌∙◌, inl, inr, Bool,
  true, false, ◌&&◌, List, [], ◌∷◌, ◌++◌, append-nil, arith, ltb, leb, if◌then◌else◌, ltb→lt,
  leb→le, Bool-cases, length, take, drop, length-take, take-length_all, drop-nil,
}
use getstream_go_webrtc.Base.Int.{ℤ}
use getstream_go_webrtc.Audio.Words.{write_s16, write_f32}
use getstream_go_webrtc.Audio.Format.{Format, s16, f32, unknown}
use getstream_go_webrtc.Audio.Pcm.{Pcm, len, slice, bytes, num_samples}
use getstream_go_webrtc.Audio.Pcm.Encoding.{make}
use getstream_go_webrtc.Audio.Chunk.{pad_end, pad_to, chunk_at, chunks_from, chunks}

-- The bytes of some buffers, one after the other.
unfoldable pub joined : List Pcm → List ℕ
joined [] = []
joined (p ∷ ps) = bytes p ++ joined ps

module _ {ℓ} {A : Type ℓ} where
  drop_all : (n : ℕ) (xs : List A) → length xs ≤ n → drop n xs ≡ []
  drop_all n [] h = drop-nil n
  drop_all zero (x ∷ xs) h = absurd (omega arith)
  drop_all (suc n) (x ∷ xs) h = drop_all n xs (omega arith)

  cut-nil : (a e : ℕ) (xs : List A) → e ≤ a → drop a (take e xs) ≡ []
  cut-nil a e xs h = drop_all a (take e xs) (omega (arith, length-take e xs))

  cut-join :
      (a b e : ℕ) (xs : List A)
      → a ≤ b
      → b ≤ e
      → drop a (take b xs) ++ drop b (take e xs) ≡ drop a (take e xs)
  cut-join zero zero e xs h h' = refl
  cut-join a (suc b) zero xs h h' = absurd (omega arith)
  cut-join zero (suc b) (suc e) [] h h' = refl
  cut-join (suc a) (suc b) (suc e) [] h h' = refl
  cut-join zero (suc b) (suc e) (x ∷ xs) h h' =
      ap (λ l. x ∷ l) (cut-join zero b e xs (omega arith) (omega arith))
  cut-join (suc a) (suc b) (suc e) (x ∷ xs) h h' = cut-join a b e xs (omega arith) (omega arith)
  cut-join (suc a) zero e xs h h' = absurd (omega arith)

write_s16-append : (xs ys : List ℤ) → write_s16 (xs ++ ys) ≡ write_s16 xs ++ write_s16 ys
unfolding write_s16
write_s16-append [] ys = refl
write_s16-append (x ∷ xs) ys = rw (write_s16-append xs ys)

write_f32-append : (xs ys : List ℕ) → write_f32 (xs ++ ys) ≡ write_f32 xs ++ write_f32 ys
unfolding write_f32
write_f32-append [] ys = refl
write_f32-append (x ∷ xs) ys = rw (write_f32-append xs ys)

cut_s16 :
    (a b e : ℕ) (xs : List ℤ)
    → a ≤ b
    → b ≤ e
    → write_s16 (drop a (take b xs)) ++ write_s16 (drop b (take e xs))
      ≡ write_s16 (drop a (take e xs))
cut_s16 a b e xs h h' =
    sym (write_s16-append (drop a (take b xs)) (drop b (take e xs)))
    ∙ ap write_s16 (cut-join a b e xs h h')

cut_f32 :
    (a b e : ℕ) (xs : List ℕ)
    → a ≤ b
    → b ≤ e
    → write_f32 (drop a (take b xs)) ++ write_f32 (drop b (take e xs))
      ≡ write_f32 (drop a (take e xs))
cut_f32 a b e xs h h' =
    sym (write_f32-append (drop a (take b xs)) (drop b (take e xs)))
    ∙ ap write_f32 (cut-join a b e xs h h')

join_parts :
    (format : Format) (rate channels : ℕ) (pts : ℤ) (xs : List ℤ) (ys : List ℕ) (a b e : ℕ)
    → a ≤ b
    → b ≤ e
    → let p : Pcm = make format rate channels pts xs ys in
      bytes (slice a b p) ++ bytes (slice b e p) ≡ bytes (slice a e p)
unfolding bytes slice
join_parts s16 rate c pts xs ys a b e h h' =
    cut_s16 (a * c) (b * c) (e * c) xs (mul-le-mul_right c h) (mul-le-mul_right c h')
join_parts f32 rate c pts xs ys a b e h h' =
    cut_f32 (a * c) (b * c) (e * c) ys (mul-le-mul_right c h) (mul-le-mul_right c h')
join_parts unknown rate c pts xs ys a b e h h' =
    cut_s16 (a * c) (b * c) (e * c) xs (mul-le-mul_right c h) (mul-le-mul_right c h')

bytes-slice_join :
    (a b e : ℕ) (p : Pcm)
    → a ≤ b
    → b ≤ e
    → bytes (slice a b p) ++ bytes (slice b e p) ≡ bytes (slice a e p)
bytes-slice_join a b e p h h' =
    join_parts p.format p.sample_rate p.channels p.pts p.s16_samples p.f32_samples a b e h h'

nil_parts :
    (format : Format) (rate channels : ℕ) (pts : ℤ) (xs : List ℤ) (ys : List ℕ) (a e : ℕ)
    → e ≤ a
    → bytes (slice a e (make format rate channels pts xs ys)) ≡ []
unfolding bytes slice write_s16 write_f32
nil_parts s16 rate c pts xs ys a e h =
    ap write_s16 (cut-nil (a * c) (e * c) xs (mul-le-mul_right c h))
nil_parts f32 rate c pts xs ys a e h =
    ap write_f32 (cut-nil (a * c) (e * c) ys (mul-le-mul_right c h))
nil_parts unknown rate c pts xs ys a e h =
    ap write_s16 (cut-nil (a * c) (e * c) xs (mul-le-mul_right c h))

bytes-slice_nil : (a e : ℕ) (p : Pcm) → e ≤ a → bytes (slice a e p) ≡ []
bytes-slice_nil a e p h =
    nil_parts p.format p.sample_rate p.channels p.pts p.s16_samples p.f32_samples a e h

take_all {ℓ} : {A : Type ℓ} (n : ℕ) (xs : List A) → length xs ≡ n → take n xs ≡ xs
take_all n xs e = ap (λ k. take k xs) (sym e) ∙ take-length_all xs

all_parts :
    (format : Format) (rate channels : ℕ) (pts : ℤ) (xs : List ℤ) (ys : List ℕ) (e : ℕ)
    → num_samples (make format rate channels pts xs ys) ≡ e * channels
    → bytes (slice 0 e (make format rate channels pts xs ys))
      ≡ bytes (make format rate channels pts xs ys)
unfolding bytes slice
all_parts s16 rate c pts xs ys e h =
    ap (λ k. write_s16 (drop k (take (e * c) xs))) {y = 0} (omega arith)
    ∙ ap write_s16 (take_all (e * c) xs h)
all_parts f32 rate c pts xs ys e h =
    ap (λ k. write_f32 (drop k (take (e * c) ys))) {y = 0} (omega arith)
    ∙ ap write_f32 (take_all (e * c) ys h)
all_parts unknown rate c pts xs ys e h =
    ap (λ k. write_s16 (drop k (take (e * c) xs))) {y = 0} (omega arith)
    ∙ ap write_s16 (take_all (e * c) xs h)

and_false : (b : Bool) → (b && false) ≡ false
and_false true = refl
and_false false = refl

pub chunk_at-unpadded :
    (i size : ℕ) (p : Pcm) → chunk_at i size false p ≡ slice i (min (i + size) (len p)) p
unfolding chunk_at
chunk_at-unpadded i size p =
    let c : Pcm = slice i (min (i + size) (len p)) p in
    ap (λ b. if b then pad_to size pad_end c else c)
      (and_false (ltb (min (i + size) (len p) - i) size))

-- What is left from a chunk's end on, where the buffer may have ended before.
rest_from :
    (i size : ℕ) (p : Pcm)
    → i < len p
    → bytes (slice i (min (i + size) (len p)) p) ++ bytes (slice (i + size) (len p) p)
      ≡ bytes (slice i (len p) p)
rest_from i size p h = elim (Bool-cases (leb (i + size) (len p))) [
  | inl within ↦
      ap (λ e. bytes (slice i e p) ++ bytes (slice (i + size) (len p) p)) {y = i + size}
        (ground (arith, within))
      ∙ bytes-slice_join i (i + size) (len p) p (omega arith) (leb→le (i + size) (len p) within)
  | inr beyond ↦
      ap₂ (λ e l. bytes (slice i e p) ++ l)
        (let short : min (i + size) (len p) ≡ len p = ground (arith, beyond) in short)
        (bytes-slice_nil (i + size) (len p) p (ground (arith, beyond)))
      ∙ append-nil (bytes (slice i (len p) p))
]

-- The chunks from frame `i` on are the buffer from there on.
joined-chunks_from :
    (fuel i size : ℕ) (p : Pcm)
    → 0 < size
    → len p ≤ i + fuel
    → joined (chunks_from fuel i size size false p) ≡ bytes (slice i (len p) p)
unfolding joined chunks_from chunk_at
joined-chunks_from zero i size p h enough = sym (bytes-slice_nil i (len p) p (omega arith))
joined-chunks_from (suc fuel) i size p h enough =
    let rest : List Pcm = chunks_from fuel (i + size) size size false p in
    elim (Bool-cases (ltb i (len p))) [
      | inl more ↦
          ap (λ b. joined (if b then chunk_at i size false p ∷ rest else [])) more
          ∙ ap₂ (λ c l. bytes c ++ l) (chunk_at-unpadded i size p)
              (joined-chunks_from fuel (i + size) size p h (omega arith))
          ∙ rest_from i size p (ltb→lt i (len p) more)
      | inr over ↦
          ap (λ b. joined (if b then chunk_at i size false p ∷ rest else [])) over
          ∙ sym (bytes-slice_nil i (len p) p (ground (arith, over)))
    ]

-- Chunks that do not overlap and are not padded hold the bytes of the buffer, each once and in order,
-- where the buffer has whole frames and the size is not 0.
pub joined-chunks :
    (size : ℕ) (p : Pcm)
    → 0 < size
    → num_samples p ≡ len p * p.channels
    → joined (chunks size 0 false p) ≡ bytes p
unfolding chunks
joined-chunks size p h whole =
    ap (λ b. joined (if b then [] else chunks_from (len p) 0 size (max 1 (size - 0)) false p))
      {y = false} (ground arith)
    ∙ ap (λ step. joined (chunks_from (len p) 0 size step false p)) {y = size} (omega arith)
    ∙ joined-chunks_from (len p) 0 size p h (omega arith)
    ∙ all_parts p.format p.sample_rate p.channels p.pts p.s16_samples p.f32_samples (len p) whole
