-- ===== src/Audio/Wav/Walk.antt =====
-- audio/wav.go: the loop over the chunks of a file.
use getstream_go_webrtc.Base.{
  ℕ, zero, suc, ◌+◌, ◌/◌, ◌%◌, ◌^◌, ◌≤◌, ◌<◌, min, ◌≡◌, refl, sym, subst₂, Bool-cases, inl, inr,
  leb, drop-nil, ap, ap₂, ◌∙◌, false, List, [], ◌∷◌, ◌++◌, append-nil, arith, ◌==◌, if◌then◌else◌,
  length, take, drop, length-append, length-drop, take-length-append, drop-length-append,
}
use getstream_go_webrtc.Base.Result.{Result, ok, err, ◌>>=◌}
use getstream_go_webrtc.Audio.Words.{le32, bytes32}
use getstream_go_webrtc.Audio.Format.{Error}
use getstream_go_webrtc.Audio.Wav.{
  ChunkId, riff, wave, fmt_chunk, fact, data_chunk, ascii, write_chunk, Found, on_chunk, walk,
}

abbrev pub on_id : ChunkId → List ℕ → Found → Result Error Found
on_id id chunk found = elim (ascii id) [
  | c0 ∷ c1 ∷ c2 ∷ c3 ∷ rest ↦ on_chunk c0 c1 c2 c3 chunk found
  | _ ↦ ok found
]

walk-round :
    (fuel b0 b1 b2 b3 n0 n1 n2 n3 : ℕ) (payload rest : List ℕ) (found : Found)
    → le32 n0 n1 n2 n3 ≡ length payload
    → length payload % 2 ≡ 0
    → walk (suc fuel) (b0 ∷ b1 ∷ b2 ∷ b3 ∷ n0 ∷ n1 ∷ n2 ∷ n3 ∷ (payload ++ rest)) found
      ≡ (on_chunk b0 b1 b2 b3 payload found >>= walk fuel rest)
unfolding walk
walk-round fuel b0 b1 b2 b3 n0 n1 n2 n3 payload rest found e even =
    let here : min (le32 n0 n1 n2 n3) (length (payload ++ rest)) ≡ length payload =
      omega (arith, e, length-append payload rest) in
    let go : ℕ → ℕ → Result Error Found = λ k skip.
      on_chunk b0 b1 b2 b3 (take k (payload ++ rest)) found
      >>= walk fuel (drop skip (payload ++ rest)) in
    ap (λ k. go k (k + k % 2)) here
    ∙ ap (go (length payload)) {y = length payload} (omega (arith, even))
    ∙ ap₂ (λ chunk left. on_chunk b0 b1 b2 b3 chunk found >>= walk fuel left)
        (take-length-append payload rest) (drop-length-append payload rest)

no_padding :
    (payload rest : List ℕ)
    → length payload % 2 ≡ 0
    → payload ++ (if length payload % 2 == 1 then 0 ∷ [] else []) ++ rest ≡ payload ++ rest
no_padding payload rest even =
    ap (λ b. payload ++ (if b then 0 ∷ [] else []) ++ rest) {y = false} (ground (arith, even))
    ∙ ap (λ l. l ++ rest) (append-nil payload)

pub size_bytes :
    (n : ℕ)
    → n < 2 ^ 32
    → le32 (n % 256) (n / 2 ^ 8 % 256) (n / 2 ^ 16 % 256) (n / 2 ^ 24 % 256) ≡ n
size_bytes n h = omega arith

-- One round reads a chunk of even length as it was written.
pub walk-write_chunk :
    (fuel : ℕ) (id : ChunkId) (payload rest : List ℕ) (found : Found)
    → length payload % 2 ≡ 0
    → length payload < 2 ^ 32
    → walk (suc fuel) (write_chunk id payload ++ rest) found
      ≡ (on_id id payload found >>= walk fuel rest)
unfolding walk write_chunk
walk-write_chunk fuel fmt_chunk payload rest found even short =
    ap (λ l. walk (suc fuel) (ascii fmt_chunk ++ bytes32 (length payload) ++ l) found)
      (no_padding payload rest even)
    ∙ walk-round fuel 102 109 116 32 (length payload % 256) (length payload / 2 ^ 8 % 256)
        (length payload / 2 ^ 16 % 256) (length payload / 2 ^ 24 % 256) payload rest found
        (size_bytes (length payload) short) even
walk-write_chunk fuel data_chunk payload rest found even short =
    ap (λ l. walk (suc fuel) (ascii data_chunk ++ bytes32 (length payload) ++ l) found)
      (no_padding payload rest even)
    ∙ walk-round fuel 100 97 116 97 (length payload % 256) (length payload / 2 ^ 8 % 256)
        (length payload / 2 ^ 16 % 256) (length payload / 2 ^ 24 % 256) payload rest found
        (size_bytes (length payload) short) even
walk-write_chunk fuel fact payload rest found even short =
    ap (λ l. walk (suc fuel) (ascii fact ++ bytes32 (length payload) ++ l) found)
      (no_padding payload rest even)
    ∙ walk-round fuel 102 97 99 116 (length payload % 256) (length payload / 2 ^ 8 % 256)
        (length payload / 2 ^ 16 % 256) (length payload / 2 ^ 24 % 256) payload rest found
        (size_bytes (length payload) short) even
walk-write_chunk fuel riff payload rest found even short =
    ap (λ l. walk (suc fuel) (ascii riff ++ bytes32 (length payload) ++ l) found)
      (no_padding payload rest even)
    ∙ walk-round fuel 82 73 70 70 (length payload % 256) (length payload / 2 ^ 8 % 256)
        (length payload / 2 ^ 16 % 256) (length payload / 2 ^ 24 % 256) payload rest found
        (size_bytes (length payload) short) even
walk-write_chunk fuel wave payload rest found even short =
    ap (λ l. walk (suc fuel) (ascii wave ++ bytes32 (length payload) ++ l) found)
      (no_padding payload rest even)
    ∙ walk-round fuel 87 65 86 69 (length payload % 256) (length payload / 2 ^ 8 % 256)
        (length payload / 2 ^ 16 % 256) (length payload / 2 ^ 24 % 256) payload rest found
        (size_bytes (length payload) short) even

-- How the loop ends, however many rounds that takes: when less than the header of a chunk is left, or with
-- the error of a chunk; a chunk that is read is left behind, with its header and padding.
pub data LoopsTo : List ℕ → Found → Result Error Found → Type 0 where
  short : (input : List ℕ) (found : Found) → length input < 8 → LoopsTo input found (ok found)
  fails :
      (b0 b1 b2 b3 n0 n1 n2 n3 : ℕ) (rest : List ℕ) (found : Found) (e : Error)
      → on_chunk b0 b1 b2 b3 (take (le32 n0 n1 n2 n3) rest) found ≡ err e
      → LoopsTo (b0 ∷ b1 ∷ b2 ∷ b3 ∷ n0 ∷ n1 ∷ n2 ∷ n3 ∷ rest) found (err e)
  goes :
      (b0 b1 b2 b3 n0 n1 n2 n3 : ℕ) (rest : List ℕ) (found found' : Found) (r : Result Error Found)
      → on_chunk b0 b1 b2 b3 (take (le32 n0 n1 n2 n3) rest) found ≡ ok found'
      → LoopsTo (drop (le32 n0 n1 n2 n3 + le32 n0 n1 n2 n3 % 2) rest) found' r
      → LoopsTo (b0 ∷ b1 ∷ b2 ∷ b3 ∷ n0 ∷ n1 ∷ n2 ∷ n3 ∷ rest) found r

module _ {ℓ} {A : Type ℓ} where
  take-min : (n : ℕ) (xs : List A) → take (min n (length xs)) xs ≡ take n xs
  take-min zero xs = ap (λ k. take k xs) {y = 0} (omega arith)
  take-min (suc n) [] = ap (λ k. take k []) {y = 0} (omega arith)
  take-min (suc n) (x ∷ xs) =
      ap (λ k. take k (x ∷ xs)) {y = suc (min n (length xs))} (omega arith)
      ∙ ap (λ l. x ∷ l) (take-min n xs)

  drop_beyond : (n : ℕ) (xs : List A) → length xs ≤ n → drop n xs ≡ []
  drop_beyond n [] h = drop-nil n
  drop_beyond zero (x ∷ xs) h = absurd (omega arith)
  drop_beyond (suc n) (x ∷ xs) h = drop_beyond n xs (omega arith)

  drop-min :
      (n : ℕ) (xs : List A)
      → drop (min n (length xs) + min n (length xs) % 2) xs ≡ drop (n + n % 2) xs
  drop-min n xs = elim (Bool-cases (leb n (length xs))) [
    | inl within ↦
        ap (λ k. drop (k + k % 2) xs) {y = n}
          (let e : min n (length xs) ≡ n = ground (arith, within) in e)
    | inr beyond ↦
        drop_beyond (min n (length xs) + min n (length xs) % 2) xs (ground (arith, beyond))
        ∙ sym (drop_beyond (n + n % 2) xs (ground (arith, beyond)))
  ]

-- One round, with what the chunk gives
round-LoopsTo :
    (fuel b0 b1 b2 b3 n0 n1 n2 n3 : ℕ) (rest : List ℕ) (found : Found) (r : Result Error Found)
    → on_chunk b0 b1 b2 b3 (take (le32 n0 n1 n2 n3) rest) found ≡ r
    → let left : List ℕ = drop (le32 n0 n1 n2 n3 + le32 n0 n1 n2 n3 % 2) rest in
      ((found' : Found) → LoopsTo left found' (walk fuel left found'))
      → LoopsTo (b0 ∷ b1 ∷ b2 ∷ b3 ∷ n0 ∷ n1 ∷ n2 ∷ n3 ∷ rest) found (r >>= walk fuel left)
round-LoopsTo fuel b0 b1 b2 b3 n0 n1 n2 n3 rest found (err e) got later =
    fails b0 b1 b2 b3 n0 n1 n2 n3 rest found e got
round-LoopsTo fuel b0 b1 b2 b3 n0 n1 n2 n3 rest found (ok found') got later =
    goes b0 b1 b2 b3 n0 n1 n2 n3 rest found found' _ got (later found')

walk-LoopsTo :
    (fuel : ℕ) (input : List ℕ) (found : Found)
    → length input ≤ fuel
    → LoopsTo input found (walk fuel input found)
unfolding walk
walk-LoopsTo zero [] found h = short [] found (omega arith)
walk-LoopsTo zero (b ∷ input) found h = absurd (omega arith)
walk-LoopsTo (suc fuel) (b0 ∷ b1 ∷ b2 ∷ b3 ∷ n0 ∷ n1 ∷ n2 ∷ n3 ∷ rest) found h =
    let size : ℕ = le32 n0 n1 n2 n3 in
    let left : List ℕ = drop (size + size % 2) rest in
    let input : List ℕ = b0 ∷ b1 ∷ b2 ∷ b3 ∷ n0 ∷ n1 ∷ n2 ∷ n3 ∷ rest in
    subst₂
      (λ chunk later. LoopsTo input found (on_chunk b0 b1 b2 b3 chunk found >>= walk fuel later))
      (sym (take-min size rest)) (sym (drop-min size rest))
      (round-LoopsTo fuel b0 b1 b2 b3 n0 n1 n2 n3 rest found
        (on_chunk b0 b1 b2 b3 (take size rest) found) refl
        (λ found'.
          walk-LoopsTo fuel left found' (omega (arith, length-drop (size + size % 2) rest))))
walk-LoopsTo (suc fuel) [] found h = short [] found (omega arith)
walk-LoopsTo (suc fuel) (b0 ∷ []) found h = short _ found (omega arith)
walk-LoopsTo (suc fuel) (b0 ∷ b1 ∷ []) found h = short _ found (omega arith)
walk-LoopsTo (suc fuel) (b0 ∷ b1 ∷ b2 ∷ []) found h = short _ found (omega arith)
walk-LoopsTo (suc fuel) (b0 ∷ b1 ∷ b2 ∷ b3 ∷ []) found h = short _ found (omega arith)
walk-LoopsTo (suc fuel) (b0 ∷ b1 ∷ b2 ∷ b3 ∷ b4 ∷ []) found h = short _ found (omega arith)
walk-LoopsTo (suc fuel) (b0 ∷ b1 ∷ b2 ∷ b3 ∷ b4 ∷ b5 ∷ []) found h = short _ found (omega arith)
walk-LoopsTo (suc fuel) (b0 ∷ b1 ∷ b2 ∷ b3 ∷ b4 ∷ b5 ∷ b6 ∷ []) found h =
    short _ found (omega arith)

-- The loop over the chunks ends for every input, also one whose chunks have size 0: after finitely many
-- rounds it has less than a chunk's header left, or the error of a chunk. With as many rounds as the input
-- has bytes, or more, `walk` gives what it ends with.
pub walk_ends :
    (extra : ℕ) (input : List ℕ) (found : Found)
    → LoopsTo input found (walk (length input + extra) input found)
walk_ends extra input found = walk-LoopsTo (length input + extra) input found (omega arith)
