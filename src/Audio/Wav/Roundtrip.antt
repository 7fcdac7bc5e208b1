-- ===== src/Audio/Wav/Roundtrip.antt =====
-- audio/wav.go: ReadWAV of what WriteWAV wrote.
use getstream_go_webrtc.Base.{
  ℕ, zero, suc, ◌+◌, ◌*◌, ◌/◌, ◌%◌, ◌^◌, ◌<◌, ◌≡◌, refl, sym, ap, ap₂, subst, ◌∙◌, ◌≢◌, true, false,
  none, some, List, [], ◌++◌, append-nil, arith, length,
}
use getstream_go_webrtc.Base.Int.{ℤ, pos}
use getstream_go_webrtc.Base.Result.{ok, err, ◌>>=◌}
use getstream_go_webrtc.Audio.Words.{le16, bytes32, length-write_s16, length-write_f32}
use getstream_go_webrtc.Audio.Format.{Format, s16, f32, unknown, bytes_per_sample, validate}
use getstream_go_webrtc.Audio.Pcm.{Pcm, write_samples, len, bytes, from_bytes, or_error}
use getstream_go_webrtc.Audio.Pcm.Encoding.{IsWhole, make, unknown-invalid, from_bytes-bytes}
use getstream_go_webrtc.Audio.Wav.{
  riff, wave, ascii, fmt_chunk, fact, data_chunk, write_chunk, fmt_payload, format_tag_of,
  fact_part, body_size, write_wav, Found, nothing_found, on_format, on_chunk, walk,
}
use getstream_go_webrtc.Audio.Wav.Decode.{decode_wav, read_wav, wav_from_int}
use getstream_go_webrtc.Audio.Wav.Walk.{size_bytes, walk-write_chunk}

-- The fields of a header hold the parameters of the buffer and the sizes.
abbrev pub FitsHeader : Pcm → Type 0
FitsHeader p = (p.channels < 2 ^ 16) × (p.sample_rate < 2 ^ 32) × (length (bytes p) < 2 ^ 32)

length-fmt_payload : (p : Pcm) → length (fmt_payload p) ≡ 16
unfolding fmt_payload
length-fmt_payload p = refl

-- What reading finds in the header that was written, with the payload
abbrev found_for : Format → ℕ → ℕ → List ℕ → Found
found_for f r c payload = record {
  format_tag = format_tag_of f;
  channels = c;
  sample_rate = r;
  bits_per_sample = bytes_per_sample f * 8;
  payload = payload;
  have_format = true;
  have_payload = true;
}

word16 : (n : ℕ) → n < 2 ^ 16 → le16 (n % 256) (n / 2 ^ 8 % 256) ≡ n
word16 n h = omega arith

on_format-fmt_payload :
    (f : Format) (r c : ℕ) (pts : ℤ) (xs : List ℤ) (ys : List ℕ)
    → f ≢ unknown
    → c < 2 ^ 16
    → r < 2 ^ 32
    → on_format (fmt_payload (make f r c pts xs ys)) nothing_found
      ≡ ok (record (found_for f r c []) { have_payload = false })
unfolding on_format fmt_payload
on_format-fmt_payload s16 r c pts xs ys known h h' =
    ap₂ (λ ch rate. ok (record (found_for s16 rate ch []) { have_payload = false })) (word16 c h)
      (size_bytes r h')
on_format-fmt_payload f32 r c pts xs ys known h h' =
    ap₂ (λ ch rate. ok (record (found_for f32 rate ch []) { have_payload = false })) (word16 c h)
      (size_bytes r h')
on_format-fmt_payload unknown r c pts xs ys known h h' = absurd (known refl)

walk-nil : (fuel : ℕ) (found : Found) → walk fuel [] found ≡ ok found
unfolding walk
walk-nil zero found = refl
walk-nil (suc fuel) found = refl

walk-last :
    (fuel : ℕ) (payload : List ℕ) (found : Found)
    → length payload % 2 ≡ 0
    → length payload < 2 ^ 32
    → walk (suc fuel) (write_chunk data_chunk payload) found
      ≡ ok (record found { payload = payload; have_payload = true })
unfolding on_chunk
walk-last fuel payload found even short =
    ap (λ l. walk (suc fuel) l found) (sym (append-nil (write_chunk data_chunk payload)))
    ∙ walk-write_chunk fuel data_chunk payload [] found even short
    ∙ walk-nil fuel (record found { payload = payload; have_payload = true })

walk-rest :
    (fuel : ℕ) (f : Format) (p : Pcm) (content : List ℕ) (found : Found)
    → length content % 2 ≡ 0
    → length content < 2 ^ 32
    → f ≢ unknown
    → walk (suc (suc fuel)) (fact_part f p ++ write_chunk data_chunk content) found
      ≡ ok (record found { payload = content; have_payload = true })
unfolding fact_part on_chunk
walk-rest fuel s16 p content found even short known = walk-last (suc fuel) content found even short
walk-rest fuel f32 p content found even short known =
    walk-write_chunk (suc fuel) fact (bytes32 (len p)) (write_chunk data_chunk content) found refl
      (omega arith)
    ∙ walk-last fuel content found even short
walk-rest fuel unknown p content found even short known = absurd (known refl)

-- The chunks of a file, read one after the other.
walk-file :
    (fuel : ℕ) (f : Format) (r c : ℕ) (pts : ℤ) (xs : List ℤ) (ys content : List ℕ)
    → f ≢ unknown
    → c < 2 ^ 16
    → r < 2 ^ 32
    → length content % 2 ≡ 0
    → length content < 2 ^ 32
    → walk
        (suc (suc (suc fuel)))
        (write_chunk fmt_chunk (fmt_payload (make f r c pts xs ys))
          ++ (fact_part f (make f r c pts xs ys) ++ write_chunk data_chunk content))
        nothing_found
      ≡ ok (found_for f r c content)
unfolding on_chunk fact_part
walk-file fuel f r c pts xs ys content known h h' even short =
    let p : Pcm = make f r c pts xs ys in
    let found : Found = record (found_for f r c []) { have_payload = false } in
    walk-write_chunk (suc (suc fuel)) fmt_chunk (fmt_payload p)
      (fact_part f p ++ write_chunk data_chunk content) nothing_found
      (ap (λ k. k % 2) (length-fmt_payload p)) (omega (arith, length-fmt_payload p))
    ∙ ap (λ e. e >>= walk (suc (suc fuel)) (fact_part f p ++ write_chunk data_chunk content))
        (on_format-fmt_payload f r c pts xs ys known h h')
    ∙ walk-rest fuel f p content found even short known

valid_both : (r c : ℕ) → validate f32 r c ≡ none → validate s16 r c ≡ none
unfolding validate
valid_both r c valid = valid

decode-found :
    (shorten : ℕ → ℕ) (f : Format) (r c : ℕ) (content : List ℕ)
    → validate f r c ≡ none
    → decode_wav shorten (found_for f r c content) ≡ from_bytes content f r c
unfolding decode_wav wav_from_int
decode-found shorten s16 r c content valid =
    ap (λ t. elim t [ some e ↦ err e | none ↦ from_bytes content s16 r c ]) valid
decode-found shorten f32 r c content valid =
    ap (λ t. elim t [ some e ↦ err e | none ↦ from_bytes content f32 r c ]) (valid_both r c valid)
decode-found shorten unknown r c content valid = absurd (unknown-invalid r c valid)

known : (f : Format) (r c : ℕ) → validate f r c ≡ none → f ≢ unknown
known f r c valid e = unknown-invalid r c (subst (λ g. validate g r c ≡ none) e valid)

even_parts : (f : Format) (xs : List ℤ) (ys : List ℕ) → length (write_samples f xs ys) % 2 ≡ 0
even_parts s16 xs ys = omega (arith, length-write_s16 xs)
even_parts f32 xs ys = omega (arith, length-write_f32 ys)
even_parts unknown xs ys = omega (arith, length-write_s16 xs)

even_bytes : (p : Pcm) → length (bytes p) % 2 ≡ 0
unfolding bytes
even_bytes p = even_parts p.format p.s16_samples p.f32_samples

read-body :
    (shorten : ℕ → ℕ) (n : ℕ) (body : List ℕ) (found : Found)
    → walk (length body + 12) body nothing_found ≡ ok found
    → read_wav shorten (ascii riff ++ (bytes32 n ++ (ascii wave ++ body)))
      ≡ decode_wav shorten found
unfolding read_wav
read-body shorten n body found e =
    ap (λ k. walk k body nothing_found >>= decode_wav shorten) {y = length body + 12} (omega arith)
    ∙ ap (λ t. t >>= decode_wav shorten) e

-- A file has room for three rounds, and the walk does not ask for more.
read-written :
    (shorten : ℕ → ℕ) (p : Pcm)
    → validate p.format p.sample_rate p.channels ≡ none
    → FitsHeader p
    → (write_wav p >>= read_wav shorten) ≡ from_bytes (bytes p) p.format p.sample_rate p.channels
unfolding write_wav
read-written shorten p valid (h, h', short) =
    let body : List ℕ =
      write_chunk fmt_chunk (fmt_payload p)
      ++ (fact_part p.format p ++ write_chunk data_chunk (bytes p)) in
    let file : List ℕ = ascii riff ++ (bytes32 (body_size p) ++ (ascii wave ++ body)) in
    ap (λ e. or_error e file >>= read_wav shorten) valid
    ∙ read-body shorten (body_size p) body (found_for p.format p.sample_rate p.channels (bytes p)) (
        ap (λ k. walk k body nothing_found) {y = suc (suc (suc (length body + 9)))} (omega arith)
        ∙ walk-file (length body + 9) p.format p.sample_rate p.channels p.pts p.s16_samples
            p.f32_samples (bytes p) (known p.format p.sample_rate p.channels valid) h h'
            (even_bytes p) short)
    ∙ decode-found shorten p.format p.sample_rate p.channels (bytes p) valid

-- ReadWAV gives back the buffer that WriteWAV wrote, with presentation time 0, if the buffer is whole
-- and its parameters and size fit the fields of the header.
pub read_wav-write_wav :
    (shorten : ℕ → ℕ) (p : Pcm)
    → IsWhole p
    → FitsHeader p
    → (write_wav p >>= read_wav shorten) ≡ ok (record p { pts = pos 0 })
read_wav-write_wav shorten p whole fits =
    read-written shorten p whole.0 fits ∙ from_bytes-bytes p whole
