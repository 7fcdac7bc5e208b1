-- ===== src/Audio/Companding.antt =====
-- audio/g711.go: how the two directions fit together.
use getstream_go_webrtc.Base.{
  ℕ, zero, suc, ◌-◌, ◌%◌, ◌<◌, ◌≡◌, refl, ap, ap₂, ◌∙◌, none, some, Bool, true, ◌&&◌, List, [], ◌∷◌,
  map, take, length, ◌==◌, ==_iff, if◌then◌else◌, All, arith,
}
use getstream_go_webrtc.Base.Int.{ℤ}
use getstream_go_webrtc.Base.Result.{Result, ok, ◌>>=◌}
use getstream_go_webrtc.Audio.Format.{Format, s16, Error, validate}
use getstream_go_webrtc.Audio.Pcm.{Pcm, with_s16, empty, to_int16_format}
use getstream_go_webrtc.Audio.G711.{
  Law, mu_law, a_law, encode_mu_law, encode_a_law, decode_mu_law, decode_a_law, decode_byte,
  encode_sample, decode_samples, encode_samples, from_g711, to_g711, g711_sample_rate, or_fail,
  from_valid,
}

-- A test that holds of every number below `n`.
unfoldable pub holds_below : ℕ → (ℕ → Bool) → Bool
holds_below zero test = true
holds_below (suc n) test = test n && holds_below n test

pub holds_below_lem :
    (n : ℕ) (test : ℕ → Bool) (x : ℕ) → holds_below n test ≡ true → x < n → test x ≡ true
unfolding holds_below
holds_below_lem zero test x all lt = absurd (omega arith)
holds_below_lem (suc n) test x all lt = ground (arith, holds_below_lem n test x)

-- The bytes that a decoded byte is encoded to; mu-law has two zeros, and the negative one becomes
-- the positive one.
abbrev pub canonical : Law → ℕ → ℕ
canonical mu_law b = if b == 0x7F then 0xFF else b
canonical a_law b = b

mu_law_table : holds_below 256 (λ b. encode_mu_law (decode_mu_law b) == canonical mu_law b) ≡ true
unfolding holds_below encode_mu_law decode_mu_law
mu_law_table = refl

a_law_table : holds_below 256 (λ b. encode_a_law (decode_a_law b) == b) ≡ true
unfolding holds_below encode_a_law decode_a_law
a_law_table = refl

-- Encoding what a byte decodes to gives the byte back, but for the negative zero of mu-law.
encode_decode :
    (law : Law) (b : ℕ) → b < 256 → encode_sample law (decode_byte law b) ≡ canonical law b
encode_decode mu_law b lt = (==_iff (encode_mu_law (decode_mu_law b)) (canonical mu_law b)).0 (
    holds_below_lem 256 (λ b. encode_mu_law (decode_mu_law b) == canonical mu_law b) b mu_law_table
      lt)
encode_decode a_law b lt =
    (==_iff (encode_a_law (decode_a_law b)) b).0
      (holds_below_lem 256 (λ b. encode_a_law (decode_a_law b) == b) b a_law_table lt)

encode-decode_samples :
    (law : Law) (channels : ℕ) (bytes : List ℕ)
    → All (λ b. b < 256) bytes
    → encode_samples law (decode_samples law channels bytes)
      ≡ map (canonical law) (take (length bytes - length bytes % channels) bytes)
unfolding encode_samples decode_samples
encode-decode_samples law channels bytes fits =
    again (length bytes - length bytes % channels) bytes fits
  where
    again :
        (n : ℕ) (bs : List ℕ)
        → All (λ b. b < 256) bs
        → map (encode_sample law) (map (decode_byte law) (take n bs))
          ≡ map (canonical law) (take n bs)
    again zero bs fits = refl
    again (suc n) [] fits = refl
    again (suc n) (b ∷ bs) fits =
        ap₂ (λ x xs. x ∷ xs) (encode_decode law b fits.0) (again n bs fits.1)

validate-s16 : (n : ℕ) → 0 < n → validate s16 g711_sample_rate n ≡ none
unfolding validate
validate-s16 n h = ground (arith, h)

from_g711-decoded :
    (law : Law) (channels : ℕ) (bytes : List ℕ)
    → 0 < channels
    → from_g711 (some law) g711_sample_rate channels bytes
      ≡ ok (with_s16 (decode_samples law channels bytes) (empty s16 g711_sample_rate channels))
unfolding from_g711
from_g711-decoded law channels bytes some_channel =
    ap (λ v. or_fail v (from_valid (some law) g711_sample_rate channels bytes))
      (validate-s16 channels some_channel)

-- Telephony bytes that FromG711 decodes at 8 kHz and ToG711 encodes again lose nothing but the sign of
-- mu-law's zero: neither returns an error, and the bytes of the whole frames come back, if there is at
-- least one channel.
pub to_g711-from_g711 :
    (narrow : ℕ → ℤ) (widen : ℤ → ℕ) (resample : Format → ℕ → ℕ → Pcm → Result Error Pcm)
    (law : Law) (channels : ℕ) (bytes : List ℕ)
    → 0 < channels
    → All (λ b. b < 256) bytes
    → (from_g711 (some law) g711_sample_rate channels bytes
        >>= to_g711 narrow widen resample (some law))
      ≡ ok (map (canonical law) (take (length bytes - length bytes % channels) bytes))
unfolding to_g711 to_int16_format
to_g711-from_g711 narrow widen resample law channels bytes some_channel fits =
    ap (λ r. r >>= to_g711 narrow widen resample (some law))
      (from_g711-decoded law channels bytes some_channel)
    ∙ ap ok (encode-decode_samples law channels bytes fits)
