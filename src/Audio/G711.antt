-- ===== src/Audio/G711.antt =====
-- audio/g711.go: the encoders and decoders of both laws, with the bit operations of the source. An
-- int16 is an integer; the tables hold what the functions that fill them return.
use Prim.Native.Nat.{bit_and, bit_or, bit_xor}
use getstream_go_webrtc.Base.{
  ℕ, zero, suc, ◌+◌, ◌-◌, ◌*◌, ◌/◌, ◌%◌, ◌^◌, Bool, true, false, Option, none, some, List, [], map,
  take, length, ltb, leb, ◌==◌, if◌then◌else◌, min, max,
}
use getstream_go_webrtc.Base.Int.{ℤ, pos, negsuc}
use getstream_go_webrtc.Base.Result.{Result, ok, err, ◌>>=◌}
use getstream_go_webrtc.Audio.Format.{Format, s16, f32, unknown, Error, invalid_law, validate}
use getstream_go_webrtc.Audio.Pcm.{Pcm, empty, with_s16, to_int16_format}

pub data Law : Type 0 where
  mu_law : Law
  a_law : Law

-- `bits.Len8`, of a byte
abbrev pub bit_length : ℕ → ℕ
bit_length b =
    if ltb b 1
    then 0
    else if ltb b 2
    then 1
    else if ltb b 4
    then 2
    else if ltb b 8
    then 3
    else if ltb b 16
    then 4
    else if ltb b 32
    then 5
    else if ltb b 64
    then 6
    else if ltb b 128
    then 7
    else 8

-- `g711Exponent`, as `buildExponentTable` fills it
abbrev pub exponent_of : ℕ → ℕ
exponent_of b = min 7 (bit_length b)

abbrev pub clip : ℕ
clip = 32635

abbrev pub clipped : ℕ → ℕ
clipped n = if ltb clip n then clip else n

-- The magnitude of an int16: -32768 becomes 32767.
abbrev pub magnitude : ℤ → ℕ
magnitude (pos n) = clipped n
magnitude (negsuc n) = clipped (if n == 32767 then 32767 else suc n)

abbrev is_negative : ℤ → Bool
is_negative (pos n) = false
is_negative (negsuc n) = true

abbrev bias : ℕ
bias = 0x84

-- `exponent<<4 | mantissa`
abbrev segment : ℕ → ℕ
segment magnitude =
    let exponent = exponent_of (bit_and (magnitude / 2 ^ 8) 0xFF) in
    let mantissa = bit_and (magnitude / 2 ^ (exponent + 3)) 0x0F in
    bit_or (exponent * 2 ^ 4 % 256) mantissa

unfoldable pub encode_mu_law : ℤ → ℕ
encode_mu_law sample =
    let sign = if is_negative sample then 0x80 else 0 in
    bit_xor (bit_or sign (segment (magnitude sample + bias))) 0xFF

unfoldable pub encode_a_law : ℤ → ℕ
encode_a_law sample =
    let sign = if is_negative sample then 0 else 0x80 in
    let m = magnitude sample in
    bit_xor (bit_or sign (if leb 256 m then segment m else m / 2 ^ 4 % 256)) 0x55

abbrev negated : ℕ → ℤ
negated zero = pos 0
negated (suc n) = negsuc n

unfoldable pub decode_mu_law : ℕ → ℤ
decode_mu_law byte =
    let b = bit_xor byte 0xFF in
    let exponent = bit_and (b / 2 ^ 4) 0x07 in
    let mantissa = bit_and b 0x0F in
    let m = (mantissa * 2 ^ 3 + bias) * 2 ^ exponent - bias in
    if bit_and b 0x80 == 0 then pos m else negated m

unfoldable pub decode_a_law : ℕ → ℤ
decode_a_law byte =
    let b = bit_xor byte 0x55 in
    let exponent = bit_and (b / 2 ^ 4) 0x07 in
    let mantissa = bit_and b 0x0F in
    let m =
      if exponent == 0
      then mantissa * 2 ^ 4 + 8
      else (mantissa * 2 ^ 4 + 0x108) * 2 ^ (exponent - 1) in
    if bit_and b 0x80 == 0 then negated m else pos m

abbrev pub decode_byte : Law → ℕ → ℤ
decode_byte mu_law b = decode_mu_law b
decode_byte a_law b = decode_a_law b

abbrev pub encode_sample : Law → ℤ → ℕ
encode_sample mu_law s = encode_mu_law s
encode_sample a_law s = encode_a_law s

-- The samples that `FromG711` makes of bytes: whole frames only.
unfoldable pub decode_samples : Law → ℕ → List ℕ → List ℤ
decode_samples law channels bytes =
    map (decode_byte law) (take (length bytes - length bytes % channels) bytes)

-- The bytes that `ToG711` makes of samples
unfoldable pub encode_samples : Law → List ℤ → List ℕ
encode_samples law samples = map (encode_sample law) samples

abbrev pub from_valid : Option Law → ℕ → ℕ → List ℕ → Result Error Pcm
from_valid none sample_rate channels bytes = err invalid_law
from_valid (some law) sample_rate channels bytes =
    ok (with_s16 (decode_samples law channels bytes) (empty s16 sample_rate channels))

-- `if err != nil { return err }`, then the rest
abbrev pub or_fail : Option Error → Result Error Pcm → Result Error Pcm
or_fail (some e) rest = err e
or_fail none rest = rest

-- `FromG711`; a law that is neither of the two is `none`.
unfoldable pub from_g711 : Option Law → ℕ → ℕ → List ℕ → Result Error Pcm
from_g711 law sample_rate channels bytes =
    or_fail (validate s16 sample_rate channels) (from_valid law sample_rate channels bytes)

abbrev pub g711_sample_rate : ℕ
g711_sample_rate = 8000

-- `Int16`
abbrev pub int16 : Format → Pcm → List ℤ
int16 s16 p = p.s16_samples
int16 f32 p = []
int16 unknown p = []

-- The conversion from float32 samples and the resampler compute with floating point.
module _ (narrow : ℕ → ℤ) (widen : ℤ → ℕ) (resample : Format → ℕ → ℕ → Pcm → Result Error Pcm) where
  abbrev pub encoded : Law → Pcm → Result Error (List ℕ)
  encoded law p =
      let converted = to_int16_format narrow widen resample p in
      ok (encode_samples law (int16 converted.format converted))

  -- `ToG711`
  unfoldable pub to_g711 : Option Law → Pcm → Result Error (List ℕ)
  to_g711 none p = err invalid_law
  to_g711 (some law) p =
      if p.sample_rate == g711_sample_rate
      then encoded law p
      else resample s16 g711_sample_rate (max 1 p.channels) p >>= encoded law
