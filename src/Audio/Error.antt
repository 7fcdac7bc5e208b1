-- ===== src/Audio/Error.antt =====
-- audio/g711.go: how far a sample is from what comes back.
use getstream_go_webrtc.Base.{
  ℕ, ◌+◌, ◌-◌, ◌/◌, ◌≤◌, ◌<◌, ◌≡◌, refl, Bool, true, ◌&&◌, leb, leb→le, max, arith,
}
use getstream_go_webrtc.Base.Int.{ℤ, pos, negsuc, pos_part, neg_part}
use getstream_go_webrtc.Audio.G711.{
  Law, mu_law, a_law, encode_mu_law, encode_a_law, decode_mu_law, decode_a_law, decode_byte,
  encode_sample,
}
use getstream_go_webrtc.Audio.Companding.{holds_below, holds_below_lem}

-- The distance of two samples.
abbrev pub apart : ℤ → ℤ → ℕ
apart a b =
    (pos_part a + neg_part b)
    - (pos_part b + neg_part a)
    + ((pos_part b + neg_part a) - (pos_part a + neg_part b))

abbrev pub size : ℤ → ℕ
size a = pos_part a + neg_part a

-- A 32nd of the sample, and the smallest half step of the law.
abbrev pub tolerance : Law → ℤ → ℕ
tolerance mu_law s = (size s + 0x84) / 32
tolerance a_law s = max 8 (size s / 32)

abbrev pub is_close : Law → ℤ → Bool
is_close law s = leb (apart (decode_byte law (encode_sample law s)) s) (tolerance law s)

mu_law_close : holds_below 32768 (λ n. is_close mu_law (pos n) && is_close mu_law (negsuc n)) ≡ true
unfolding holds_below encode_mu_law decode_mu_law
mu_law_close = refl

a_law_close : holds_below 32768 (λ n. is_close a_law (pos n) && is_close a_law (negsuc n)) ≡ true
unfolding holds_below encode_a_law decode_a_law
a_law_close = refl

close_both :
    (law : Law) (n : ℕ) → n < 32768 → (is_close law (pos n) && is_close law (negsuc n)) ≡ true
close_both mu_law n lt =
    holds_below_lem 32768 (λ n. is_close mu_law (pos n) && is_close mu_law (negsuc n)) n
      mu_law_close lt
close_both a_law n lt =
    holds_below_lem 32768 (λ n. is_close a_law (pos n) && is_close a_law (negsuc n)) n a_law_close
      lt

-- Whatever sample of 16 bits is encoded, what comes back is within a 32nd of it, or within the
-- smallest half step of the law for a quiet one.
pub decode-encode_close :
    (law : Law) (n : ℕ)
    → n < 32768
    → (apart (decode_byte law (encode_sample law (pos n))) (pos n) ≤ tolerance law (pos n))
      × (apart (decode_byte law (encode_sample law (negsuc n))) (negsuc n)
          ≤ tolerance law (negsuc n))
decode-encode_close law n lt =
    let both = close_both law n lt in
    (
      leb→le (apart (decode_byte law (encode_sample law (pos n))) (pos n)) (tolerance law (pos n))
          (and_left (is_close law (pos n)) (is_close law (negsuc n)) both),
      leb→le (apart (decode_byte law (encode_sample law (negsuc n))) (negsuc n))
          (tolerance law (negsuc n))
          (and_right (is_close law (pos n)) (is_close law (negsuc n)) both),
    )
  where
    and_left : (a b : Bool) → (a && b) ≡ true → a ≡ true
    and_left a b h = ground arith

    and_right : (a b : Bool) → (a && b) ≡ true → b ≡ true
    and_right a b h = ground arith
