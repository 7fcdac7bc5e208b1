-- ===== src/Audio/Tests.antt =====
-- audio on a few samples.
use getstream_go_webrtc.Base.{ℕ, ◌-◌, ◌%◌, ◌≤◌, ◌≡◌, some, List, [], ◌∷◌, map, take, length, arith}
use getstream_go_webrtc.Base.Int.{pos, negsuc}
use getstream_go_webrtc.Base.Result.{ok, ◌>>=◌}
use getstream_go_webrtc.Audio.G711.{mu_law, a_law, decode_byte, encode_sample, from_g711, to_g711}
use getstream_go_webrtc.Audio.Companding.{canonical, to_g711-from_g711}
use getstream_go_webrtc.Audio.Error.{apart, tolerance, decode-encode_close}

abbrev bytes : List ℕ
bytes = 0x7F ∷ 3 ∷ 200 ∷ 0x55 ∷ 9 ∷ []

to_g711-from_g711_example :
    (from_g711 (some mu_law) 8000 2 bytes
      >>= to_g711 (λ bits. pos 0) (λ sample. 0) (λ format rate channels p. ok p) (some mu_law))
    ≡ ok (map (canonical mu_law) (take (length bytes - length bytes % 2) bytes))
to_g711-from_g711_example =
    to_g711-from_g711 (λ bits. pos 0) (λ sample. 0) (λ format rate channels p. ok p) mu_law 2 bytes
      (omega arith) (ground arith)

decode-encode_close_example :
    (apart (decode_byte a_law (encode_sample a_law (pos 32767))) (pos 32767)
      ≤ tolerance a_law (pos 32767))
    × (apart (decode_byte a_law (encode_sample a_law (negsuc 32767))) (negsuc 32767)
        ≤ tolerance a_law (negsuc 32767))
decode-encode_close_example = decode-encode_close a_law 32767 (omega arith)
