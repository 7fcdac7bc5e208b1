-- ===== src/Nack/Rtx.antt =====
-- internal/nack: `packetFactoryCopy.NewPacket`, which copies a packet and, for a stream with an RTX
-- SSRC, turns the copy into a retransmission packet. The sequencer's number is an argument.
use getstream_go_webrtc.Base.{
  ℕ, zero, suc, ◌+◌, ◌-◌, ◌*◌, ◌/◌, ◌%◌, ◌^◌, ◌≤◌, ◌<◌, ◌≡◌, ◌≢◌, refl, ap, ◌∙◌, Bool, false, not,
  ◌&&◌, Option, none, some, List, [], ◌∷◌, ◌++◌, take, length, arith, ltb, ◌==◌, if◌then◌else◌,
  length-take,
}
use getstream_go_webrtc.Base.Result.{Result, ok, err}

pub record Header : Type 0 where
  pub sequence_number : ℕ
  pub ssrc : ℕ
  pub payload_type : ℕ
  pub padding : Bool
  pub padding_size : ℕ

pub data Error : Type 0 where
  short_buffer padding_overflow : Error

abbrev pub max_payload_len : ℕ
max_payload_len = 1460

-- `binary.BigEndian.PutUint16`
abbrev pub two_bytes : ℕ → List ℕ
two_bytes n = n / 256 % 256 ∷ n % 256 ∷ []

-- `(*packet.buffer)[rtxSSRCByteLength:]` has this much room for the payload.
abbrev pub rtx_room : ℕ
rtx_room = max_payload_len - 2

abbrev pub last_byte : List ℕ → ℕ
last_byte [] = 0
last_byte (b ∷ []) = b
last_byte (b ∷ c ∷ bs) = last_byte (c ∷ bs)

-- The removal of padding, of a header whose `Padding` is set.
strip_padding : Header → List ℕ → Result Error (Header × List ℕ)
strip_padding h payload =
    let padding_length = last_byte payload in
    let h' = record h { padding = false; padding_size = 0 } in
    if h.padding_size == 0 && ltb 0 (length payload)
    then if ltb (length payload) padding_length
      then err padding_overflow
      else ok (h', take (length payload - padding_length) payload)
    else ok (h', payload)

-- The header and the payload of the copy; a nil payload is `[]`.
unfoldable pub new_packet : Header → List ℕ → ℕ → ℕ → ℕ → Result Error (Header × List ℕ)
unfolding strip_padding
new_packet header payload rtx_ssrc rtx_payload_type next_seq =
    let copied = two_bytes header.sequence_number ++ take rtx_room payload in
    let h = record header {
      ssrc = rtx_ssrc;
      payload_type = rtx_payload_type;
      sequence_number = next_seq;
    } in
    if ltb max_payload_len (length payload)
    then err short_buffer
    else if not (rtx_ssrc == 0) && not (rtx_payload_type == 0)
    then if h.padding then strip_padding h copied else ok (h, copied)
    else ok (header, payload)

-- What a receiver reads back of a retransmission packet: the original number and payload.
pub unwrap : List ℕ → Option (ℕ × List ℕ)
unwrap (hi ∷ lo ∷ rest) = some (hi * 256 + lo, rest)
unwrap _ = none

take_all : (n : ℕ) (xs : List ℕ) → length xs ≤ n → take n xs ≡ xs
take_all zero [] h = refl
take_all zero (x ∷ xs) h = absurd (omega arith)
take_all (suc n) [] h = refl
take_all (suc n) (x ∷ xs) h = ap (λ l. x ∷ l) (take_all n xs (omega arith))

unwrap-two_bytes : (n : ℕ) (l : List ℕ) → n < 2 ^ 16 → unwrap (two_bytes n ++ l) ≡ some (n, l)
unfolding unwrap
unwrap-two_bytes n l h =
    let e : n / 256 % 256 * 256 + n % 256 ≡ n = omega arith in λ i. some (e i, l)

module _ (h : Header) (payload : List ℕ) (ssrc pt next : ℕ) (rtx : 0 < ssrc) (typed : 0 < pt)
    (plain : h.padding ≡ false) (short : h.sequence_number < 2 ^ 16) where
  sent : Header × List ℕ
  sent = (
    record h { ssrc = ssrc; payload_type = pt; sequence_number = next },
    two_bytes h.sequence_number ++ take rtx_room payload,
  )

  sent_lem : length payload ≤ max_payload_len → new_packet h payload ssrc pt next ≡ ok sent
  unfolding new_packet sent
  sent_lem le =
      let fits : ltb max_payload_len (length payload) ≡ false = ground arith in
      let on : (ssrc == 0) ≡ false = ground arith in
      let on' : (pt == 0) ≡ false = ground arith in rw (fits, on, on', plain) refl

  -- A packet without padding whose payload leaves room for the two-byte prefix can be recovered
  -- whole from its retransmission, which has the RTX stream's SSRC, payload type and number.
  pub unwrap-new_packet :
      length payload ≤ rtx_room
      → (sent : Header × List ℕ) × (new_packet h payload ssrc pt next ≡ ok sent)
        × (unwrap sent.1 ≡ some (h.sequence_number, payload))
        × (sent.0.ssrc ≡ ssrc)
        × (sent.0.payload_type ≡ pt)
        × (sent.0.sequence_number ≡ next)
  unfolding sent
  unwrap-new_packet room = (
    sent,
    sent_lem (omega arith),
    unwrap-two_bytes h.sequence_number (take rtx_room payload) short
        ∙ ap (λ l. some (h.sequence_number, l)) (take_all rtx_room payload room),
    refl,
    refl,
    refl,
  )

  -- A payload of 1459 or 1460 bytes passes the length check and loses its last bytes: the
  -- retransmission carries only the first 1458.
  pub rtx_truncates :
      rtx_room < length payload
      → length payload ≤ max_payload_len
      → (sent : Header × List ℕ) × (new_packet h payload ssrc pt next ≡ ok sent)
        × (unwrap sent.1 ≡ some (h.sequence_number, take rtx_room payload))
        × (take rtx_room payload ≢ payload)
  unfolding sent
  rtx_truncates lo hi = (
    sent,
    sent_lem hi,
    unwrap-two_bytes h.sequence_number (take rtx_room payload) short,
    λ e. absurd (omega (arith, ap (λ (l : List ℕ). length l) e, length-take rtx_room payload)),
  )
