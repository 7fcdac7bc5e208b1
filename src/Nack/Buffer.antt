-- ===== src/Nack/Buffer.antt =====
-- internal/nack/responder_interceptor.go: `rtpBuffer`. Times are numbers of nanoseconds.
use getstream_go_webrtc.Base.{
  ℕ, zero, suc, ◌+◌, ◌-◌, ◌%◌, ◌^◌, Bool, true, false, Option, none, some, List, get_elem?, set,
  replicate, ltb, leb, ◌==◌, if◌then◌else◌,
}
use getstream_go_webrtc.Red.Packet.{sub16}

-- `retainablePacket`. The buffer holds one reference, so a packet in it has a count of at least 1
-- and `Retain` in `Get` succeeds; a packet that the buffer releases is no longer in it.
pub record Retained : Type 0 where
  pub sequence_number : ℕ
  pub payload : List ℕ
  pub sent_at : ℕ
  -- the zero time is `none`
  pub last_resend_at : Option ℕ
  pub resend_count : ℕ  -- uint8

pub record Buffer : Type 0 where
  pub packets : List (Option Retained)
  pub size : ℕ
  pub highest_added : ℕ
  pub started : Bool

abbrev pub uint16_size_half : ℕ
uint16_size_half = 2 ^ 15

-- The loop of `newRTPBuffer` over `1 << i`, with the rounds left.
abbrev pub is_power : ℕ → ℕ → ℕ → Bool
is_power zero i size = false
is_power (suc rounds) i size =
    let rest = is_power rounds (i + 1) size in if size == 2 ^ i then true else rest

-- `none` is ErrInvalidSize
unfoldable pub new_buffer : ℕ → Option Buffer
new_buffer size =
    if is_power 16 0 size
    then some
        (record { packets = replicate size none; size = size; highest_added = 0; started = false })
    else none

-- `for i := start; i != seq; i++ { r.packets[i%r.size] = nil }`, with the rounds left.
unfoldable pub clear : ℕ → ℕ → ℕ → List (Option Retained) → List (Option Retained)
clear size i zero packets = packets
clear size i (suc rounds) packets =
    clear size ((i + 1) % 2 ^ 16) rounds (set packets (i % size) none)

unfoldable pub add : Buffer → Retained → Buffer
unfolding clear
add r packet =
    let seq = packet.sequence_number in
    let diff = sub16 seq r.highest_added in
    let put = λ (packets : List (Option Retained)). set packets (seq % r.size) (some packet) in
    let first = record r { packets = put r.packets; highest_added = seq; started = true } in
    let newer = record r {
      packets = put (clear r.size ((r.highest_added + 1) % 2 ^ 16) (diff - 1) r.packets);
      highest_added = seq;
    } in
    let late = record r { packets = put r.packets } in
    if r.started
    then if diff == 0 then r else if ltb diff uint16_size_half then newer else late
    else first

-- The packet in a slot, if it is the one asked for.
abbrev pub checked : ℕ → Option (Option Retained) → Option Retained
checked seq (some (some p)) = if p.sequence_number == seq then some p else none
checked seq (some none) = none
checked seq none = none

unfoldable pub get : Buffer → ℕ → Option Retained
get r seq =
    let diff = sub16 r.highest_added seq in
    if leb uint16_size_half diff
    then none
    else if leb r.size diff
    then none
    else checked seq (get_elem? r.packets (seq % r.size))
