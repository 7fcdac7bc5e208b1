-- ===== src/Red/Packet.antt =====
-- github.com/pion/rtp.Packet as internal/red uses it, and the wrap-around of its counters.
-- `ssrc` stands for the header fields that internal/red only copies along.
use getstream_go_webrtc.Base.{ℕ, ◌+◌, ◌-◌, ◌%◌, ◌^◌, Bool, List}

pub record Packet : Type 0 where
  pub seq : ℕ  -- uint16
  pub ts : ℕ  -- uint32
  pub payload_type : ℕ  -- uint8
  pub marker : Bool
  pub ssrc : ℕ
  pub payload : List ℕ

-- a - b on uint16 and uint32
abbrev pub sub16 : ℕ → ℕ → ℕ
sub16 a b = (a + 2 ^ 16 - b) % 2 ^ 16

abbrev pub sub32 : ℕ → ℕ → ℕ
sub32 a b = (a + 2 ^ 32 - b) % 2 ^ 32
