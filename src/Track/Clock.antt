-- ===== src/Track/Clock.antt =====
-- track/local.go: sampleClock and place. Times and durations are in nanoseconds; a wall clock time that
-- is not set is `none`. The uint32 counters are natural numbers with their wrap-around.
use getstream_go_webrtc.Base.{
  ℕ, ◌+◌, ◌-◌, ◌*◌, ◌/◌, ◌%◌, ◌^◌, Bool, true, false, not, ◌&&◌, Option, none, some, ltb, leb, ◌==◌,
  if◌then◌else◌, min, List,
}
use getstream_go_webrtc.Base.Int.{ℤ, pos, negsuc}
use getstream_go_webrtc.Base.Result.{Result, err, ok, ◌>>=◌}

pub data ClockError : Type 0 where
  invalid_duration_sample : ClockError
  out_of_order_sample : ClockError

-- github.com/pion/webrtc/pkg/media.Sample as the track uses it
pub record Sample : Type 0 where
  pub payload : List ℕ
  pub duration : ℤ  -- int64
  pub prev_dropped_packets : ℕ  -- uint16
  pub packet_timestamp : ℕ  -- uint32
  pub timestamp : Option ℕ

pub record SampleClock : Type 0 where
  pub started : Bool
  pub start : ℕ  -- uint32
  pub end : ℕ  -- uint32
  pub wall : Option ℕ

abbrev pub new_clock : SampleClock
new_clock = record { started = false; start = 0; end = 0; wall = none }

pub record Placed : Type 0 where
  pub skip : ℕ
  pub span : ℕ

abbrev pub add32 : ℕ → ℕ → ℕ
add32 a b = (a + b) % 2 ^ 32

abbrev pub sub32 : ℕ → ℕ → ℕ
sub32 a b = (a + 2 ^ 32 - b) % 2 ^ 32

abbrev pub second : ℕ
second = 1000000000

-- `uint32(int64(d) * int64(rate) / int64(time.Second))`; the product of int64s wraps, and the division
-- rounds towards zero.
unfoldable pub ticks : ℕ → ℕ → ℕ
ticks d rate =
    let product = (d * rate) % 2 ^ 64 in
    if ltb product (2 ^ 63)
    then (product / second) % 2 ^ 32
    else sub32 0 (((2 ^ 64 - product) / second) % 2 ^ 32)

-- `int32(a - b) < 0` and `int32(a - b) > 0`
abbrev pub is_behind : ℕ → ℕ → Bool
is_behind a b = leb (2 ^ 31) (sub32 a b)

abbrev pub is_ahead : ℕ → ℕ → Bool
is_ahead a b = ltb 0 (sub32 a b) && ltb (sub32 a b) (2 ^ 31)

-- `time.Time.Sub` of a time that is not before the other saturates.
abbrev since : ℕ → ℕ → ℕ
since later earlier = min (later - earlier) (2 ^ 63 - 1)

-- Where a clock that has not started begins: at the first packet timestamp, if there is one
unfoldable pub begun : SampleClock → Sample → ℕ → ℕ
begun c s dropped =
    if not c.started && not (s.packet_timestamp == 0)
    then sub32 s.packet_timestamp dropped
    else c.end

-- By the wall clock times, where both samples have one
unfoldable pub wall_target : SampleClock → ℕ → Option ℕ → Option ℕ → ℕ → Result ClockError ℕ
wall_target c rate (some now) (some before) start =
    if ltb now before
    then err out_of_order_sample
    else ok (add32 c.start (ticks (since now before) rate))
wall_target c rate (some now) none start = ok start
wall_target c rate none before start = ok start

-- The `switch`: where the sample wants to be
unfoldable pub target : SampleClock → Sample → ℕ → ℕ → Result ClockError ℕ
unfolding wall_target
target c s rate start =
    if not c.started
    then ok start
    else if not (s.packet_timestamp == 0)
    then (if is_behind s.packet_timestamp c.start
        then err out_of_order_sample
        else ok s.packet_timestamp)
    else wall_target c rate s.timestamp c.wall start

-- The end of `place`: the sample begins at its target, but not before `start`.
unfoldable pub settled : SampleClock → Sample → ℕ → ℕ → ℕ → ℕ → Placed × SampleClock
settled c s origin start span wanted =
    let begins = if is_ahead wanted start then wanted else start in
    (
      record { skip = sub32 begins origin; span = span },
      record { started = true; start = begins; end = add32 begins span; wall = s.timestamp },
    )

-- `place` of a sample with this duration
unfoldable pub place_lasting :
    SampleClock → Sample → ℕ → ℤ → Result ClockError (Placed × SampleClock)
unfolding begun target settled
place_lasting c s rate (negsuc n) = err invalid_duration_sample
place_lasting c s rate (pos d) =
    let span = ticks d rate in
    let dropped = (s.prev_dropped_packets * span) % 2 ^ 32 in
    let origin = begun c s dropped in
    let start = add32 origin dropped in
    target c s rate start >>= λ wanted. ok (settled c s origin start span wanted)

-- On an error the clock is unchanged.
unfoldable pub place : SampleClock → Sample → ℕ → Result ClockError (Placed × SampleClock)
unfolding place_lasting
place c s rate = place_lasting c s rate s.duration
