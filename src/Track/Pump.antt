-- ===== src/Track/Pump.antt =====
-- track/local.go: runPump, the loop that writes a provider's samples in real time. What the provider
-- and the clock answer in each turn is an input; times are nanoseconds, from an origin long ago.
pub mod Burst
use getstream_go_webrtc.Base.{
  ℕ, ◌+◌, ◌-◌, ◌*◌, Bool, true, false, not, Option, none, some, List, [], ◌∷◌, ltb, leb,
  if◌then◌else◌,
}
use getstream_go_webrtc.Base.Int.{ℤ, pos_part, neg_part}
use getstream_go_webrtc.Track.Clock.{Sample}

abbrev pub max_lag : ℕ
max_lag = 200 * 1000000

pub record Turn : Type 0 where
  pub cancelled : Bool  -- the context, at the top of the loop
  pub asked : ℕ  -- when the provider is asked for a sample
  pub sample : Option Sample  -- none when it fails or has no more
  pub muted : Bool
  pub now : ℕ  -- what time.Until reads
  pub later : ℕ  -- what time.Now reads when the loop has fallen behind
  pub woken : Option ℕ  -- when the timer fires, none if the context is cancelled first

-- A sample that the provider gave, when it was asked, and whether it was written or dropped
pub record Delivered : Type 0 where
  pub asked : ℕ
  pub sample : Sample
  pub is_written : Bool

-- `next.Add(sample.Duration)`
abbrev pub due : ℕ → Sample → ℕ
due next s = next + pos_part s.duration - neg_part s.duration

unfoldable pub woken_at : ℕ → Option ℕ → Option ℕ
woken_at next none = none
woken_at next (some time) = some next

-- The end of a turn: `next` for the one after it, none if the loop returns instead
unfoldable pub paced : ℕ → Turn → Sample → Option ℕ
unfolding woken_at
paced next t s =
    if ltb (due next s + max_lag) t.now
    then some t.later
    else if leb (due next s) t.now
    then some (due next s)
    else woken_at (due next s) t.woken

unfoldable pub run_pump : ℕ → List Turn → List Delivered
run_pump next [] = []
run_pump next (t ∷ ts) = elim (if t.cancelled then none else t.sample) [
  | none ↦ []
  | some s ↦
      record { asked = t.asked; sample = s; is_written = not t.muted }
      ∷ elim (paced next t s) [ none ↦ [] | some next' ↦ run_pump next' ts ]
]
