-- ===== src/RateLimit.antt =====
-- internal/ratelimit/sliding_window.go: the limiter whole. Times are nanoseconds on a clock that
-- starts after 0, and `at.After(now.Add(-window))` is `now < at + window`. The clock's readings are
-- arguments: `Allow` reads it twice, for evicting and for the event.
pub mod Period
pub mod Window
mod Budget
mod Tests
use getstream_go_webrtc.Base.{
  ℕ, suc, ◌+◌, ◌-◌, Bool, true, false, List, [], ◌∷◌, ◌++◌, length, ltb, if◌then◌else◌,
}
use getstream_go_webrtc.Base.Int.{ℤ, pos, negsuc, leb_ℤ, ltb_ℤ, sub_ℤ}

pub record SlidingWindow : Type 0 where
  pub limit : ℤ
  pub window : ℕ
  pub events : List ℕ  -- oldest first

abbrev pub new : ℤ → ℕ → SlidingWindow
new limit window = record { limit = limit; window = window; events = [] }

-- The events from the first one that is still in the window on.
unfoldable pub keep_from : ℕ → ℕ → List ℕ → List ℕ
keep_from window now [] = []
keep_from window now (at ∷ rest) =
    let kept = keep_from window now rest in if ltb now (at + window) then at ∷ rest else kept

abbrev pub evict : ℕ → SlidingWindow → SlidingWindow
evict now s = record s { events = keep_from s.window now s.events }

-- Whether the event was allowed, and the limiter after.
unfoldable pub allow : ℕ → ℕ → SlidingWindow → Bool × SlidingWindow
allow now now' s =
    if leb_ℤ s.limit (pos 0)
    then (true, s)
    else let s' = evict now s in
      if leb_ℤ s.limit (pos (length s'.events))
      then (false, s')
      else (true, record s' { events = s'.events ++ (now' ∷ []) })

unfoldable pub remaining : ℕ → SlidingWindow → ℤ × SlidingWindow
remaining now s =
    if leb_ℤ s.limit (pos 0)
    then (negsuc 0, s)
    else let s' = evict now s in
      let left = sub_ℤ s.limit (pos (length s'.events)) in
      if ltb_ℤ (pos 0) left then (left, s') else (pos 0, s')

abbrev pub reset : SlidingWindow → SlidingWindow
reset s = record s { events = [] }
