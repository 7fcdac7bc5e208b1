-- ===== src/RateLimit/Tests.antt =====
-- internal/ratelimit at a limit of two events in ten nanoseconds.
use getstream_go_webrtc.Base.{◌≤◌, ◌≡◌, refl, List, [], ◌∷◌, arith}
use getstream_go_webrtc.Base.Int.{pos}
use getstream_go_webrtc.RateLimit.{SlidingWindow, new, keep_from, allow, remaining}
use getstream_go_webrtc.RateLimit.Window.{Call, allow_at, remaining_at, let_through, window_bounded}
use getstream_go_webrtc.RateLimit.Period.{within}

abbrev calls : List Call
calls =
    allow_at 1 1
    ∷ allow_at 2 3
    ∷ remaining_at 4
    ∷ allow_at 5 5
    ∷ allow_at 11 11
    ∷ allow_at 12 12
    ∷ allow_at 13 14
    ∷ []

calls_let_through : let_through (new (pos 2) 10) calls ≡ 1 ∷ 3 ∷ 11 ∷ 14 ∷ []
unfolding let_through allow remaining keep_from
calls_let_through = refl

window_bounded_example : within 10 11 (let_through (new (pos 2) 10) calls) ≤ 2
window_bounded_example = window_bounded 2 10 calls (omega arith) (ground arith) 11

abbrev used : SlidingWindow
used = record { limit = pos 3; window = 10; events = 1 ∷ 7 ∷ [] }

remaining-used : (remaining 12 used).0 ≡ pos 2
unfolding remaining keep_from
remaining-used = refl
