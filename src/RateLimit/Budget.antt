-- ===== src/RateLimit/Budget.antt =====
-- internal/ratelimit/sliding_window.go: what `Remaining` promises.
use getstream_go_webrtc.Base.{
  ℕ, zero, suc, ◌+◌, ◌-◌, ◌<◌, ◌≡◌, refl, ap, List, [], ◌∷◌, ◌++◌, length, arith, ltb,
  if◌then◌else◌, length-append, min, Bool-cases, inl, inr,
}
use getstream_go_webrtc.Base.Int.{pos}
use getstream_go_webrtc.RateLimit.{SlidingWindow, keep_from, allow, remaining}
use getstream_go_webrtc.RateLimit.Window.{allow_cases}

-- How many of `k` calls of Allow at one moment are let through.
unfoldable pub ask : ℕ → ℕ → SlidingWindow → ℕ
ask zero now s = 0
ask (suc k) now s =
    let (ok, s') = allow now now s in let more = ask k now s' in if ok then suc more else more

-- A second eviction at the same moment drops nothing, nor the event of that moment.
keep_from_again :
    (w now : ℕ) (xs : List ℕ) → keep_from w now (keep_from w now xs) ≡ keep_from w now xs
unfolding keep_from
keep_from_again w now [] = refl
keep_from_again w now (x ∷ xs) = elim (Bool-cases (ltb now (x + w))) [
  | inl young ↦ rw (young, young) refl
  | inr stale ↦ rw stale (keep_from_again w now xs)
]

keep_from-append :
    (w now : ℕ) (xs : List ℕ)
    → 0 < w
    → keep_from w now (keep_from w now xs ++ (now ∷ [])) ≡ keep_from w now xs ++ (now ∷ [])
unfolding keep_from
keep_from-append w now [] on = ground arith
keep_from-append w now (x ∷ xs) on = elim (Bool-cases (ltb now (x + w))) [
  | inl young ↦ rw (young, young) refl
  | inr stale ↦ rw stale (keep_from-append w now xs on)
]

ask_lem :
    (k now : ℕ) (s : SlidingWindow) (n : ℕ)
    → s.limit ≡ pos n
    → 0 < n
    → 0 < s.window
    → ask k now s ≡ min k (n - length (keep_from s.window now s.events))
unfolding ask
ask_lem zero now s n lim on w = omega arith
ask_lem (suc k) now s n lim on w =
    let kept = keep_from s.window now s.events in
    let full_kept = kept ++ (now ∷ []) in
    elim (allow_cases s n now now lim on) [
      | inl (room, e) ↦
          let same = ap (length {A = ℕ}) (keep_from-append s.window now s.events w) in
          rw e (
            omega (
              arith,
              ask_lem k now (record s { events = full_kept }) n lim on w,
              same,
              length-append kept (now ∷ []),
            ))
      | inr (full, e) ↦ rw e (
          omega (
            arith,
            ask_lem k now (record s { events = kept }) n lim on w,
            ap (length {A = ℕ}) (keep_from_again s.window now s.events),
          ))
    ]

-- Remaining says how many of any number of calls of Allow at the same moment are let through.
pub remaining-ask :
    (k now : ℕ) (s : SlidingWindow) (n left : ℕ)
    → s.limit ≡ pos n
    → 0 < n
    → 0 < s.window
    → (remaining now s).0 ≡ pos left
    → ask k now s ≡ min k left
unfolding remaining
remaining-ask k now s n left lim on w e = ground (arith, ask_lem k now s n lim on w)
