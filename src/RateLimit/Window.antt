-- ===== src/RateLimit/Window.antt =====
-- internal/ratelimit/sliding_window.go: what a series of calls of the limiter can let through.
use getstream_go_webrtc.Base.{
  ℕ, ◌+◌, ◌≤◌, ◌<◌, ◌≡◌, ◌⊎◌, refl, ap, true, false, List, [], ◌∷◌, ◌++◌, length, arith, leb,
  if◌then◌else◌, All, length-append, All-append, Bool-cases, inl, inr,
}
use getstream_go_webrtc.Base.Int.{pos}
use getstream_go_webrtc.RateLimit.{SlidingWindow, new, keep_from, evict, allow, remaining}
use getstream_go_webrtc.RateLimit.Period.{
  within, within-append, within_head, within-le, within_old, All-later, evicted,
  length-keep_from-le,
}

-- A call of the limiter, with its readings of the clock.
pub data Call : Type 0 where
  allow_at : ℕ → ℕ → Call
  remaining_at : ℕ → Call

-- The clock does not run backwards.
abbrev pub IsTimed : ℕ → List Call → Type 0
IsTimed last [] = Unit
IsTimed last (allow_at a b ∷ rest) = (last ≤ a) × (a ≤ b) × IsTimed b rest
IsTimed last (remaining_at a ∷ rest) = (last ≤ a) × IsTimed a rest

-- The times of the events that a series of calls lets through.
unfoldable pub let_through : SlidingWindow → List Call → List ℕ
let_through s [] = []
let_through s (allow_at a b ∷ rest) =
    let (ok, s') = allow a b s in let later = let_through s' rest in if ok then b ∷ later else later
let_through s (remaining_at a ∷ rest) = let_through (remaining a s).1 rest

earlier_IsTimed : (a b : ℕ) (calls : List Call) → a ≤ b → IsTimed b calls → IsTimed a calls
earlier_IsTimed a b [] le timed = tt
earlier_IsTimed a b (allow_at x y ∷ rest) le (h, h', more) = (omega arith, h', more)
earlier_IsTimed a b (remaining_at x ∷ rest) le (h, more) = (omega arith, more)

-- `old` are the events that the limiter has forgotten by `now`, and no period holds too many.
abbrev pub IsBounded : SlidingWindow → ℕ → ℕ → List ℕ → Type 0
IsBounded s n now old =
    (s.limit ≡ pos n)
    × All (λ x. x + s.window ≤ now) old
    × (length s.events ≤ n)
    × ((t : ℕ) → within s.window t old + within s.window t s.events ≤ n)

module _ (s : SlidingWindow) (n last now : ℕ) (old : List ℕ) (le : last ≤ now)
    (b : IsBounded s n last old) where
  open s use {window, events}

  evict-IsBounded :
      (old' : List ℕ) × IsBounded (evict now s) n now old'
      × ((t : ℕ)
          → within window t old' + within window t (keep_from window now events)
            ≡ within window t old + within window t events)
  evict-IsBounded =
      let (lim, gone, short, few) = b in
      let (more, split, all) = evicted window now events in
      let kept = keep_from window now events in
      let same : (t : ℕ)
          → within window t (old ++ more) + within window t kept
            ≡ within window t old + within window t events =
        λ t.
          let moved = within-append window t more kept in
          let split' = ap (within window t) split in
          omega (arith, moved, split', within-append window t old more) in
      (
        old ++ more,
        (
          lim,
          All-append (λ x. x + window ≤ now) old more (All-later window last now old le gone) all,
          omega (arith, length-keep_from-le window now events),
          λ t. omega (arith, few t, same t),
        ),
        same,
      )

record-IsBounded :
    (s : SlidingWindow) (n now at : ℕ) (old : List ℕ)
    → now ≤ at
    → IsBounded s n now old
    → length s.events < n
    → IsBounded (record s { events = s.events ++ (at ∷ []) }) n at old
unfolding within
record-IsBounded s n now at old le (lim, gone, short, few) room = (
  lim,
  All-later s.window now at old le gone,
  omega (arith, length-append s.events (at ∷ [])),
  λ t. ground (
    arith,
    few t,
    within-append s.window t s.events (at ∷ []),
    within-le s.window t s.events,
    within_old s.window t now old gone,
  ),
)

-- Both outcomes of `Allow` while the limit is on.
pub allow_cases :
    (s : SlidingWindow) (n now at : ℕ)
    → s.limit ≡ pos n
    → 0 < n
    → let kept = keep_from s.window now s.events in
      ((length kept < n)
        × (allow now at s ≡ (true, record (evict now s) { events = kept ++ (at ∷ []) })))
      ⊎ ((n ≤ length kept) × (allow now at s ≡ (false, evict now s)))
unfolding allow
allow_cases s n now at lim on =
    elim (Bool-cases (leb n (length (keep_from s.window now s.events)))) [
      | inl full ↦ inr (ground arith, ground arith)
      | inr room ↦ inl (ground arith, ground arith)
    ]

remaining-evict :
    (s : SlidingWindow) (n now : ℕ) → s.limit ≡ pos n → 0 < n → (remaining now s).1 ≡ evict now s
unfolding remaining
remaining-evict s n now lim on = ground arith

let_through_bounded :
    (calls : List Call) (s : SlidingWindow) (n last : ℕ) (old : List ℕ)
    → 0 < n
    → IsTimed last calls
    → IsBounded s n last old
    → (t : ℕ)
    → within s.window t old + within s.window t s.events + within s.window t (let_through s calls)
      ≤ n
unfolding let_through within
let_through_bounded [] s n last old on timed b t = omega (arith, b.3 t)
let_through_bounded (allow_at a c ∷ rest) s n last old on (le, le', timed) b t =
    let (old', b', same) = evict-IsBounded s n last a old le b in
    let kept = keep_from s.window a s.events in
    elim (allow_cases s n a c b.0 on) [
      | inl (room, e) ↦ rw e (
          omega (
            arith,
            same t,
            within-append s.window t kept (c ∷ []),
            within_head s.window t c (let_through (record s { events = kept ++ (c ∷ []) }) rest),
            let_through_bounded rest (record s { events = kept ++ (c ∷ []) }) n c old' on timed
                (record-IsBounded (evict a s) n a c old' le' b' room) t,
          ))
      | inr (full, e) ↦ rw e (
          omega (
            arith,
            same t,
            let_through_bounded rest (evict a s) n a old' on (earlier_IsTimed a c rest le' timed) b'
                t,
          ))
    ]
let_through_bounded (remaining_at a ∷ rest) s n last old on (le, timed) b t =
    let (old', b', same) = evict-IsBounded s n last a old le b in
    rw (remaining-evict s n a b.0 on)
      (omega (arith, same t, let_through_bounded rest (evict a s) n a old' on timed b' t))

-- However often a limiter with a limit is asked, no period of the window's length holds more events
-- that it let through than the limit.
pub window_bounded :
    (n window : ℕ) (calls : List Call)
    → 0 < n
    → IsTimed 0 calls
    → (t : ℕ) → within window t (let_through (new (pos n) window) calls) ≤ n
unfolding within
window_bounded n window calls on timed t =
    let start : IsBounded (new (pos n) window) n 0 [] = (refl, tt, omega arith, λ t. omega arith) in
    omega (arith, let_through_bounded calls (new (pos n) window) n 0 [] on timed start t)

-- A call of Allow adds the event to those that count, if it lets it through, and nothing else.
pub allow-IsBounded :
    (s : SlidingWindow) (n last now at : ℕ) (old : List ℕ)
    → 0 < n
    → last ≤ now
    → now ≤ at
    → IsBounded s n last old
    → let (ok, s') = allow now at s in
      (old' : List ℕ) × IsBounded s' n at old'
      × (s'.window ≡ s.window)
      × ((t : ℕ)
          → within s.window t old' + within s.window t s'.events
            ≡ within s.window t old
              + within s.window t s.events
              + within s.window t (if ok then at ∷ [] else []))
unfolding within
allow-IsBounded s n last now at old on le le' b =
    let (old', b', same) = evict-IsBounded s n last now old le b in
    let kept = keep_from s.window now s.events in
    elim (allow_cases s n now at b.0 on) [
      | inl (room, e) ↦ rw e (
        old',
        record-IsBounded (evict now s) n now at old' le' b' room,
        refl,
        λ t. omega (arith, same t, within-append s.window t kept (at ∷ [])),
      )
      | inr (full, e) ↦ rw e (
        old',
        (b'.0, All-later s.window now at old' le' b'.1, b'.2, b'.3),
        refl,
        λ t. omega (arith, same t),
      )
    ]
