-- ===== src/Track/Pump/Burst.antt =====
-- A stall of the provider does not end in a burst.
use getstream_go_webrtc.Base.{
  ℕ, ◌+◌, ◌≤◌, ◌≡◌, refl, ap, sym, ◌∙◌, ◌⊎◌, inl, inr, Bool-cases, Option, none, some, Option-cases,
  List, [], ◌∷◌, ◌++◌, arith, ltb, leb, if◌then◌else◌,
}
use getstream_go_webrtc.Base.Int.{pos_part, neg_part}
use getstream_go_webrtc.Track.Clock.{Sample}
use getstream_go_webrtc.Track.Pump.{max_lag, Turn, Delivered, due, paced, run_pump}

abbrev pub lasts : List Delivered → ℕ
lasts [] = 0
lasts (d ∷ ds) = pos_part d.sample.duration + lasts ds

-- When the timer of a wait fires, if it does
abbrev pub fires : ℕ → Option ℕ → ℕ
fires at none = at
fires at (some time) = time

-- When the turn is over, for a sample with this due time
abbrev pub finished : ℕ → Turn → ℕ
finished at t =
    if ltb (at + max_lag) t.now then t.later else if leb at t.now then t.now else fires at t.woken

-- From a time when the loop is ready: the clock does not run backwards, no timer fires early and no
-- sample has a negative duration.
abbrev pub IsRealTime : ℕ → ℕ → List Turn → Type 0
IsRealTime next ready [] = Unit
IsRealTime next ready (t ∷ ts) =
    (ready ≤ t.asked)
    × (t.asked ≤ t.now)
    × (t.now ≤ t.later)
    × ((s : Sample)
        → t.sample ≡ some s
        → (neg_part s.duration ≡ 0)
          × (due next s ≤ fires (due next s) t.woken)
          × ((next' : ℕ)
              → paced next t s ≡ some next'
              → IsRealTime next' (finished (due next s) t) ts))

-- What the loop goes on with is at most the time by then, at least the sample's end, and not more than
-- the lag behind the clock.
paced_bounds :
    (next : ℕ) (t : Turn) (s : Sample) {next' : ℕ}
    → neg_part s.duration ≡ 0
    → due next s ≤ fires (due next s) t.woken
    → t.now ≤ t.later
    → paced next t s ≡ some next'
    → (next' ≤ finished (due next s) t)
      × (next + pos_part s.duration ≤ next')
      × (t.now ≤ next' + max_lag)
unfolding paced
paced_bounds next t s whole timer clock h = elim (Option-cases t.woken) [
  | inl stopped ↦ ground arith
  | inr (time, woken) ↦ ground arith
]

-- A log that begins with a sample begins with a turn that gave it.
first_turn :
    (next : ℕ) (t : Turn) (ts : List Turn) (d : Delivered) (log : List Delivered)
    → d ∷ log ≡ run_pump next (t ∷ ts)
    → (s : Sample) × (t.sample ≡ some s)
      × (d.asked ≡ t.asked)
      × (d.sample ≡ s)
      × ((log ≡ []) ⊎ ((next' : ℕ) × (paced next t s ≡ some next') × (log ≡ run_pump next' ts)))
unfolding run_pump
first_turn next t ts d log h = elim (Bool-cases t.cancelled) [
  | inl over ↦ absurd (ground arith)
  | inr on ↦ elim (Option-cases t.sample) [
    | inl ended ↦ absurd (ground arith)
    | inr (s, given) ↦ elim (Option-cases (paced next t s)) [
      | inl stopped ↦ (s, given, ground arith, ground arith, inl (ground arith))
      | inr (next', goes) ↦ (s, given, ground arith, ground arith, inr (next', goes, ground arith))
    ]
  ]
]

run_pump-nil : (next : ℕ) → run_pump next [] ≡ []
unfolding run_pump
run_pump-nil next = refl

not_empty :
    (front : List Delivered) (d : Delivered) (back : List Delivered) → front ++ (d ∷ back) ≡ [] → ⊥
not_empty [] d back h = ground arith
not_empty (x ∷ front) d back h = ground arith

-- Whatever is delivered before a sample, it fits between `next` and the time when that one is asked for.
fits_before :
    (next ready : ℕ) (ts : List Turn)
    → next ≤ ready
    → IsRealTime next ready ts
    → (mid : List Delivered) (last : Delivered) (post : List Delivered)
    → mid ++ (last ∷ post) ≡ run_pump next ts
    → next + lasts mid ≤ last.asked
fits_before next ready [] behind real mid last post h =
    absurd (not_empty mid last post (h ∙ run_pump-nil next))
fits_before next ready (t ∷ ts) behind (a, b, c, goes) [] last post h =
    let (s, _, asked, _, _) = first_turn next t ts last post h in omega (arith, asked)
fits_before next ready (t ∷ ts) behind (a, b, c, goes) (m ∷ mid) last post h =
    let (s, given, asked, same, rest) = first_turn next t ts m (mid ++ (last ∷ post)) h in
    let (whole, timer, later) = goes s given in
    elim rest [
      | inl over ↦ absurd (not_empty mid last post over)
      | inr (next', goes_on, log) ↦
          let (before, after, _) = paced_bounds next t s whole timer c goes_on in
          omega (
            arith,
            fits_before next' (finished (due next s) t) ts before (later next' goes_on) mid last
                post log,
            ap (λ x. pos_part x.duration) same,
            after,
          )
    ]

-- Between asking the provider for one sample and asking for a later one, the samples that it gave in
-- between last at most as long as that took and 200 milliseconds more, if the clock does not run
-- backwards, no timer fires early and no sample has a negative duration.
pub no_burst :
    (next ready : ℕ) (ts : List Turn) (pre : List Delivered) (first : Delivered)
    (mid : List Delivered) (last : Delivered) (post : List Delivered)
    → next ≤ ready
    → IsRealTime next ready ts
    → run_pump next ts ≡ pre ++ (first ∷ (mid ++ (last ∷ post)))
    → first.asked + lasts mid ≤ last.asked + max_lag
no_burst next ready [] pre first mid last post behind real h =
    absurd (not_empty pre first (mid ++ (last ∷ post)) (sym h ∙ run_pump-nil next))
no_burst next ready (t ∷ ts) [] first mid last post behind (a, b, c, goes) h =
    let (s, given, asked, same, rest) = first_turn next t ts first (mid ++ (last ∷ post)) (sym h) in
    let (whole, timer, later) = goes s given in
    elim rest [
      | inl over ↦ absurd (not_empty mid last post over)
      | inr (next', goes_on, log) ↦
          let (before, _, lag) = paced_bounds next t s whole timer c goes_on in
          omega (
            arith,
            fits_before next' (finished (due next s) t) ts before (later next' goes_on) mid last
                post log,
            asked,
            lag,
          )
    ]
no_burst next ready (t ∷ ts) (p ∷ pre) first mid last post behind (a, b, c, goes) h =
    let (s, given, _, _, rest) =
      first_turn next t ts p (pre ++ (first ∷ (mid ++ (last ∷ post)))) (sym h) in
    let (whole, timer, later) = goes s given in
    elim rest [
      | inl over ↦ absurd (not_empty pre first (mid ++ (last ∷ post)) over)
      | inr (next', goes_on, log) ↦
          no_burst next' (finished (due next s) t) ts pre first mid last post
            (paced_bounds next t s whole timer c goes_on).0 (later next' goes_on) (sym log)
    ]
