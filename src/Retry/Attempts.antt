-- ===== src/Retry/Attempts.antt =====
-- internal/rtretry: how often a request is sent, and which answer is returned.
use getstream_go_webrtc.Base.{
  ℕ, zero, suc, ◌+◌, ◌≤◌, ◌≡◌, refl, sym, ap, subst, ◌∙◌, ◌≢◌, inl, inr, Bool, true, false, Option,
  none, some, List, [], ◌∷◌, ◌++◌, arith, if◌then◌else◌, Option-cases,
}
use getstream_go_webrtc.Base.Int.{ℤ}
use getstream_go_webrtc.Retry.{
  cancelled, Response, Options, Request, Attempt, Event, sent, drained, waited, Outcome,
  rewind_fails, should_retry, drain, returned, failed, repeat, decided, is_retryable, attempts,
  round_trip,
}

abbrev pub count_sent : List Event → ℕ
count_sent [] = 0
count_sent (sent ∷ events) = suc (count_sent events)
count_sent (drained ∷ events) = count_sent events
count_sent (waited d ∷ events) = count_sent events

pub count_sent-drain :
    (r : Option Response) (events : List Event) → count_sent (drain r ++ events) ≡ count_sent events
count_sent-drain none events = refl
count_sent-drain (some r) events = refl

count_sent-drain_only : (r : Option Response) → count_sent (drain r) ≡ 0
count_sent-drain_only none = refl
count_sent-drain_only (some r) = refl

either_bounded :
    (b : Bool) (x y : Outcome) (k : ℕ)
    → count_sent x.events ≤ k
    → count_sent y.events ≤ k
    → count_sent (if b then x else y).events ≤ k
either_bounded true x y k h h' = h
either_bounded false x y k h h' = h'

repeat-bounded :
    (req : Request) (now : Attempt) (sleep : ℤ) (later : Outcome) (n : ℕ)
    → count_sent later.events ≤ n
    → count_sent (repeat req now sleep later).events ≤ suc n
repeat-bounded req now sleep later n h =
    let drained_only : suc (count_sent (drain now.response)) ≤ suc n =
      omega (arith, count_sent-drain_only now.response) in
    let answered : Outcome = returned now (sent ∷ drain now.response) in
    let stopped : Outcome = failed cancelled (sent ∷ drain now.response) in
    let again : Outcome = record later {
      events = sent ∷ drain now.response ++ waited sleep ∷ later.events;
    } in
    let waiting : Outcome = if now.cancelled_waiting then stopped else again in
    let rewound : Outcome = if rewind_fails req now then answered else waiting in
    either_bounded now.cancelled_after (failed cancelled (sent ∷ [])) rewound (suc n) (omega arith)
      (either_bounded (rewind_fails req now) answered waiting (suc n) drained_only (
        either_bounded now.cancelled_waiting stopped again (suc n) drained_only
          (omega (arith, h, count_sent-drain now.response (waited sleep ∷ later.events)))))

attempts-bounded :
    (world : ℕ → Attempt) (o : Options) (req : Request) (left attempt : ℕ)
    → count_sent (attempts world o req left attempt).events ≤ left
unfolding attempts
attempts-bounded world o req zero attempt = omega arith
attempts-bounded world o req (suc left) attempt =
    let now : Attempt = world attempt in
    let later : Outcome = attempts world o req left (attempt + 1) in
    elim (Option-cases (should_retry o now.response now.error (is_retryable o req) attempt)) [
      | inl stop ↦
          subst (λ t. count_sent (decided req now later t).events ≤ suc left) (sym stop)
            (omega arith)
      | inr (sleep, e) ↦
          subst (λ t. count_sent (decided req now later t).events ≤ suc left) (sym e)
            (repeat-bounded req now sleep later left
              (attempts-bounded world o req left (attempt + 1)))
    ]

-- However the attempts go, a request is sent no more than max_retries times.
pub sent_bounded :
    (world : ℕ → Attempt) (o : Options) (req : Request)
    → count_sent (round_trip world o req).events ≤ o.max_retries
unfolding round_trip
sent_bounded world o req = attempts-bounded world o req o.max_retries 0

-- Nothing stands in the way of a repetition.
abbrev pub Continues : Options → Request → Attempt → ℕ → Type 0
Continues o req now attempt =
    (should_retry o now.response now.error (is_retryable o req) attempt ≢ none)
    × (now.cancelled_after ≡ false)
    × (rewind_fails req now ≡ false)
    × (now.cancelled_waiting ≡ false)

repeat-Continues :
    (req : Request) (now : Attempt) (sleep : ℤ) (later : Outcome)
    → now.cancelled_after ≡ false
    → rewind_fails req now ≡ false
    → now.cancelled_waiting ≡ false
    → repeat req now sleep later
      ≡ record later { events = sent ∷ drain now.response ++ waited sleep ∷ later.events }
repeat-Continues req now sleep later h h' h'' =
    let again : Outcome = record later {
      events = sent ∷ drain now.response ++ waited sleep ∷ later.events;
    } in
    let answered : Outcome = returned now (sent ∷ drain now.response) in
    let stopped : Outcome = failed cancelled (sent ∷ drain now.response) in
    ap
      (λ b.
        if b
        then failed cancelled (sent ∷ [])
        else if rewind_fails req now
        then answered
        else if now.cancelled_waiting
        then stopped
        else again)
      h
    ∙ ap (λ b. if b then answered else if now.cancelled_waiting then stopped else again) h'
    ∙ ap (λ b. if b then stopped else again) h''

pub attempts-Continues :
    (world : ℕ → Attempt) (o : Options) (req : Request) (left attempt : ℕ)
    → Continues o req (world attempt) attempt
    → (sleep : ℤ) × (attempts world o req (suc left) attempt
        ≡ record (attempts world o req left (attempt + 1)) {
          events =
              sent ∷ drain (world attempt).response
              ++ waited sleep ∷ (attempts world o req left (attempt + 1)).events;
        })
unfolding attempts
attempts-Continues world o req left attempt (again, h, h', h'') =
    let now : Attempt = world attempt in
    let later : Outcome = attempts world o req left (attempt + 1) in
    elim (Option-cases (should_retry o now.response now.error (is_retryable o req) attempt)) [
      | inl stop ↦ absurd (again stop)
      | inr (sleep, e) ↦
          (sleep, ap (decided req now later) e ∙ repeat-Continues req now sleep later h h' h'')
    ]
