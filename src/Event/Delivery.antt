-- ===== src/Event/Delivery.antt =====
-- event/store.go: which awaiters get which event, and what removing an interceptor leaves.
use getstream_go_webrtc.Base.{
  ◌≡◌, ◌⊎◌, ◌∙◌, refl, ap, sym, Bool, true, false, not, ◌&&◌, Option, none, some, List, [], ◌∷◌,
  ◌++◌, map, if◌then◌else◌, All, Bool-cases, Option-cases, inl, inr,
}
use getstream_go_webrtc.Event.Store.{Interceptor, Awaiter, Store, match_event, offer_all, intercept}

module _ (T : Type 0) where
  -- Waiting for something, and nothing received yet.
  abbrev pub IsWaiting : Awaiter T → Type 0
  IsWaiting a = (a.events ≡ []) × (a.is_closed ≡ false)

  -- What becomes of an awaiter that an event ends: one that timed out is closed with nothing, and one
  -- that selects the event is closed with what it selects.
  unfoldable pub outcome : T → Awaiter T → Option (Awaiter T)
  outcome e a =
      if a.timeout then some record a { events = []; is_closed = true } else elim (a.select e) [
        | none ↦ none
        | some got ↦ some record a { events = got ∷ []; is_closed = true }
      ]

  -- An event that the awaiter neither selects nor is done with.
  abbrev pub is_kept : T → Awaiter T → Bool
  is_kept e a = not a.timeout && elim (a.select e) [ none ↦ true | some got ↦ false ]

  match_late :
      (e : T) (a : Awaiter T)
      → a.timeout ≡ true
      → match_event T e a ≡ (true, record a { is_closed = true })
  unfolding match_event
  match_late e a late = simp late refl

  match_found :
      (e got : T) (a : Awaiter T)
      → a.timeout ≡ false
      → a.select e ≡ some got
      → match_event T e a ≡ (true, record a { events = a.events ++ (got ∷ []); is_closed = true })
  unfolding match_event
  match_found e got a early found = simp (early, found) refl

  match_nothing :
      (e : T) (a : Awaiter T)
      → a.timeout ≡ false
      → a.select e ≡ none
      → match_event T e a ≡ (false, a)
  unfolding match_event
  match_nothing e a early nothing = simp (early, nothing) refl

  match_lem :
      (e : T) (a : Awaiter T)
      → IsWaiting a
      → ((a' : Awaiter T) × (match_event T e a ≡ (true, a'))
          × (outcome e a ≡ some a')
          × (is_kept e a ≡ false))
        ⊎ ((match_event T e a ≡ (false, a)) × (outcome e a ≡ none) × (is_kept e a ≡ true))
  unfolding outcome
  match_lem e a waiting = elim (Bool-cases a.timeout) [
    | inl late ↦ inl (
      record a { is_closed = true },
      match_late e a late,
      simp (late, waiting.0) refl,
      simp late refl,
    )
    | inr early ↦ elim (Option-cases (a.select e)) [
      | inl nothing ↦
          inr (
            match_nothing e a early nothing,
            simp (early, nothing) refl,
            simp (early, nothing) refl,
          )
      | inr (got, found) ↦ inl (
        record a { events = a.events ++ (got ∷ []); is_closed = true },
        match_found e got a early found,
        simp (early, found, waiting.0) refl,
        simp (early, found) refl,
      )
    ]
  ]

  unfoldable pub kept_of : T → List (Awaiter T) → List (Awaiter T)
  kept_of e [] = []
  kept_of e (a ∷ rest) = let more = kept_of e rest in if is_kept e a then a ∷ more else more

  abbrev pub prepended : Option (Awaiter T) → List (Awaiter T) → List (Awaiter T)
  prepended none more = more
  prepended (some a) more = a ∷ more

  unfoldable pub ended_of : T → List (Awaiter T) → List (Awaiter T)
  ended_of e [] = []
  ended_of e (a ∷ rest) = prepended (outcome e a) (ended_of e rest)

  -- What an event does to a list of awaiters.
  abbrev pub IsDelivered : T → List (Awaiter T) → List (Awaiter T) × List (Awaiter T) → Type 0
  IsDelivered e before (kept, dropped) = (kept ≡ kept_of e before) × (dropped ≡ ended_of e before)

  offer_all_lem :
      (e : T) (before : List (Awaiter T))
      → All IsWaiting before
      → IsDelivered e before (offer_all T e before)
  unfolding offer_all kept_of ended_of
  offer_all_lem e [] waiting = (refl, refl)
  offer_all_lem e (a ∷ rest) (now, later) =
      let (k, d) = offer_all_lem e rest later in
      elim (match_lem e a now) [
        | inl (a', m, served, gone) ↦
            simp (m, gone)
              (k, ap (λ l. a' ∷ l) d ∙ ap (λ o. prepended o (ended_of e rest)) (sym served))
        | inr (m, nothing, stays) ↦
            simp (m, stays)
              (ap (λ l. a ∷ l) k, d ∙ ap (λ o. prepended o (ended_of e rest)) (sym nothing))
      ]

  -- Of awaiters that wait, those that timed out are closed with nothing, whether they select the event
  -- or not, and of the others exactly those that select it receive what they select of it, once, and
  -- are closed; these two kinds leave the store, in order, and all others stay in it as they were, in
  -- their order. The interceptors are all called and stay.
  pub intercept_lem :
      (e : T) (s : Store T)
      → All IsWaiting s.awaiters
      → let (called, dropped, s') = intercept T e s in
        (called ≡ map Interceptor.fn s.interceptors)
        × IsDelivered e s.awaiters (s'.awaiters, dropped)
        × (s'.interceptors ≡ s.interceptors)
  unfolding intercept
  intercept_lem e s waiting = (refl, offer_all_lem e s.awaiters waiting, refl)
