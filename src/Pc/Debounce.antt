-- ===== src/Pc/Debounce.antt =====
-- pc/pc.go: the debounced offers and the closed queue.
use native.Mathlib.Decide.{ℕ_discrete}
use getstream_go_webrtc.Base.{
  ℕ, zero, suc, ◌≡◌, ◌≢◌, ◌⊎◌, refl, ap, ◌∙◌, Bool, true, false, none, some, [], ◌∷◌, ◌++◌, arith,
}
use getstream_go_webrtc.Pc.Queue.{
  Event, send_offer, Transport, enqueue, negotiate, timer_fires, close, next,
}

-- `k` calls of Negotiate that do not force an offer.
pub burst : ℕ → Transport → Transport
burst zero t = t
burst (suc k) t = burst k (negotiate false t)

negotiate_armed : (id : ℕ) (t : Transport) → t.negotiate_timer ≡ some id → negotiate false t ≡ t
unfolding negotiate
negotiate_armed id t e = ground arith

burst_armed : (k id : ℕ) (t : Transport) → t.negotiate_timer ≡ some id → burst k t ≡ t
unfolding burst
burst_armed zero id t e = refl
burst_armed (suc k) id t e = simp (negotiate_armed id t e) (burst_armed k id t e)

negotiate_unarmed :
    (t : Transport)
    → t.closed ≡ false
    → t.negotiate_timer ≡ none
    → negotiate false t
      ≡ record t { negotiate_timer = some t.timers_made; timers_made = suc t.timers_made }
unfolding negotiate
negotiate_unarmed t is_open unarmed = ground arith

fires :
    (id : ℕ) (t : Transport)
    → t.closed ≡ false
    → ((t.negotiate_timer ≡ some id)
        × (timer_fires id t
            ≡ record t { queue = t.queue ++ (send_offer ∷ []); negotiate_timer = none }))
      ⊎ ((t.negotiate_timer ≢ some id) × (timer_fires id t ≡ t))
unfolding timer_fires enqueue
fires id t is_open = ground arith

-- However many calls of Negotiate come while the timer runs, the timer posts one offer behind what
-- is queued already, and no timer is left; a timer that was replaced posts nothing.
pub burst_lem :
    (k id : ℕ) (t : Transport)
    → t.closed ≡ false
    → t.negotiate_timer ≡ none
    → let waiting = burst (suc k) t in
      let fired = timer_fires id waiting in
      ((id ≡ t.timers_made)
        × (fired.queue ≡ t.queue ++ (send_offer ∷ []))
        × (fired.negotiate_timer ≡ none))
      ⊎ ((id ≢ t.timers_made) × (fired ≡ waiting) × (waiting.queue ≡ t.queue))
unfolding burst
burst_lem k id t is_open unarmed =
    let armed : Transport = record t {
      negotiate_timer = some t.timers_made;
      timers_made = suc t.timers_made;
    } in
    let started : negotiate false t ≡ armed = negotiate_unarmed t is_open unarmed in
    let same : burst k (negotiate false t) ≡ armed =
      ap (burst k) started ∙ burst_armed k t.timers_made armed refl in
    simp same (elim (ℕ_discrete id t.timers_made) [
      | yes e ↦ ground (arith, fires id armed is_open)
      | no ne ↦ ground (arith, fires id armed is_open)
    ])

-- After Close nothing is queued any more and no event runs, whichever operation comes.
pub close_lem :
    (t : Transport) (e : Event) (force : Bool)
    → let c = close t in
      (c.closed ≡ true)
      × (enqueue e c ≡ c)
      × (negotiate force c ≡ c)
      × (close c ≡ c)
      × (next c ≡ (none, c))
unfolding close enqueue negotiate next
close_lem t e force = ground arith
