-- ===== src/Pc/Queue.antt =====
-- pc/pc.go: the queue of the event loop, the debounced offer, and `handle`. An event's closure is
-- data here; `send_failure` is the event that `sendCandidates` posts. The debounce timer is known by
-- a number that no other timer has, as its pointer is in the source.
use getstream_go_webrtc.Base.{
  ℕ, suc, Bool, true, false, ◌==◌, Option, none, some, List, [], ◌∷◌, ◌++◌, if◌then◌else◌,
}
use getstream_go_webrtc.Pc.Transport.{
  SdpType, offer_type, answer_type, Description, Candidate, send_candidate_failed, timed_out, Peer,
  negotiation_failed, Loop, Outcome, done, fail, call,
}
use getstream_go_webrtc.Pc.Candidates.{add_remote_candidate}
use getstream_go_webrtc.Pc.Offer.{offer, restart_ice}
use getstream_go_webrtc.Pc.Answer.{accept_offer, accept_answer, on_gathering_complete}

pub data Event : Type 0 where
  send_offer : Event
  ice_restart : Event
  remote_description : Description → ℕ → Event
  remote_candidate : Candidate → Event
  gathering_done : Event
  timeout : ℕ → Event
  send_failure : Event

pub record Transport : Type 0 where
  pub queue : List Event
  pub closed : Bool
  pub negotiate_timer : Option ℕ
  pub timers_made : ℕ
  pub loop : Loop

unfoldable pub enqueue : Event → Transport → Transport
enqueue e t = if t.closed then t else record t { queue = t.queue ++ (e ∷ []) }

abbrev pub start_timer : Option ℕ → Transport → Transport
start_timer (some id) t = t
start_timer none t = record t {
  negotiate_timer = some t.timers_made;
  timers_made = suc t.timers_made;
}

unfoldable pub negotiate : Bool → Transport → Transport
negotiate force t =
    if t.closed
    then t
    else if force
    then enqueue send_offer (record t { negotiate_timer = none })
    else start_timer t.negotiate_timer t

abbrev pub is_timer : Option ℕ → ℕ → Bool
is_timer none id = false
is_timer (some armed) id = armed == id

-- The debounce timer `id` runs out.
unfoldable pub timer_fires : ℕ → Transport → Transport
timer_fires id t =
    if is_timer t.negotiate_timer id
    then enqueue send_offer (record t { negotiate_timer = none })
    else t

unfoldable pub handle_remote : Description → ℕ → Transport → Transport
handle_remote d id t = enqueue (remote_description d id) t

unfoldable pub add_ice_candidate : Candidate → Transport → Transport
add_ice_candidate c t = enqueue (remote_candidate c) t

unfoldable pub close : Transport → Transport
close t = if t.closed then t else record t { closed = true; queue = []; negotiate_timer = none }

abbrev pub pop : Bool → List Event → Transport → Option Event × Transport
pop true q t = (none, t)
pop false [] t = (none, t)
pop false (e ∷ q) t = (some e, record t { queue = q })

unfoldable pub next : Transport → Option Event × Transport
next t = pop t.closed t.queue t

-- The negotiation timer of generation `gen` has run out and its event is run.
abbrev pub run_timeout : Peer → ℕ → Loop → Outcome
run_timeout p gen l =
    if gen == l.timer_gen
    then (let l' = record l { timer = none } in
        if p.is_connected then fail timed_out l' else done l')
    else done l

abbrev run_description : Peer → Description → ℕ → Loop → SdpType → Outcome
run_description p d id l offer_type = accept_offer p d id l
run_description p d id l answer_type = accept_answer p d id l

unfoldable pub run_event : Peer → Event → Loop → Outcome
run_event p send_offer l = offer p false l
run_event p ice_restart l = restart_ice p l
run_event p (remote_description d id) l = run_description p d id l d.sdp_type
run_event p (remote_candidate c) l = done (add_remote_candidate p c l)
run_event p gathering_done l = on_gathering_complete p l
run_event p (timeout gen) l = run_timeout p gen l
run_event p send_failure l = fail send_candidate_failed l

-- `handle`, on a transport that is not closed in the meantime.
unfoldable pub handle : Peer → Event → Loop → Loop
handle p e l =
    let (result, l') = run_event p e l in
    elim result [ none ↦ l' | some error ↦ call (negotiation_failed error) l' ]

-- The event loop on its queue, with what the peer connection answers during each event.
unfoldable pub drain : (ℕ → Peer) → ℕ → List Event → Loop → Loop
drain peer k [] l = l
drain peer k (e ∷ q) l = drain peer (suc k) q (handle (peer k) e l)
