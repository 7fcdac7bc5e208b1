-- ===== src/Pc/Tests.antt =====
-- pc on small runs: a peer connection that accepts everything.
use getstream_go_webrtc.Base.{
  ℕ, ◌-◌, ◌^◌, ◌≡◌, ◌↔◌, refl, true, false, none, some, List, [], ◌∷◌, if◌then◌else◌, arith,
}
use getstream_go_webrtc.Pc.NegotiationId.{next_id, classify, accept}
use getstream_go_webrtc.Pc.Transport.{
  SdpType, offer_type, answer_type, Description, gathering_complete, idle, awaiting_answer,
  renegotiate_pending, applied, Peer, sent_offer, Loop, set_state, stop_timeout, arm_timeout,
  before_colon,
}
use getstream_go_webrtc.Pc.Candidates.{apply_pending, adopt_remote, set_remote_description}
use getstream_go_webrtc.Pc.Offer.{offer, restart_ice}
use getstream_go_webrtc.Pc.Answer.{accept_answer, apply_answer}
use getstream_go_webrtc.Pc.Queue.{
  Event, send_offer, ice_restart, remote_description, timeout, send_failure, handle, run_event,
  drain,
}
use getstream_go_webrtc.Pc.NegotiationId.{ids_after, classify-ids_after}
use getstream_go_webrtc.Pc.Settled.{offers, last_offer}
use getstream_go_webrtc.Pc.Renegotiation.{latest, renegotiation_lem}

abbrev text_of : SdpType → ℕ → Description
text_of t n = record { sdp_type = t; sdp = n ∷ [] }

abbrev peer : Peer
peer = record {
  gathering_state = gathering_complete;
  is_stable = false;
  is_connected = true;
  has_remote = false;
  local_description = some (text_of offer_type 1);
  create_offer = λ restart. some (text_of offer_type (if restart then 2 else 1));
  create_answer = some (text_of answer_type 3);
  set_local = λ d. true;
  set_remote = λ d. applied;
  add_candidate = λ c. true;
  send_offer_ok = λ d id. true;
  send_answer_ok = λ d id. true;
  credential_parts = λ d. some (d.sdp, 9 ∷ []);
}

abbrev start : Loop
start = record {
  state = idle;
  local_id = 0;
  remote_id = 0;
  restart_at_next_offer = false;
  restart_after_gathering = false;
  offer_restarts_ice = false;
  timer = none;
  timer_gen = 0;
  remote_ufrag = [];
  pending_candidates = [];
  offer_credential = [];
  deferred_offer = none;
  calls = [];
}

abbrev events : List Event
events =
    send_offer
    ∷ ice_restart
    ∷ send_offer
    ∷ remote_description (text_of answer_type 5) 1
    ∷ remote_description (text_of answer_type 5) 1
    ∷ send_failure
    ∷ timeout 1
    ∷ []

events_sent : offers (drain (λ k. peer) 0 events start).calls ≡ 2
unfolding drain handle run_event offer restart_ice set_state arm_timeout stop_timeout accept_answer
    apply_answer set_remote_description adopt_remote apply_pending classify next_id offers
    last_offer before_colon
events_sent = refl

classify-ids_after_example :
    (classify (ids_after 1 (2 ^ 32 - 2)) (2 ^ 32 - 2) (ids_after 2 (2 ^ 32 - 2)) ≡ accept)
    ↔ (◌≡◌ {A = ℕ} 1 2)
classify-ids_after_example =
    classify-ids_after (2 ^ 32 - 2) 2 1 (omega arith) (omega arith) (omega arith) (omega arith)
      (omega arith)

abbrev waiting : Loop
waiting = record start {
  state = awaiting_answer;
  local_id = 7;
  remote_id = 6;
  restart_at_next_offer = true;
}

waiting_answered : classify 7 6 7 ≡ accept
unfolding classify
waiting_answered = refl

renegotiation_lem_example :
    let held = handle peer send_offer waiting in
    let l' = handle peer (remote_description (text_of answer_type 5) 7) held in
    (held.state ≡ renegotiate_pending)
    × (l'.state ≡ awaiting_answer)
    × (l'.local_id ≡ next_id 7)
    × (latest l'.calls ≡ some (sent_offer (text_of offer_type 2) (next_id 7)))
    × (l'.offer_restarts_ice ≡ true)
renegotiation_lem_example =
    renegotiation_lem peer peer waiting (text_of answer_type 5) (text_of offer_type 2) 7 refl refl
      waiting_answered refl (λ h. ground arith) refl refl refl
