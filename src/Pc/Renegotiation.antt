-- ===== src/Pc/Renegotiation.antt =====
-- pc/pc.go: an offer asked for while another is outstanding goes out when that one is answered.
use getstream_go_webrtc.Base.{
  ℕ, ◌≡◌, ◌≢◌, inl, inr, refl, ap, ◌∙◌, true, false, ◌==◌, Option, none, some, List, [], ◌∷◌,
  if◌then◌else◌, arith, Bool-cases,
}
use getstream_go_webrtc.Pc.NegotiationId.{next_id, invalid_id, classify, accept}
use getstream_go_webrtc.Pc.Transport.{
  answer_type, Description, Candidate, idle, awaiting_answer, renegotiate_pending, refused, Peer,
  Call, remote_set, remote_set_ok, sent_offer, Loop, Outcome, set_state, stop_timeout, arm_timeout,
  credential_of,
}
use getstream_go_webrtc.Pc.Candidates.{
  apply_candidate, apply_pending, adopt_remote, set_remote_description, matches_remote, ufrag_of,
}
use getstream_go_webrtc.Pc.Offer.{offer}
use getstream_go_webrtc.Pc.Answer.{accept_answer, apply_answer, then_do, settle}
use getstream_go_webrtc.Pc.Queue.{send_offer, remote_description, handle, run_event}

-- Applying a remote description leaves the negotiation as it was.
abbrev SameNegotiation : Loop → Loop → Type 0
SameNegotiation l l' =
    (l'.state ≡ l.state)
    × (l'.local_id ≡ l.local_id)
    × (l'.restart_at_next_offer ≡ l.restart_at_next_offer)

apply_pending_same :
    (p : Peer) (cs : List Candidate) (l : Loop) → SameNegotiation l (apply_pending p cs l)
unfolding apply_pending apply_candidate
apply_pending_same p [] l = (refl, refl, refl)
apply_pending_same p (c ∷ cs) l = elim (Bool-cases (matches_remote l c)) [
  | inl yes_fits ↦ ground (arith, apply_pending_same p cs (apply_candidate p c l))
  | inr other ↦ ground (arith, apply_pending_same p cs l)
]

set_remote_same :
    (p : Peer) (d : Description) (l : Loop)
    → p.set_remote d ≢ refused
    → ((set_remote_description p d l).0 ≡ none) × SameNegotiation l (set_remote_description p d l).1
unfolding set_remote_description adopt_remote
set_remote_same p d l taken =
    let l' : Loop = record l {
      remote_ufrag = ufrag_of (credential_of p d);
      pending_candidates = [];
      calls = remote_set_ok ∷ remote_set d ∷ l.calls;
    } in
    ground (arith, apply_pending_same p l.pending_candidates l')

abbrev pub latest : List Call → Option Call
latest [] = none
latest (c ∷ cs) = some c

-- The offer that is due goes out with the next id.
offer_idle :
    (p : Peer) (d : Description) (l : Loop)
    → l.state ≡ idle
    → p.create_offer l.restart_at_next_offer ≡ some d
    → p.set_local d ≡ true
    → p.send_offer_ok d (next_id l.local_id) ≡ true
    → let (result, l') = offer p false l in
      (result ≡ none)
      × (l'.state ≡ awaiting_answer)
      × (l'.local_id ≡ next_id l.local_id)
      × (latest l'.calls ≡ some (sent_offer d (next_id l.local_id)))
      × (l'.offer_restarts_ice ≡ l.restart_at_next_offer)
      × (l'.restart_at_next_offer ≡ false)
unfolding offer set_state arm_timeout stop_timeout
offer_idle p d l rest created local_ok sent = ground arith

held_offer :
    (p : Peer) (l : Loop)
    → l.state ≡ awaiting_answer
    → handle p send_offer l ≡ set_state renegotiate_pending l
unfolding handle run_event offer
held_offer p l waiting = ground arith

then_do-none : (o : Outcome) (f : Loop → Outcome) → o.0 ≡ none → then_do o f ≡ f o.1
then_do-none (none, l) f e = refl
then_do-none (some x, l) f e = absurd (ground arith)

settle_pending :
    (q : Peer) (l : Loop)
    → l.state ≡ renegotiate_pending
    → settle q l ≡ offer q false (record (set_state idle l) { offer_restarts_ice = false })
settle_pending q l e = ground arith

-- The accepted answer makes the loop send an offer, in a state that differs from the one before only
-- in what belongs to the answer.
answer_pending :
    (q : Peer) (a : Description) (id : ℕ) (l : Loop)
    → l.state ≡ renegotiate_pending
    → classify id l.remote_id l.local_id ≡ accept
    → q.is_stable ≡ false
    → q.set_remote a ≢ refused
    → (l' : Loop) × (accept_answer q a id l ≡ offer q false l')
      × (l'.state ≡ idle)
      × (l'.local_id ≡ l.local_id)
      × (l'.restart_at_next_offer ≡ l.restart_at_next_offer)
unfolding accept_answer apply_answer stop_timeout set_state
answer_pending q a id l pending answered unsettled taken =
    let took : Loop → Loop = λ x. if id == invalid_id then x else record x { remote_id = id } in
    let l1 : Loop = stop_timeout l in
    let o : Outcome = set_remote_description q a l1 in
    let (ok, same) = set_remote_same q a l1 taken in
    let l2 : Loop = took o.1 in
    let l3 : Loop = record (set_state idle l2) { offer_restarts_ice = false } in
    let pending' : l2.state ≡ renegotiate_pending = ground (arith, same) in
    let step : accept_answer q a id l ≡ settle q l2 =
      ground (arith, then_do-none o (λ x. settle q (took x)) ok) in
    (l3, step ∙ settle_pending q l2 pending', refl, ground (arith, same), ground (arith, same))

handle-answer :
    (q : Peer) (a : Description) (id : ℕ) (l : Loop)
    → a.sdp_type ≡ answer_type
    → (accept_answer q a id l).0 ≡ none
    → handle q (remote_description a id) l ≡ (accept_answer q a id l).1
unfolding handle run_event
handle-answer q a id l is_answer ok = ground arith

-- An offer asked for while the first is outstanding is held, and goes out with the next id as soon
-- as an answer to the outstanding one is accepted; it restarts ICE if that was due.
pub renegotiation_lem :
    (p q : Peer) (l : Loop) (a d : Description) (id : ℕ)
    → l.state ≡ awaiting_answer
    → a.sdp_type ≡ answer_type
    → classify id l.remote_id l.local_id ≡ accept
    → q.is_stable ≡ false
    → q.set_remote a ≢ refused
    → q.create_offer l.restart_at_next_offer ≡ some d
    → q.set_local d ≡ true
    → q.send_offer_ok d (next_id l.local_id) ≡ true
    → let held = handle p send_offer l in
      let l' = handle q (remote_description a id) held in
      (held.state ≡ renegotiate_pending)
      × (l'.state ≡ awaiting_answer)
      × (l'.local_id ≡ next_id l.local_id)
      × (latest l'.calls ≡ some (sent_offer d (next_id l.local_id)))
      × (l'.offer_restarts_ice ≡ l.restart_at_next_offer)
unfolding set_state
renegotiation_lem p q l a d id waiting is_answer answered unsettled taken created local_ok sent =
    let l1 : Loop = set_state renegotiate_pending l in
    let held = held_offer p l waiting in
    let (l', step, rest, ids, restarts) =
      answer_pending q a id l1 (ground arith) (ground arith) unsettled taken in
    let out = offer_idle q d l' rest (ground (arith, restarts)) local_ok (ground (arith, ids)) in
    let answer = handle-answer q a id l1 is_answer (ground (arith, step, out)) in
    let same : handle q (remote_description a id) (handle p send_offer l) ≡ (offer q false l').1 =
      ap (handle q (remote_description a id)) held ∙ answer ∙ ap (λ o. o.1) step in
    (
      ap Loop.state held,
      ap Loop.state same ∙ out.1,
      ap Loop.local_id same ∙ out.2 ∙ ap next_id ids,
      ap (λ x. latest x.calls) same ∙ out.3 ∙ ap (λ k. some (sent_offer d (next_id k))) ids,
      ap Loop.offer_restarts_ice same ∙ out.4 ∙ restarts,
    )
