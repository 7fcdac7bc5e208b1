-- ===== src/Pc/Answer.antt =====
-- pc/pc.go: applying the offers and answers of the other side.
use getstream_go_webrtc.Base.{
  ℕ, Bool, true, false, not, ◌&&◌, ◌||◌, ◌==◌, Option, none, some, List, if◌then◌else◌,
}
use getstream_go_webrtc.Pc.NegotiationId.{accept, stale, duplicate, mismatch, classify, invalid_id}
use getstream_go_webrtc.Pc.Transport.{
  Description, Gathering, gathering_new, gathering, gathering_complete, NegotiationState, idle,
  awaiting_answer, renegotiate_pending, create_answer_failed, set_local_failed, send_answer_failed,
  bad_credential, Peer, local_set, local_set_ok, sent_answer, Loop, Outcome, done, fail, call,
  set_state, stop_timeout, same_text, credential_of,
}
use getstream_go_webrtc.Pc.Candidates.{set_remote_description, is_empty}
use getstream_go_webrtc.Pc.Offer.{offer, restart_ice}

abbrev pub is_gathering : Gathering → Bool
is_gathering gathering_new = false
is_gathering gathering = true
is_gathering gathering_complete = false

-- `if err != nil { return err }`, then the rest.
abbrev pub then_do : Outcome → (Loop → Outcome) → Outcome
then_do (none, l) f = f l
then_do (some e, l) f = (some e, l)

abbrev pub send_answer : Peer → ℕ → Option Description → Loop → Outcome
send_answer p id none l = fail create_answer_failed l
send_answer p id (some d) l =
    let l' = call (local_set d) l in
    if p.set_local d
    then (let l'' = call (sent_answer d id) (call local_set_ok l') in
        if p.send_answer_ok d id then done l'' else fail send_answer_failed l'')
    else fail set_local_failed l'

abbrev pub apply_offer : Peer → Description → ℕ → List ℕ → Loop → Outcome
apply_offer p d id credential l =
    let restart =
      not (is_empty l.offer_credential) && not (same_text credential l.offer_credential) in
    let l' = record l { remote_id = id } in
    if restart && is_gathering p.gathering_state
    then done (record l' { deferred_offer = some d })
    else then_do (set_remote_description p d (record l' { deferred_offer = none }))
        (λ l''. send_answer p id p.create_answer (record l'' { offer_credential = credential }))

abbrev pub with_credential : Peer → Description → ℕ → Option (List ℕ) → Loop → Outcome
with_credential p d id none l = fail bad_credential l
with_credential p d id (some credential) l = apply_offer p d id credential l

unfoldable pub accept_offer : Peer → Description → ℕ → Loop → Outcome
accept_offer p d id l = with_credential p d id (credential_of p d) l

abbrev pub is_pending : NegotiationState → Bool
is_pending idle = false
is_pending awaiting_answer = false
is_pending renegotiate_pending = true

-- After the answer is applied, or found settled already: the next offer if one is due.
abbrev pub settle : Peer → Loop → Outcome
settle p l =
    let l' = record (set_state idle l) { offer_restarts_ice = false } in
    if is_pending l.state || p.is_stable then offer p false l' else done l'

unfoldable pub apply_answer : Peer → Description → ℕ → Loop → Outcome
apply_answer p d id l =
    if p.is_stable
    then settle p l
    else then_do (set_remote_description p d l)
        (λ l'. settle p (if id == invalid_id then l' else record l' { remote_id = id }))

unfoldable pub accept_answer : Peer → Description → ℕ → Loop → Outcome
accept_answer p d id l = elim (classify id l.remote_id l.local_id) [
  | stale ↦ done l
  | duplicate ↦ done l
  | mismatch ↦ done l
  | accept ↦ apply_answer p d id (stop_timeout l)
]

abbrev pub accept_deferred : Peer → Option Description → Loop → Outcome
accept_deferred p none l = done l
accept_deferred p (some d) l = accept_offer p d l.remote_id (record l { deferred_offer = none })

unfoldable pub on_gathering_complete : Peer → Loop → Outcome
on_gathering_complete p l =
    if l.restart_after_gathering
    then restart_ice p (record l { restart_after_gathering = false })
    else accept_deferred p l.deferred_offer l
