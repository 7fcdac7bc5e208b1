-- ===== src/Pc/Offer.antt =====
-- pc/pc.go: sending offers and restarting ICE.
use getstream_go_webrtc.Base.{ℕ, Bool, true, false, ◌||◌, Option, none, some, if◌then◌else◌}
use getstream_go_webrtc.Pc.NegotiationId.{next_id}
use getstream_go_webrtc.Pc.Transport.{
  Description, gathering_new, gathering, gathering_complete, idle, awaiting_answer,
  renegotiate_pending, create_offer_failed, set_local_failed, send_offer_failed,
  resend_offer_failed, no_local_sdp, Peer, created_offer, local_set, local_set_ok, sent_offer, Loop,
  Outcome, done, fail, call, set_state, arm_timeout,
}

abbrev send_created : Peer → Description → ℕ → Loop → Outcome
send_created p d id l =
    let l' = call (sent_offer d id) l in
    if p.send_offer_ok d id then done l' else fail send_offer_failed l'

-- The description is set, and the offer is on its way.
abbrev pub publish_offer : Peer → Bool → Description → Loop → Outcome
publish_offer p restart d l =
    let id = next_id l.local_id in
    send_created p d id (
      arm_timeout
        (set_state awaiting_answer (record l { offer_restarts_ice = restart; local_id = id })))

abbrev pub set_local_offer : Peer → Bool → Option Description → Loop → Outcome
set_local_offer p restart none l = fail create_offer_failed l
set_local_offer p restart (some d) l =
    let l' = call (local_set d) l in
    if p.set_local d
    then publish_offer p restart d (call local_set_ok l')
    else fail set_local_failed l'

abbrev pub create_and_send : Peer → Bool → Loop → Outcome
create_and_send p restart l =
    set_local_offer p restart (p.create_offer restart) (call (created_offer restart) l)

unfoldable pub offer : Peer → Bool → Loop → Outcome
offer p restart l = elim l.state [
  | awaiting_answer ↦ done (set_state renegotiate_pending l)
  | renegotiate_pending ↦ done l
  | idle ↦
      create_and_send p (l.restart_at_next_offer || restart)
        (record l { restart_at_next_offer = false })
]

abbrev resend : Peer → Option Description → Loop → Outcome
resend p none l = fail no_local_sdp l
resend p (some d) l =
    let l' =
      if l.offer_restarts_ice
      then l
      else record (set_state renegotiate_pending l) { restart_at_next_offer = true } in
    let l'' = call (sent_offer d l'.local_id) l' in
    if p.send_offer_ok d l'.local_id then done l'' else fail resend_offer_failed l''

unfoldable pub restart_ice : Peer → Loop → Outcome
restart_ice p l = elim p.gathering_state [
  | gathering_new ↦ done l
  | gathering ↦ done (record l { restart_after_gathering = true })
  | gathering_complete ↦ elim l.state [
    | idle ↦ offer p true l
    | awaiting_answer ↦ resend p p.local_description l
    | renegotiate_pending ↦ resend p p.local_description l
  ]
]
