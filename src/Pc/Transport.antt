-- ===== src/Pc/Transport.antt =====
-- pc/pc.go: the fields of `Transport` that its event loop and its lock own, the events of its queue,
-- and the peer connection, which is pion's. Strings are lists of bytes.
use getstream_go_webrtc.Base.{
  ℕ, ◌+◌, ◌%◌, ◌^◌, Bool, true, false, Option, none, some, List, [], ◌∷◌, ◌++◌, ◌==◌, if◌then◌else◌,
}

pub data SdpType : Type 0 where
  offer_type : SdpType
  answer_type : SdpType

pub record Description : Type 0 where
  pub sdp_type : SdpType
  pub sdp : List ℕ

-- `ICECandidateInit`; a missing `UsernameFragment` is `none`.
pub record Candidate : Type 0 where
  pub text : List ℕ
  pub username_fragment : Option (List ℕ)

pub data Gathering : Type 0 where
  gathering_new : Gathering
  gathering : Gathering
  gathering_complete : Gathering

pub data NegotiationState : Type 0 where
  idle : NegotiationState
  awaiting_answer : NegotiationState
  renegotiate_pending : NegotiationState

pub data Error : Type 0 where
  create_offer_failed : Error
  create_answer_failed : Error
  set_local_failed : Error
  set_remote_failed : Error
  send_offer_failed : Error
  resend_offer_failed : Error
  send_answer_failed : Error
  send_candidate_failed : Error
  no_local_sdp : Error
  bad_credential : Error
  timed_out : Error

pub data SetRemote : Type 0 where
  applied : SetRemote
  unsupported_codec : SetRemote
  refused : SetRemote

-- What pion and the Handler, which are not part of this package, answer while one event runs.
pub record Peer : Type 0 where
  pub gathering_state : Gathering
  pub is_stable : Bool  -- SignalingState
  pub is_connected : Bool  -- ConnectionState
  pub has_remote : Bool  -- RemoteDescription() != nil
  pub local_description : Option Description
  pub create_offer : Bool → Option Description
  pub create_answer : Option Description
  pub set_local : Description → Bool
  pub set_remote : Description → SetRemote
  pub add_candidate : Candidate → Bool
  pub send_offer_ok : Description → ℕ → Bool
  pub send_answer_ok : Description → ℕ → Bool
  pub credential_parts : Description → Option (List ℕ × List ℕ)  -- ufrag and pwd

-- The calls that reach the Handler or change the peer connection.
pub data Call : Type 0 where
  state_changed : NegotiationState → Call
  created_offer : Bool → Call
  local_set : Description → Call
  local_set_ok : Call
  remote_set : Description → Call
  remote_set_ok : Call
  sent_offer : Description → ℕ → Call
  sent_answer : Description → ℕ → Call
  added_candidate : Candidate → Call
  added_candidate_ok : Call
  negotiation_failed : Error → Call

-- What the event loop owns. `calls` is the record of the calls made, the latest first, and
-- `timer_gen` is the generation that the armed negotiation timer was made in.
pub record Loop : Type 0 where
  pub state : NegotiationState
  pub local_id : ℕ
  pub remote_id : ℕ
  pub restart_at_next_offer : Bool
  pub restart_after_gathering : Bool
  pub offer_restarts_ice : Bool
  pub timer : Option ℕ
  pub timer_gen : ℕ
  pub remote_ufrag : List ℕ
  pub pending_candidates : List Candidate
  pub offer_credential : List ℕ
  pub deferred_offer : Option Description
  pub calls : List Call

abbrev pub Outcome : Type 0
Outcome = Option Error × Loop

abbrev pub done : Loop → Outcome
done l = (none, l)

abbrev pub fail : Error → Loop → Outcome
fail e l = (some e, l)

abbrev pub call : Call → Loop → Loop
call c l = record l { calls = c ∷ l.calls }

unfoldable pub set_state : NegotiationState → Loop → Loop
set_state s l = record l { state = s; calls = state_changed s ∷ l.calls }

unfoldable pub stop_timeout : Loop → Loop
stop_timeout l = record l { timer_gen = (l.timer_gen + 1) % 2 ^ 64; timer = none }

unfoldable pub arm_timeout : Loop → Loop
arm_timeout l = let l' = stop_timeout l in record l' { timer = some l'.timer_gen }

unfoldable pub same_text : List ℕ → List ℕ → Bool
same_text [] [] = true
same_text [] (b ∷ bs) = false
same_text (a ∷ xs) [] = false
same_text (a ∷ xs) (b ∷ bs) = let rest = same_text xs bs in if a == b then rest else false

-- `ufrag + ":" + pwd`
abbrev pub credential_of : Peer → Description → Option (List ℕ)
credential_of p d = elim (p.credential_parts d) [
  | none ↦ none
  | some (ufrag, pwd) ↦ some (ufrag ++ (58 ∷ pwd))
]

-- `strings.Cut(credential, ":")`, the part before.
unfoldable pub before_colon : List ℕ → List ℕ
before_colon [] = []
before_colon (b ∷ bs) = let rest = before_colon bs in if b == 58 then [] else b ∷ rest
