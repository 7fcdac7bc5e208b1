-- ===== src/Pc/Outstanding.antt =====
-- pc/pc.go: at most one offer waits for its answer.
use getstream_go_webrtc.Base.{ℕ, suc, ◌+◌, Bool, true, false, List, [], ◌∷◌, if◌then◌else◌}
use getstream_go_webrtc.Pc.NegotiationId.{accept, stale, duplicate, mismatch, classify}
use getstream_go_webrtc.Pc.Transport.{
  Description, SdpType, offer_type, answer_type, SetRemote, applied, unsupported_codec, refused,
  Peer, Loop,
}
use getstream_go_webrtc.Pc.Queue.{Event, remote_description, handle}

-- The peer connection takes an answer, or has no use for one any more.
abbrev pub is_applied : SetRemote → Bool
is_applied applied = true
is_applied unsupported_codec = true
is_applied refused = false

abbrev pub is_answered : Peer → Description → Bool
is_answered p d = if p.is_stable then true else is_applied (p.set_remote d)

abbrev pub count : Bool → ℕ
count true = 1
count false = 0

-- The answer that an event brings, if it is the one that is waited for and is applied
unfoldable pub answer_of : SdpType → Peer → Description → ℕ → Loop → ℕ
answer_of offer_type p d id l = 0
answer_of answer_type p d id l = elim (classify id l.remote_id l.local_id) [
  | stale ↦ 0
  | duplicate ↦ 0
  | mismatch ↦ 0
  | accept ↦ count (is_answered p d)
]

unfoldable pub taken : Peer → Event → Loop → ℕ
unfolding answer_of
taken p (remote_description d id) l = answer_of d.sdp_type p d id l
taken p _ l = 0

-- How many answers the events bring, with what the peer connection answers during each
unfoldable pub answers : (ℕ → Peer) → ℕ → List Event → Loop → ℕ
unfolding taken
answers peer k [] l = 0
answers peer k (e ∷ q) l = taken (peer k) e l + answers peer (suc k) q (handle (peer k) e l)
