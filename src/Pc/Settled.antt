-- ===== src/Pc/Settled.antt =====
-- pc/pc.go: how many offers went out and were settled; descriptions and candidates settle none.
use getstream_go_webrtc.Base.{
  ℕ, ◌+◌, ◌≤◌, ◌≡◌, Option, none, some, List, [], ◌∷◌, ◌==◌, if◌then◌else◌, arith,
}
use getstream_go_webrtc.Pc.Transport.{
  Description, Candidate, NegotiationState, idle, awaiting_answer, renegotiate_pending,
  set_remote_failed, applied, unsupported_codec, refused, Peer, Call, sent_offer, remote_set,
  remote_set_ok, Loop, Outcome, done, fail, call, credential_of,
}
use getstream_go_webrtc.Pc.Candidates.{
  add_remote_candidate, apply_candidate, apply_pending, adopt_remote, set_remote_description,
  matches_remote, ufrag_of,
}

-- The id of the offer that was sent last
unfoldable pub last_offer : List Call → Option ℕ
last_offer [] = none
last_offer (sent_offer d id ∷ cs) = some id
last_offer (_ ∷ cs) = last_offer cs

-- An offer with the id of the one before it is that one, sent again.
abbrev pub is_new : ℕ → Option ℕ → ℕ
is_new id none = 1
is_new id (some before) = if before == id then 0 else 1

abbrev pub new_offer : Call → Option ℕ → ℕ
new_offer (sent_offer d id) before = is_new id before
new_offer _ before = 0

-- How many offers were sent, each counted once
unfoldable pub offers : List Call → ℕ
unfolding last_offer
offers [] = 0
offers (c ∷ cs) = new_offer c (last_offer cs) + offers cs

abbrev pub busy : NegotiationState → ℕ
busy idle = 0
busy awaiting_answer = 1
busy renegotiate_pending = 1

-- While an answer is awaited, it is the answer to the offer that was sent last.
abbrev pub IsNamed : Loop → Type 0
IsNamed l = busy l.state ≡ 1 → last_offer l.calls ≡ some l.local_id

-- Fewer than `n` offers have been sent, or `n` if one of them is outstanding.
abbrev pub IsBounded : ℕ → Loop → Type 0
IsBounded n l = IsNamed l × (offers l.calls + 1 ≤ n + busy l.state)

apply_candidate-IsBounded :
    (n : ℕ) (p : Peer) (c : Candidate) (l : Loop)
    → IsBounded n l
    → IsBounded n (apply_candidate p c l)
unfolding apply_candidate offers last_offer
apply_candidate-IsBounded n p c l b = ground arith

apply_pending-IsBounded :
    (n : ℕ) (p : Peer) (cs : List Candidate) (l : Loop)
    → IsBounded n l
    → IsBounded n (apply_pending p cs l)
unfolding apply_pending
apply_pending-IsBounded n p [] l b = b
apply_pending-IsBounded n p (c ∷ cs) l b =
    apply_pending-IsBounded n p cs (if matches_remote l c then apply_candidate p c l else l)
      (ground (arith, apply_candidate-IsBounded n p c l b))

adopt_remote-IsBounded :
    (n : ℕ) (p : Peer) (d : Description) (l : Loop)
    → IsBounded n l
    → IsBounded n (adopt_remote p d l)
unfolding adopt_remote offers last_offer
adopt_remote-IsBounded n p d l b =
    apply_pending-IsBounded n p l.pending_candidates
      (record l {
        remote_ufrag = ufrag_of (credential_of p d);
        pending_candidates = [];
        calls = remote_set_ok ∷ l.calls;
      })
      (ground arith)

pub set_remote_description-IsBounded :
    (n : ℕ) (p : Peer) (d : Description) (l : Loop)
    → IsBounded n l
    → IsBounded n (set_remote_description p d l).1
unfolding set_remote_description offers last_offer
set_remote_description-IsBounded n p d l b =
    let l' : Loop = call (remote_set d) l in
    let b' : IsBounded n l' = ground arith in
    let adopted = adopt_remote-IsBounded n p d l' b' in
    elim (p.set_remote d)
      as (λ r.
        IsBounded n
          (elim r as (λ _. Outcome) [
            | applied ↦ done (adopt_remote p d l')
            | unsupported_codec ↦ done (adopt_remote p d l')
            | refused ↦ fail set_remote_failed l'
          ]).1) [ applied ↦ adopted | unsupported_codec ↦ adopted | refused ↦ b' ]

pub add_remote_candidate-IsBounded :
    (n : ℕ) (p : Peer) (c : Candidate) (l : Loop)
    → IsBounded n l
    → IsBounded n (add_remote_candidate p c l)
unfolding add_remote_candidate
add_remote_candidate-IsBounded n p c l b = ground (arith, apply_candidate-IsBounded n p c l b)
