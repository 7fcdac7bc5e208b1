-- ===== src/Pc/NegotiationId.antt =====
-- pc/negotiation_id.go: the ids of offers, which are uint32 counters that wrap around.
use getstream_go_webrtc.Base.{
  ℕ, suc, ◌+◌, ◌-◌, ◌%◌, ◌^◌, ◌≤◌, ◌<◌, ◌≡◌, ◌↔◌, ◌⊎◌, zero, arith, leb, ◌==◌, if◌then◌else◌,
}
use getstream_go_webrtc.Red.Packet.{sub32}

abbrev pub invalid_id : ℕ
invalid_id = 0

unfoldable pub next_id : ℕ → ℕ
next_id cur =
    let next = (cur + 1) % 2 ^ 32 in if next == invalid_id then (next + 1) % 2 ^ 32 else next

pub data Action : Type 0 where
  accept : Action
  stale : Action
  duplicate : Action
  mismatch : Action

-- The signed reading of a uint32 is negative from 2 ^ 31 on.
unfoldable pub classify : ℕ → ℕ → ℕ → Action
classify id remote local =
    if id == invalid_id
    then accept
    else if remote == invalid_id
    then (if id == local then accept else mismatch)
    else let delta = sub32 id remote in
      if leb (2 ^ 31) delta
      then stale
      else if delta == 0
      then duplicate
      else if id == local
      then accept
      else mismatch

-- The id after `k` more offers.
pub ids_after : ℕ → ℕ → ℕ
ids_after zero cur = cur
ids_after (suc k) cur = next_id (ids_after k cur)

-- An offer's id is never the reserved one.
pub next_id-positive : (cur : ℕ) → cur < 2 ^ 32 → (0 < next_id cur) × (next_id cur < 2 ^ 32)
unfolding next_id
next_id-positive cur lt = ground arith

-- How far the id is ahead after k offers: k, or k + 1 if the reserved id was skipped.
ids_after_ahead :
    (k cur : ℕ)
    → cur < 2 ^ 32
    → 0 < cur
    → k < 2 ^ 31
    → (0 < ids_after k cur)
      × (ids_after k cur < 2 ^ 32)
      × (((cur + k < 2 ^ 32) × (ids_after k cur ≡ cur + k))
          ⊎ ((2 ^ 32 ≤ cur + k) × (ids_after k cur ≡ cur + k + 1 - 2 ^ 32)))
unfolding ids_after next_id
ids_after_ahead zero cur lt on few = ground arith
ids_after_ahead (suc k) cur lt on few =
    let h = ids_after_ahead k cur lt on (omega arith) in ground (arith, h)

-- Within 2 ^ 31 - 1 offers of the last accepted answer, an answer is accepted exactly when it is to
-- the latest offer, and an answer to any other of these offers is refused.
pub classify-ids_after :
    (remote k j : ℕ)
    → 0 < remote
    → remote < 2 ^ 32
    → k < 2 ^ 31 - 1
    → j ≤ k
    → 0 < k
    → (classify (ids_after j remote) remote (ids_after k remote) ≡ accept) ↔ (j ≡ k)
unfolding classify
classify-ids_after remote k j on lt few le some_offer =
    let hj = ids_after_ahead j remote lt on (omega arith) in
    let hk = ids_after_ahead k remote lt on (omega arith) in ground (arith, hj, hk)
