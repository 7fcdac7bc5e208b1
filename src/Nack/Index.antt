-- ===== src/Nack/Index.antt =====
-- internal/nack: which slot a sequence number goes to. The sizes that `newRTPBuffer` accepts divide
-- 2 ^ 16, so slots follow the counter round its wrap-around.
use native.Mathlib.Nat.{div-add-mod}
use native.Mathlib.Decide.{dec_le}
use getstream_go_webrtc.Base.{
  ℕ, zero, suc, ◌+◌, ◌-◌, ◌*◌, ◌/◌, ◌%◌, ◌^◌, ◌≤◌, ◌<◌, ◌≡◌, refl, ap, arith,
}
use getstream_go_webrtc.Red.Packet.{sub16}

-- The size divides the range of the counter, and is at most half of it.
pub record IsSize (size : ℕ) : Type 0 where
  pub rounds : ℕ
  pub whole : size * rounds ≡ 2 ^ 16
  pub small : size ≤ 2 ^ 15

pub size_pos : (size m : ℕ) → size * m ≡ 65536 → 0 < size
size_pos size m whole = grind arith

module _ (size m t u : ℕ) (whole : size * m ≡ 65536) (ht : t < 65536) (hu : u < 65536) where
  multiple : (k : ℕ) → sub16 u t ≡ size * k → sub16 u t < size → k ≡ 0
  multiple zero e lt = refl
  multiple (suc k) e lt = absurd (grind arith)

  ahead : (d : ℕ) → u / size ≡ t / size + d → t % size ≡ u % size → sub16 u t ≡ size * d
  ahead d q e =
      let q' : size * (u / size) ≡ size * (t / size + d) = ap (λ x. size * x) q in
      omega (arith, div-add-mod t size, div-add-mod u size)

  wrapped :
      (d : ℕ) → u / size + m ≡ t / size + d → u < t → t % size ≡ u % size → sub16 u t ≡ size * d
  wrapped d q lt e =
      let q' : size * (u / size + m) ≡ size * (t / size + d) = ap (λ x. size * x) q in
      omega (arith, div-add-mod t size, div-add-mod u size)

  behind : (d : ℕ) → t / size ≡ u / size + m + d → t % size ≡ u % size → ⊥
  behind d q e =
      let q' : size * (t / size) ≡ size * (u / size + m + d) = ap (λ x. size * x) q in
      omega (arith, div-add-mod t size, div-add-mod u size)

  same_slot_zero : (d : ℕ) → sub16 u t ≡ size * d → sub16 u t < size → t ≡ u
  same_slot_zero d e lt =
      let z : d ≡ 0 = multiple d e lt in
      let s : size * d ≡ size * 0 = ap (λ k. size * k) z in omega arith

  not_wrapped : t / size ≤ u / size → t % size ≡ u % size → sub16 u t < size → t ≡ u
  not_wrapped le e lt =
      same_slot_zero (u / size - t / size) (ahead (u / size - t / size) (omega arith) e) lt

  above : (d : ℕ) → t / size ≡ u / size + suc d → t % size ≡ u % size → u < t
  above d q e =
      let q' : size * (t / size) ≡ size * (u / size + suc d) = ap (λ x. size * x) q in
      omega (arith, size_pos size m whole, div-add-mod t size, div-add-mod u size)

  -- Numbers that share a slot and are less than one round apart are equal.
  pub same_slot : t % size ≡ u % size → sub16 u t < size → t ≡ u
  same_slot e lt = elim (dec_le (t / size) (u / size)) [
    | yes le ↦ not_wrapped le e lt
    | no gt ↦ elim (dec_le (t / size) (u / size + m)) [
      | yes le ↦
          let d : ℕ = u / size + m - t / size in
          same_slot_zero d
            (wrapped d (omega arith) (above (t / size - u / size - 1) (omega arith) e) e) lt
      | no gt' ↦ absurd (behind (t / size - (u / size + m)) (omega arith) e)
    ]
  ]
