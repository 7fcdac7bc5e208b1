-- ===== src/Nack/Slots.antt =====
-- internal/nack: the ring of packets refines the map from the latest `size` sequence numbers.
use native.Mathlib.Nat.{mod-lt}
use native.Mathlib.Decide.{ℕ_discrete}
use getstream_go_webrtc.Base.{
  ℕ, zero, suc, ◌+◌, ◌%◌, ◌^◌, ◌≤◌, ◌<◌, ◌≡◌, refl, sym, ◌∙◌, Option, none, some, List, [], ◌∷◌,
  get_elem?, set, length, arith, length-set, get_elem?-set_self, get_elem?-set_ne,
}
use getstream_go_webrtc.Red.Packet.{sub16}
use getstream_go_webrtc.Nack.Buffer.{Retained, Buffer, clear}
use getstream_go_webrtc.Nack.Index.{IsSize, same_slot, size_pos}

pub record IsValid (b : Buffer) : Type 0 where
  pub size_ok : IsSize b.size
  pub full_length : length b.packets ≡ b.size
  pub highest_in : b.highest_added < 2 ^ 16

empty_stays :
    (ps : List (Option Retained)) (i j : ℕ)
    → get_elem? ps j ≡ some none
    → get_elem? (set ps i none) j ≡ some none
empty_stays [] i j e = e
empty_stays (p ∷ ps) zero zero e = refl
empty_stays (p ∷ ps) zero (suc j) e = e
empty_stays (p ∷ ps) (suc i) zero e = e
empty_stays (p ∷ ps) (suc i) (suc j) e = empty_stays ps i j e

module _ (size : ℕ) (v : IsSize size) where
  pub length-clear :
      (i n : ℕ) (ps : List (Option Retained)) → length (clear size i n ps) ≡ length ps
  unfolding clear
  length-clear i zero ps = refl
  length-clear i (suc n) ps =
      length-clear ((i + 1) % 2 ^ 16) n (set ps (i % size) none) ∙ length-set ps (i % size) none

  pub slot_in : (i : ℕ) (ps : List (Option Retained)) → length ps ≡ size → i % size < length ps
  slot_in i ps e = rw e (mod-lt i (size_pos size v.rounds v.whole))

  -- Clearing a run of numbers leaves the slots of numbers less than a round behind it.
  pub clear_keeps :
      (t i n : ℕ) (ps : List (Option Retained))
      → t < 2 ^ 16
      → i < 2 ^ 16
      → 0 < sub16 i t
      → sub16 i t + n ≤ size
      → get_elem? (clear size i n ps) (t % size) ≡ get_elem? ps (t % size)
  unfolding clear
  clear_keeps t i zero ps ht hi lo le = refl
  clear_keeps t i (suc n) ps ht hi lo le =
      clear_keeps t ((i + 1) % 2 ^ 16) n (set ps (i % size) none) ht (omega arith) (omega arith)
        (omega arith)
      ∙ get_elem?-set_ne ps (i % size) (t % size) none (λ e.
        absurd (omega (arith, same_slot size v.rounds t i v.whole ht hi (sym e) (omega arith))))

  clear_cleared :
      (j i n : ℕ) (ps : List (Option Retained))
      → get_elem? ps j ≡ some none
      → get_elem? (clear size i n ps) j ≡ some none
  unfolding clear
  clear_cleared j i zero ps e = e
  clear_cleared j i (suc n) ps e =
      clear_cleared j ((i + 1) % 2 ^ 16) n (set ps (i % size) none) (empty_stays ps (i % size) j e)

  -- Clearing a run of numbers empties the slot of each.
  pub clear_clears :
      (t i n : ℕ) (ps : List (Option Retained))
      → length ps ≡ size
      → t < 2 ^ 16
      → i < 2 ^ 16
      → sub16 t i < n
      → get_elem? (clear size i n ps) (t % size) ≡ some none
  unfolding clear
  clear_clears t i zero ps e ht hi lt = absurd (omega arith)
  clear_clears t i (suc n) ps e ht hi lt = elim (ℕ_discrete t i) [
    | yes same ↦
        clear_cleared (t % size) ((i + 1) % 2 ^ 16) n (set ps (i % size) none)
          (rw same (get_elem?-set_self ps (i % size) none (slot_in i ps e)))
    | no other ↦
        clear_clears t ((i + 1) % 2 ^ 16) n (set ps (i % size) none)
          (length-set ps (i % size) none ∙ e) ht (omega arith) (omega arith)
  ]
