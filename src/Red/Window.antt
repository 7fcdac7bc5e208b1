-- ===== src/Red/Window.antt =====
-- internal/red/decoder.go: `markSeen` against the set of sequence numbers handed out.
use getstream_go_webrtc.Base.{
  ℕ, ◌-◌, ◌^◌, ◌≤◌, ◌<◌, ◌≡◌, refl, Bool, true, false, not, ◌&&◌, ◌||◌, List, [], ◌∷◌, arith, ltb,
  ◌==◌, ==_refl, All,
}
use getstream_go_webrtc.Red.Packet.{sub16}
use getstream_go_webrtc.Red.Decoder.{Decoder, is_ahead, mark_seen}

-- `t` is one of the 64 sequence numbers up to the newest one.
abbrev pub InWindow : Decoder → ℕ → Type 0
InWindow d t = sub16 d.newest t < 64

-- The decoder remembers that it has handed out `t`.
abbrev pub is_seen : Decoder → ℕ → Bool
is_seen d t = ltb (sub16 d.newest t) 64 && d.seen (sub16 d.newest t)

-- `markSeen` says that a sequence number is new exactly when the decoder does not remember having
-- handed it out.
pub mark_seen-answer :
    (d : Decoder) (s : ℕ) → d.newest < 2 ^ 16 → s < 2 ^ 16 → (mark_seen d s).0 ≡ not (is_seen d s)
unfolding mark_seen
mark_seen-answer d s hn hs = ground arith

module _ (d : Decoder) (s t : ℕ) (hn : d.newest < 2 ^ 16) (hs : s < 2 ^ 16) (ht : t < 2 ^ 16) where
  -- How the distances of `t` behind `s` and behind the old newest number relate, when `s` is ahead.
  ahead_below :
      is_ahead (sub16 s d.newest) ≡ true
      → sub16 s t < sub16 s d.newest
      → ltb (sub16 d.newest t) 64 ≡ false
  ahead_below a lt = ground arith

  ahead_above :
      is_ahead (sub16 s d.newest) ≡ true
      → sub16 s d.newest ≤ sub16 s t
      → sub16 d.newest t ≡ sub16 s t - sub16 s d.newest
  ahead_above a le = ground arith

  same_back : sub16 d.newest t ≡ sub16 d.newest s → t ≡ s
  same_back e = omega arith

  zero_back : sub16 s t ≡ 0 → t ≡ s
  zero_back e = omega arith

  -- For every sequence number in the new window, the decoder remembers it after `markSeen s`
  -- exactly when it is `s` or was remembered before.
  pub mark_seen_memory :
      InWindow (mark_seen d s).1 t → is_seen (mark_seen d s).1 t ≡ (t == s || is_seen d t)
  unfolding mark_seen
  mark_seen_memory w = ground (arith, ahead_below, ahead_above, same_back, zero_back)

pub newest-lt :
    (d : Decoder) (s : ℕ) → d.newest < 2 ^ 16 → s < 2 ^ 16 → (mark_seen d s).1.newest < 2 ^ 16
unfolding mark_seen
newest-lt d s hn hs = ground arith

-- The decoder after a series of sequence numbers.
pub mark_all : Decoder → List ℕ → Decoder
mark_all d [] = d
mark_all d (x ∷ xs) = mark_all (mark_seen d x).1 xs

newest-mark_all-lt :
    (d : Decoder) (xs : List ℕ)
    → d.newest < 2 ^ 16
    → All (λ x. x < 2 ^ 16) xs
    → (mark_all d xs).newest < 2 ^ 16
unfolding mark_all
newest-mark_all-lt d [] hn hx = hn
newest-mark_all-lt d (x ∷ xs) hn hx =
    newest-mark_all-lt (mark_seen d x).1 xs (newest-lt d x hn hx.0) hx.1

-- `s` is in the window after each of the series.
abbrev pub StaysInWindow : Decoder → ℕ → List ℕ → Type 0
StaysInWindow d s [] = Unit
StaysInWindow d s (x ∷ xs) = InWindow (mark_seen d x).1 s × StaysInWindow (mark_seen d x).1 s xs

seen_stays :
    (d : Decoder) (s : ℕ) (xs : List ℕ)
    → d.newest < 2 ^ 16
    → s < 2 ^ 16
    → All (λ x. x < 2 ^ 16) xs
    → is_seen d s ≡ true
    → StaysInWindow d s xs
    → is_seen (mark_all d xs) s ≡ true
unfolding mark_all
seen_stays d s [] hn hs hx e w = e
seen_stays d s (x ∷ xs) hn hs hx e w =
    seen_stays (mark_seen d x).1 s xs (newest-lt d x hn hx.0) hs hx.1
      (rw (mark_seen_memory d x s hn hx.0 hs w.0, e) (or_true (s == x))) w.1
  where
    or_true : (b : Bool) → (b || true) ≡ true
    or_true true = refl
    or_true false = refl

-- A sequence number that was handed out is not handed out again, whatever sequence numbers come in
-- between, as long as it stays within the window of 64.
pub handed_out_once :
    (d : Decoder) (s : ℕ) (xs : List ℕ)
    → d.newest < 2 ^ 16
    → s < 2 ^ 16
    → All (λ x. x < 2 ^ 16) xs
    → StaysInWindow d s (s ∷ xs)
    → (mark_seen (mark_all d (s ∷ xs)) s).0 ≡ false
unfolding mark_all
handed_out_once d s xs hn hs hx w =
    let d' : Decoder = (mark_seen d s).1 in
    let lt : d'.newest < 2 ^ 16 = newest-lt d s hn hs in
    let now : is_seen d' s ≡ true = rw (mark_seen_memory d s s hn hs hs w.0, ==_refl s) in
    let later : is_seen (mark_all d' xs) s ≡ true = seen_stays d' s xs lt hs hx now w.1 in
    rw (mark_seen-answer (mark_all d' xs) s (newest-mark_all-lt d' xs lt hx) hs, later)
