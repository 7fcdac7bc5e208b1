-- ===== src/Audio/Stream/Padding.antt =====
-- Bytes that are padded to whole frames.
use native.Mathlib.Nat.{
  mod_self, mod-eq_of_lt, mod-lt, mod-mod, add-mod, add-mod-mod, add-mod_right, mul-mod_left,
  div-add-mod',
}
use getstream_go_webrtc.Base.{
  ℕ, ◌+◌, ◌-◌, ◌*◌, ◌/◌, ◌%◌, ◌≤◌, ◌<◌, ◌≡◌, ap, ◌∙◌, inl, inr, List, [], ◌∷◌, ◌++◌, append_assoc,
  arith, ltb, ltb→lt, ltb→le, Bool-cases, length, replicate, length-append, length-replicate,
}
use getstream_go_webrtc.Audio.Stream.{padded}

-- All bytes of some pieces
unfoldable pub concat : List (List ℕ) → List ℕ
concat [] = []
concat (piece ∷ pieces) = piece ++ concat pieces

pub whole-rest : (n m : ℕ) → 0 < m → (n - n % m) % m ≡ 0
whole-rest n m h =
    ap (λ k. k % m) {y = n / m * m} (omega (arith, div-add-mod' n m)) ∙ mul-mod_left (n / m) m

pad-whole : (n m : ℕ) → 0 < m → (n + (m - n % m) % m) % m ≡ 0
pad-whole n m h =
    add-mod-mod n (m - n % m) m
    ∙ ap (λ k. k % m) {y = n / m * m + m} (omega (arith, div-add-mod' n m, mod-lt n h))
    ∙ add-mod_right (n / m * m) m
    ∙ mul-mod_left (n / m) m

pub at_least : (n m : ℕ) → n % m ≡ 0 → 0 < n → m ≤ n
at_least n m e h = elim (Bool-cases (ltb n m)) [
  | inl less ↦ absurd (omega (arith, mod-eq_of_lt (ltb→lt n m less), e, h))
  | inr enough ↦ ltb→le n m enough
]

pub add-mod_whole : (n k m : ℕ) → n % m ≡ 0 → (n + k) % m ≡ k % m
add-mod_whole n k m e =
    add-mod n k m
    ∙ ap (λ j. (j + k % m) % m) e
    ∙ ap (λ j. j % m) {y = k % m} (omega arith)
    ∙ mod-mod k m

-- Whole frames at the front stay out of the padding.
pub padded-append : (m : ℕ) (u v : List ℕ) → length u % m ≡ 0 → padded m (u ++ v) ≡ u ++ padded m v
padded-append m u v e =
    ap (λ k. u ++ v ++ replicate ((m - k) % m) 0)
      (ap (λ k. k % m) (length-append u v) ∙ add-mod_whole (length u) (length v) m e)
    ∙ append_assoc u v (replicate ((m - length v % m) % m) 0)

pub length-padded : (m : ℕ) (v : List ℕ) → 0 < m → length (padded m v) % m ≡ 0
length-padded m v h =
    ap (λ k. k % m)
      (length-append v (replicate ((m - length v % m) % m) 0)
        ∙ ap (λ k. length v + k) (length-replicate ((m - length v % m) % m) 0))
    ∙ pad-whole (length v) m h

pub padded-nil : (m : ℕ) → 0 < m → padded m [] ≡ []
padded-nil m h =
    ap (λ k. replicate k 0) {y = 0}
      (ap (λ k. (m - k) % m) (mod-eq_of_lt h) ∙ ap (λ k. k % m) {y = m} (omega arith) ∙ mod_self m)

pub words_of : (n w c : ℕ) → n % (w * c) ≡ 0 → n ≡ n / (w * c) * c * w
words_of n w c e =
    let whole : n ≡ n / (w * c) * (w * c) = omega (arith, div-add-mod' n (w * c), e) in
    let swap : n / (w * c) * (w * c) ≡ n / (w * c) * c * w = grind arith in whole ∙ swap
