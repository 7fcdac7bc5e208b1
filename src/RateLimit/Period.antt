-- ===== src/RateLimit/Period.antt =====
-- How many times lie in a period, and what eviction keeps.
use getstream_go_webrtc.Base.{
  ℕ, suc, ◌+◌, ◌≤◌, ◌≡◌, refl, ap, ◌&&◌, List, [], ◌∷◌, ◌++◌, length, arith, ltb, leb,
  if◌then◌else◌, All, Bool-cases, inl, inr,
}
use getstream_go_webrtc.RateLimit.{keep_from}

-- How many of the times lie in the period of length `window` that ends with `t`.
unfoldable pub within : ℕ → ℕ → List ℕ → ℕ
within window t [] = 0
within window t (x ∷ xs) =
    let rest = within window t xs in if leb x t && ltb t (x + window) then suc rest else rest

pub within-append :
    (w t : ℕ) (xs ys : List ℕ) → within w t (xs ++ ys) ≡ within w t xs + within w t ys
unfolding within
within-append w t [] ys = omega arith
within-append w t (x ∷ xs) ys = ground (arith, within-append w t xs ys)

pub within_head :
    (w t x : ℕ) (xs : List ℕ) → within w t (x ∷ xs) ≡ within w t (x ∷ []) + within w t xs
unfolding within
within_head w t x xs = ground arith

pub within-le : (w t : ℕ) (xs : List ℕ) → within w t xs ≤ length xs
unfolding within
within-le w t [] = omega arith
within-le w t (x ∷ xs) = ground (arith, within-le w t xs)

-- Times that have left the period by `now` are not in one that ends later.
pub within_old :
    (w t now : ℕ) (xs : List ℕ) → All (λ x. x + w ≤ now) xs → now ≤ t → within w t xs ≡ 0
unfolding within
within_old w t now [] old le = refl
within_old w t now (x ∷ xs) old le = ground (arith, within_old w t now xs old.1 le, old.0)

pub All-later :
    (w a b : ℕ) (xs : List ℕ) → a ≤ b → All (λ x. x + w ≤ a) xs → All (λ x. x + w ≤ b) xs
All-later w a b [] le old = tt
All-later w a b (x ∷ xs) le old = (ground arith, All-later w a b xs le old.1)

-- What eviction drops has left the period.
pub evicted :
    (w now : ℕ) (xs : List ℕ)
    → (old : List ℕ) × (xs ≡ old ++ keep_from w now xs) × All (λ x. x + w ≤ now) old
unfolding keep_from
evicted w now [] = ([], refl, tt)
evicted w now (x ∷ xs) = elim (Bool-cases (ltb now (x + w))) [
  | inl young ↦ ([], rw young refl, tt)
  | inr stale ↦
      let (old, split, all) = evicted w now xs in
      (x ∷ old, rw stale (ap (λ l. x ∷ l) split), (ground arith, all))
]

pub length-keep_from-le : (w now : ℕ) (xs : List ℕ) → length (keep_from w now xs) ≤ length xs
unfolding keep_from
length-keep_from-le w now [] = omega arith
length-keep_from-le w now (x ∷ xs) = ground (arith, length-keep_from-le w now xs)
