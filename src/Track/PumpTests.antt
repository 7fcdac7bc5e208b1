-- ===== src/Track/PumpTests.antt =====
-- The pace of a pump at concrete turns.
use getstream_go_webrtc.Base.{
  ℕ, ◌+◌, ◌≤◌, ◌≡◌, refl, sym, ◌∙◌, true, false, Option, none, some, List, [], ◌∷◌, arith, subst,
}
use getstream_go_webrtc.Base.Int.{pos, neg_part}
use getstream_go_webrtc.Track.Clock.{Sample}
use getstream_go_webrtc.Track.Pump.{Turn, Delivered, due, paced, woken_at, run_pump}
use getstream_go_webrtc.Track.Pump.Burst.{no_burst, lasts, IsRealTime, finished, fires}
use getstream_go_webrtc.Track.Tests.{frame}

-- Ten milliseconds of audio each; the provider stalls for a second before the second one.
abbrev turn : ℕ → ℕ → Option ℕ → Turn
turn asked now woken = record {
  cancelled = false;
  asked = asked;
  sample = some (record (frame 0) { duration = pos 10000000 });
  muted = false;
  now = now;
  later = now;
  woken = woken;
}

abbrev last_turns : List Turn
last_turns = turn 1020000000 1020000000 (some 1030000000) ∷ []

abbrev caught_up : List Turn
caught_up = turn 1010000000 1010000000 (some 1020000000) ∷ last_turns

abbrev stalling : List Turn
stalling = turn 10000000 1010000000 none ∷ caught_up

abbrev turns : List Turn
turns = turn 0 0 (some 10000000) ∷ stalling

abbrev delivered : ℕ → Delivered
delivered asked = record {
  asked = asked;
  sample = record (frame 0) { duration = pos 10000000 };
  is_written = true;
}

stalled :
    run_pump 0 turns
    ≡ delivered 0 ∷ delivered 10000000 ∷ delivered 1010000000 ∷ delivered 1020000000 ∷ []
unfolding run_pump paced woken_at
stalled = refl

some_eq {a} : {A : Type a} {x y : A} → some x ≡ some y → x ≡ y
some_eq e = cc e

-- The conditions on a turn, where its sample and what comes after it are known
real_turn :
    (next ready : ℕ) (t : Turn) (ts : List Turn) (s : Sample) (after : ℕ)
    → ready ≤ t.asked
    → t.asked ≤ t.now
    → t.now ≤ t.later
    → t.sample ≡ some s
    → neg_part s.duration ≡ 0
    → due next s ≤ fires (due next s) t.woken
    → paced next t s ≡ some after
    → IsRealTime after (finished (due next s) t) ts
    → IsRealTime next ready (t ∷ ts)
real_turn next ready t ts s after a b c given whole timer goes rest = (
  a,
  b,
  c,
  λ x e.
      subst
        (λ y.
          (neg_part y.duration ≡ 0)
          × (due next y ≤ fires (due next y) t.woken)
          × ((n : ℕ) → paced next t y ≡ some n → IsRealTime n (finished (due next y) t) ts))
        (some_eq (sym given ∙ e))
        (
          whole,
          timer,
          λ n h.
              subst (λ m. IsRealTime m (finished (due next s) t) ts) (some_eq (sym goes ∙ h)) rest,
        ),
)

abbrev ten : Sample
ten = record (frame 0) { duration = pos 10000000 }

real_time : IsRealTime 0 0 turns
unfolding paced woken_at
real_time =
    real_turn 0 0 (turn 0 0 (some 10000000)) stalling ten 10000000 (omega arith) (omega arith)
      (omega arith) refl refl (omega arith) refl
      (real_turn 10000000 10000000 (turn 10000000 1010000000 none) caught_up ten 1010000000
        (omega arith) (omega arith) (omega arith) refl refl (omega arith) refl
        (real_turn 1010000000 1010000000 (turn 1010000000 1010000000 (some 1020000000)) last_turns
          ten 1020000000 (omega arith) (omega arith) (omega arith) refl refl (omega arith) refl
          (real_turn 1020000000 1020000000 (turn 1020000000 1020000000 (some 1030000000)) [] ten
            1030000000 (omega arith) (omega arith) (omega arith) refl refl (omega arith) refl tt)))

no_burst_example : 10000000 + lasts (delivered 1010000000 ∷ []) ≤ 1020000000 + 200000000
no_burst_example =
    no_burst 0 0 turns (delivered 0 ∷ []) (delivered 10000000) (delivered 1010000000 ∷ [])
      (delivered 1020000000) [] (omega arith) real_time stalled
