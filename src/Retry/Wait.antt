-- ===== src/Retry/Wait.antt =====
-- internal/rtretry: the waits between attempts.
use native.Mathlib.Nat.{pow-succ'}
use getstream_go_webrtc.Base.{ℕ, suc, ◌+◌, ◌*◌, ◌%◌, ◌^◌, ◌<◌, ◌≡◌, ap, ◌∙◌, arith}
use getstream_go_webrtc.Base.Int.{pos}
use getstream_go_webrtc.Retry.{Options, to_int64, get_wait_time}

to_int64-small : (n : ℕ) → n < 2 ^ 63 → to_int64 (n % 2 ^ 64) ≡ pos n
to_int64-small n h = ground (arith, h)

-- The wait doubles with each attempt as long as it fits an int64; it is then never negative.
pub get_wait_time-doubles :
    (o : Options) (attempt : ℕ)
    → o.min_wait_time * 2 ^ (attempt + 1) < 2 ^ 63
    → (get_wait_time o attempt ≡ pos (o.min_wait_time * 2 ^ attempt))
      × (get_wait_time o (attempt + 1) ≡ pos (2 * (o.min_wait_time * 2 ^ attempt)))
unfolding get_wait_time
get_wait_time-doubles o attempt h =
    let double : o.min_wait_time * 2 ^ (attempt + 1) ≡ 2 * (o.min_wait_time * 2 ^ attempt) =
      ap (λ k. o.min_wait_time * k) {y = 2 * 2 ^ attempt}
        (ap (λ k. 2 ^ k) {y = suc attempt} (omega arith) ∙ pow-succ' 2 attempt)
      ∙ grind arith in
    (
      to_int64-small (o.min_wait_time * 2 ^ attempt) (omega (arith, h, double)),
      to_int64-small (o.min_wait_time * 2 ^ (attempt + 1)) h ∙ ap pos double,
    )
