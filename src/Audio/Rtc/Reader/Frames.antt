-- ===== src/Audio/Rtc/Reader/Frames.antt =====
-- The frames of a stream: their times, and what a reader has heard of them.
use getstream_go_webrtc.Base.{
  ℕ, zero, suc, ◌+◌, ◌*◌, ◌/◌, ◌%◌, ◌^◌, ◌≤◌, ◌<◌, ◌≡◌, ap, ap₂, ◌∙◌, List, [], ◌∷◌, ◌++◌, map,
  append_assoc, arith,
}
use mathlib.Core.List.{map-append}
use getstream_go_webrtc.Red.Packet.{Packet, sub16, sub32}
use getstream_go_webrtc.Audio.Rtc.Reader.{second, Timed, Reader}

-- The presentation time that the k-th frame of a stream gets, from a timestamp that wraps
abbrev pub frame_pts : ℕ → ℕ → ℕ → ℕ
frame_pts rate ticks k = (k * ticks) % 2 ^ 32 * second / rate

-- The frames from the k-th on
abbrev pub frames_from : ℕ → ℕ → ℕ → ℕ → List ℕ
frames_from rate ticks k zero = []
frames_from rate ticks k (suc n) = frame_pts rate ticks k ∷ frames_from rate ticks (suc k) n

-- When the frames from the k-th on begin, counted from the first packet
abbrev pub starts_from : ℕ → ℕ → ℕ → ℕ → List ℕ
starts_from rate ticks k zero = []
starts_from rate ticks k (suc n) = k * ticks * second / rate ∷ starts_from rate ticks (suc k) n

mod_small : (t : ℕ) → t < 2 ^ 32 → t % 2 ^ 32 ≡ t
mod_small t h = omega arith

last_bound : (k n ticks : ℕ) → (k + n) * ticks < 2 ^ 32 → k * ticks < 2 ^ 32
last_bound k n ticks h =
    let split : (k + n) * ticks ≡ k * ticks + n * ticks = grind arith in omega (arith, h, split)

-- As long as the timestamp has not wrapped, these are the times that the frames get.
pub frames_from-starts_from :
    (rate ticks k n : ℕ)
    → (k + n) * ticks < 2 ^ 32
    → frames_from rate ticks k (suc n) ≡ starts_from rate ticks k (suc n)
frames_from-starts_from rate ticks k zero h =
    ap (λ t. t * second / rate ∷ []) {y = k * ticks}
      (mod_small (k * ticks) (last_bound k 0 ticks h))
frames_from-starts_from rate ticks k (suc n) h =
    ap₂ (λ t l. t * second / rate ∷ l) (mod_small (k * ticks) (last_bound k (suc n) ticks h))
      (frames_from-starts_from rate ticks (suc k) n
        (let e : suc k + n ≡ k + suc n = omega arith in rw e h))

abbrev pub times {a} : {A : Type a} → List (Timed A) → List ℕ
times pending = map (λ pcm. pcm.pts) pending

-- The packet with the k-th frame of a stream
abbrev pub Carries : ℕ → ℕ → ℕ → ℕ → Packet → Type 0
Carries first start ticks k pkt =
    (pkt.seq ≡ (first + k) % 2 ^ 16) × (pkt.ts ≡ (start + k * ticks) % 2 ^ 32)

pub frames_at :
    (rate ticks : ℕ) {k j n m : ℕ}
    → k ≡ j
    → n ≡ m
    → frames_from rate ticks k n ≡ frames_from rate ticks j m
frames_at rate ticks e f = ap₂ (frames_from rate ticks) e f

pub frames_from-append :
    (rate ticks k a b : ℕ)
    → frames_from rate ticks k a ++ frames_from rate ticks (k + a) b
      ≡ frames_from rate ticks k (a + b)
frames_from-append rate ticks k zero b = frames_at rate ticks (omega arith) (omega arith)
frames_from-append rate ticks k (suc a) b =
    ap (λ l. frame_pts rate ticks k ∷ l)
      (ap (λ j. frames_from rate ticks (suc k) a ++ frames_from rate ticks j b) {x = k + suc a}
          {y = suc k + a} (omega arith)
        ∙ frames_from-append rate ticks (suc k) a b)
    ∙ ap (frames_from rate ticks k) {x = suc (a + b)} {y = suc a + b} (omega arith)

abbrev pub heard {d a} : {D : Type d} {A : Type a} → ℕ → A → D → Reader D A → Reader D A
heard at pcm dec r = record r {
  dec = dec;
  pending = r.pending ++ (record { pts = at; audio = pcm } ∷ []);
}

pub heard-pending {d a} :
    {D : Type d} {A : Type a} (at : ℕ) (pcm : A) (dec : D) (r : Reader D A) (later : List ℕ)
    → times (heard at pcm dec r).pending ++ later ≡ times r.pending ++ (at ∷ later)
heard-pending at pcm dec r later =
    ap (λ l. l ++ later) (map-append (λ x. x.pts) r.pending (record { pts = at; audio = pcm } ∷ []))
    ∙ append_assoc (times r.pending) (at ∷ []) later

pub heard-pending' {d a} :
    {D : Type d} {A : Type a} (at : ℕ) (pcm : A) (dec : D) (r : Reader D A)
    → times (heard at pcm dec r).pending ≡ times r.pending ++ (at ∷ [])
heard-pending' at pcm dec r =
    map-append (λ x. x.pts) r.pending (record { pts = at; audio = pcm } ∷ [])

-- Going back by some frames on the RTP timeline
pub ticks_back :
    (start k n ticks : ℕ)
    → start < 2 ^ 32
    → sub32 (sub32 ((start + (k + n) * ticks) % 2 ^ 32) ((n * ticks) % 2 ^ 32)) start
      ≡ (k * ticks) % 2 ^ 32
ticks_back start k n ticks bound =
    let split : (k + n) * ticks ≡ k * ticks + n * ticks = grind arith in
    rw split (modular start (k * ticks) (n * ticks) bound)
  where
    modular :
        (start x y : ℕ)
        → start < 2 ^ 32
        → sub32 (sub32 ((start + (x + y)) % 2 ^ 32) (y % 2 ^ 32)) start ≡ x % 2 ^ 32
    modular start x y bound = omega arith

pub next_expected :
    (seq first k : ℕ) → seq ≡ (first + k) % 2 ^ 16 → (seq + 1) % 2 ^ 16 ≡ (first + suc k) % 2 ^ 16
next_expected seq first k h = omega arith

pub distance_expected :
    (seq expected first k gap : ℕ)
    → seq ≡ (first + (k + gap)) % 2 ^ 16
    → expected ≡ (first + k) % 2 ^ 16
    → gap ≤ 0x8000
    → sub16 seq expected ≡ gap
distance_expected seq expected first k gap at from small = omega arith

pub elapsed_ticks : (start x : ℕ) → start < 2 ^ 32 → sub32 ((start + x) % 2 ^ 32) start ≡ x % 2 ^ 32
elapsed_ticks start x bound = omega arith
