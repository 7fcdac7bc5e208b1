-- ===== src/Red/Recovery/Repeated.antt =====
-- What the encoder repeats: how many frames, and which.
use mathlib.Core.List.{reverse_aux}
use getstream_go_webrtc.Base.{
  ℕ, ◌+◌, ◌-◌, ◌^◌, ◌≤◌, ◌<◌, ◌≡◌, List, [], ◌∷◌, reverse, arith, length, All, ltb, inl, inr,
  Bool-cases,
}
use getstream_go_webrtc.Red.Packet.{Packet}
use getstream_go_webrtc.Red.Encoder.{Frame, Encoder, preceding_run, run_back, repeated, fit, is_gap}
use getstream_go_webrtc.Red.Recovery.{run_back-le}

-- The counters of a frame are in range.
abbrev pub IsFrame : Frame → Type 0
IsFrame f = (f.seq < 2 ^ 16) × (f.ts < 2 ^ 32)

-- What the encoder repeats are frames of its history.
All-reverse_aux :
    (xs ys : List Frame) → All IsFrame xs → All IsFrame ys → All IsFrame (reverse_aux xs ys)
All-reverse_aux [] ys hx hy = hy
All-reverse_aux (x ∷ xs) ys hx hy = All-reverse_aux xs (x ∷ ys) hx.1 (hx.0, hy)

All-run_back :
    (pkt : Packet) (distance back : ℕ) (fs : List Frame)
    → All IsFrame fs
    → All IsFrame (run_back pkt distance back fs)
unfolding run_back
All-run_back pkt distance back [] h = tt
All-run_back pkt distance back (f ∷ fs) h = elim (Bool-cases (is_gap pkt distance back f)) [
  | inl gap ↦ rw gap tt
  | inr next ↦ rw next (h.0, All-run_back pkt distance (back + 1) fs h.1)
]

All-fit :
    (max_size size : ℕ) (fs : List Frame) → All IsFrame fs → All IsFrame (fit max_size size fs)
unfolding fit
All-fit max_size size [] h = tt
All-fit max_size size (f ∷ fs) h = elim (Bool-cases (ltb max_size size)) [
  | inl large ↦ rw large (All-fit max_size (size - (4 + length f.payload)) fs h.1)
  | inr fits ↦ rw fits h
]

pub All-repeated :
    (e : Encoder) (pkt : Packet) (max_size : ℕ)
    → All IsFrame e.history
    → All IsFrame (repeated e pkt max_size)
unfolding preceding_run
All-repeated e pkt max_size h =
    let newest_first : All IsFrame (reverse e.history) = All-reverse_aux e.history [] h tt in
    All-fit max_size _ _ (
      All-reverse_aux (run_back pkt e.distance 1 (reverse e.history)) []
        (All-run_back pkt e.distance 1 (reverse e.history) newest_first) tt)

length-reverse_aux : (xs ys : List Frame) → length (reverse_aux xs ys) ≡ length xs + length ys
length-reverse_aux [] ys = omega arith
length-reverse_aux (x ∷ xs) ys = omega (arith, length-reverse_aux xs (x ∷ ys))

length-fit : (max_size size : ℕ) (fs : List Frame) → length (fit max_size size fs) ≤ length fs
unfolding fit
length-fit max_size size [] = omega arith
length-fit max_size size (f ∷ fs) =
    ground (arith, length-fit max_size (size - (4 + length f.payload)) fs)

-- No more frames are repeated than the encoder's distance.
pub length-repeated :
    (e : Encoder) (pkt : Packet) (max_size : ℕ) → length (repeated e pkt max_size) ≤ e.distance
unfolding preceding_run
length-repeated e pkt max_size =
    let back : List Frame = run_back pkt e.distance 1 (reverse e.history) in
    omega (
      arith,
      length-fit max_size _ (reverse back),
      length-reverse_aux back [],
      run_back-le pkt e.distance (reverse e.history) 1 (omega arith),
    )
