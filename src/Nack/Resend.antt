-- ===== src/Nack/Resend.antt =====
-- internal/nack: `resendPackets`, what one requested sequence number does under the buffer's lock.
-- The packet that the buffer holds is the object that is updated. `now` is what `time.Now` returns.
use native.Mathlib.Decide.{ℕ_discrete}
use getstream_go_webrtc.Base.{
  ℕ, suc, ◌+◌, ◌-◌, ◌%◌, ◌≤◌, ◌<◌, ◌≡◌, ◌≢◌, ◌⊎◌, refl, sym, ap, ◌∙◌, Bool, true, false, ◌&&◌,
  Option, none, some, List, [], ◌∷◌, get_elem?, set, arith, ltb, leb, ◌==◌, if◌then◌else◌,
  Bool-cases, inl, inr, length-set, get_elem?-set_self, get_elem?-set_ne, Option-cases,
}
use getstream_go_webrtc.Nack.Buffer.{Retained, Buffer, get, checked}
use getstream_go_webrtc.Nack.Slots.{IsValid, slot_in}

-- `localStream`; zero switches a limit off.
pub record Stream : Type 0 where
  pub buffer : Buffer
  pub max_retries : ℕ  -- uint8
  pub min_interval : ℕ
  pub max_age : ℕ

abbrev pub is_too_soon : ℕ → ℕ → Option ℕ → Bool
is_too_soon min_interval now none = false
is_too_soon min_interval now (some last) = ltb (now - last) min_interval

-- The three tests that end the callback before anything is sent.
abbrev pub is_refused : Stream → ℕ → Retained → Bool
is_refused s now p =
    if ltb 0 s.max_age && ltb s.max_age (now - p.sent_at)
    then true
    else if ltb 0 s.max_retries && leb s.max_retries p.resend_count
    then true
    else ltb 0 s.min_interval && is_too_soon s.min_interval now p.last_resend_at

abbrev pub stamped : ℕ → Retained → Retained
stamped now p = record p { last_resend_at = some now; resend_count = (p.resend_count + 1) % 256 }

abbrev pub store : Stream → ℕ → Retained → Stream
store s seq p = record s {
  buffer = record s.buffer { packets = set s.buffer.packets (seq % s.buffer.size) (some p) };
}

abbrev answer : Stream → ℕ → ℕ → Option Retained → Option Retained × Stream
answer s now seq none = (none, s)
answer s now seq (some p) =
    if is_refused s now p then (none, s) else (some (stamped now p), store s seq (stamped now p))

-- What is written to the stream, if anything, and the stream after.
unfoldable pub resend : Stream → ℕ → ℕ → Option Retained × Stream
resend s now seq = answer s now seq (get s.buffer seq)

-- The requests of a series of NACKs, each with its time.
unfoldable pub resend_all : Stream → List (ℕ × ℕ) → List Retained
resend_all s [] = []
resend_all s ((now, seq) ∷ rest) =
    let (out, s') = resend s now seq in
    let later = resend_all s' rest in elim out [ none ↦ later | some p ↦ p ∷ later ]

-- A retransmission is within the retry limit, not too old and not too soon after the last one, and
-- is counted; if the packet may not be sent, nothing changes.
pub resend_lem :
    (s : Stream) (now seq : ℕ) (p : Retained)
    → get s.buffer seq ≡ some p
    → ((resend s now seq ≡ (none, s)) × (is_refused s now p ≡ true))
      ⊎ ((resend s now seq ≡ (some (stamped now p), store s seq (stamped now p)))
          × (0 < s.max_age → now - p.sent_at ≤ s.max_age)
          × (0 < s.max_retries → p.resend_count < s.max_retries)
          × (0 < s.min_interval
              → (last : ℕ) → p.last_resend_at ≡ some last
              → s.min_interval ≤ now - last))
unfolding resend
resend_lem s now seq p e = elim (Bool-cases (is_refused s now p)) [
  | inl r ↦ inl (rw (e, r) refl, r)
  | inr a ↦ inr (rw (e, a) refl, ground arith, ground arith, λ on last h. ground arith)
]

-- How many of the packets written have the number `t`.
abbrev pub writes_of : ℕ → List Retained → ℕ
writes_of t [] = 0
writes_of t (p ∷ ps) =
    let rest = writes_of t ps in if p.sequence_number == t then suc rest else rest

-- The retransmissions that are left for `t`.
abbrev budget : ℕ → Option Retained → ℕ
budget max_retries none = 0
budget max_retries (some p) = max_retries - p.resend_count

checked-some :
    (u : ℕ) (o : Option (Option Retained)) {p : Retained}
    → checked u o ≡ some p
    → (o ≡ some (some p)) × (p.sequence_number ≡ u)
checked-some u (some (some q)) e = ground arith
checked-some u (some none) e = absurd (ground arith)
checked-some u none e = absurd (ground arith)

checked-other : (t : ℕ) (p : Retained) → t ≢ p.sequence_number → checked t (some (some p)) ≡ none
checked-other t p ne = ground arith

-- A packet that `Get` finds stands in its slot.
get-slot :
    (b : Buffer) (u : ℕ) {p : Retained}
    → get b u ≡ some p
    → (get_elem? b.packets (u % b.size) ≡ some (some p)) × (p.sequence_number ≡ u)
unfolding get
get-slot b u e = ground (arith, checked-some u (get_elem? b.packets (u % b.size)))

module _ (s : Stream) (u : ℕ) (v : IsValid s.buffer) (p q : Retained)
    (found : get s.buffer u ≡ some p) (same : q.sequence_number ≡ u) where
  open s use {buffer}
  open buffer use {packets, size}

  slot_stored : get_elem? (set packets (u % size) (some q)) (u % size) ≡ some (some q)
  slot_stored =
      get_elem?-set_self packets (u % size) (some q)
        (slot_in size v.size_ok u packets v.full_length)

  get-store_self : get (store s u q).buffer u ≡ some q
  unfolding get
  get-store_self = ground (arith, slot_stored, found)

  checked-store_ne :
      (t : ℕ)
      → t ≢ u
      → checked t (get_elem? (set packets (u % size) (some q)) (t % size))
        ≡ checked t (get_elem? packets (t % size))
  checked-store_ne t ne = elim (ℕ_discrete (u % size) (t % size)) [
    | yes e ↦
        ap (λ i. checked t (get_elem? (set packets (u % size) (some q)) i)) (sym e)
        ∙ ap (checked t) slot_stored
        ∙ checked-other t q (λ h. ne (h ∙ same))
        ∙ sym (checked-other t p (λ h. ne (h ∙ (get-slot buffer u found).1)))
        ∙ sym (ap (checked t) (get-slot buffer u found).0)
        ∙ ap (λ i. checked t (get_elem? packets i)) e
    | no ne' ↦ ap (checked t) (get_elem?-set_ne packets (u % size) (t % size) (some q) ne')
  ]

  get-store_ne : (t : ℕ) → t ≢ u → get (store s u q).buffer t ≡ get buffer t
  unfolding get
  get-store_ne t ne = rw (checked-store_ne t ne)

abbrev count_write : ℕ → Option Retained → ℕ
count_write t none = 0
count_write t (some p) = if p.sequence_number == t then 1 else 0

module _ (t u : ℕ) (s : Stream) (now : ℕ) (v : IsValid s.buffer) (on : 0 < s.max_retries)
    (byte : s.max_retries < 256) where
  open s use {max_retries, buffer}

  spend_self :
      (p : Retained)
      → get buffer u ≡ some p
      → t ≡ u
      → is_refused s now p ≡ false
      → 1 + budget max_retries (get (store s u (stamped now p)).buffer t)
        ≤ budget max_retries (get buffer t)
  spend_self p found e a =
      rw (e, get-store_self s u v p (stamped now p) found (get-slot buffer u found).1, found)
        (ground arith)

  spend :
      count_write t (resend s now u).0 + budget max_retries (get (resend s now u).1.buffer t)
      ≤ budget max_retries (get buffer t)
  unfolding resend
  spend = elim (Option-cases (get buffer u)) [
    | inl missing ↦ rw missing (omega arith)
    | inr (p, found) ↦ elim (Bool-cases (is_refused s now p)) [
      | inl r ↦ rw (found, r) (omega arith)
      | inr a ↦ elim (ℕ_discrete t u) [
        | yes e ↦ rw (found, a) (ground (arith, spend_self p found e a))
        | no ne ↦
            rw (found, a)
              (ground (
                arith,
                get-slot buffer u found,
                get-store_ne s u v p (stamped now p) found (get-slot buffer u found).1 t ne,
              ))
      ]
    ]
  ]

pub resend-IsValid : (s : Stream) (now u : ℕ) → IsValid s.buffer → IsValid (resend s now u).1.buffer
unfolding resend
resend-IsValid s now u v = elim (Option-cases (get s.buffer u)) [
  | inl missing ↦ rw missing v
  | inr (p, found) ↦
      rw found
        (ground (arith, length-set s.buffer.packets (u % s.buffer.size) (some (stamped now p))))
]

max_retries-resend : (s : Stream) (now u : ℕ) → (resend s now u).1.max_retries ≡ s.max_retries
unfolding resend
max_retries-resend s now u = ground arith

writes-le-budget :
    (t : ℕ) (reqs : List (ℕ × ℕ)) (s : Stream)
    → IsValid s.buffer
    → 0 < s.max_retries
    → s.max_retries < 256
    → writes_of t (resend_all s reqs) ≤ budget s.max_retries (get s.buffer t)
unfolding resend_all
writes-le-budget t [] s v on byte = omega arith
writes-le-budget t ((now, u) ∷ reqs) s v on byte =
    let s' : Stream = (resend s now u).1 in
    let e : s'.max_retries ≡ s.max_retries = max_retries-resend s now u in
    ground (
      arith,
      spend t u s now v on byte,
      writes-le-budget t reqs s' (resend-IsValid s now u v) (omega arith) (omega arith),
    )

-- However often a receiver asks, and whatever else it asks for, a packet in the buffer is
-- retransmitted at most `max_retries` times, less the times it already was, if that limit is not 0,
-- which switches it off, and is a byte.
pub retries_bounded :
    (s : Stream) (t : ℕ) (reqs : List (ℕ × ℕ)) (p : Retained)
    → IsValid s.buffer
    → 0 < s.max_retries
    → s.max_retries < 256
    → get s.buffer t ≡ some p
    → writes_of t (resend_all s reqs) ≤ s.max_retries - p.resend_count
retries_bounded s t reqs p v on byte found = ground (arith, writes-le-budget t reqs s v on byte)
