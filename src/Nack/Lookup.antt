-- ===== src/Nack/Lookup.antt =====
-- internal/nack: what `Get` returns after `Add`, for every sequence number.
use native.Mathlib.Decide.{dec_le}
use getstream_go_webrtc.Base.{
  ℕ, ◌+◌, ◌-◌, ◌%◌, ◌^◌, ◌≤◌, ◌<◌, ◌≡◌, ◌≢◌, sym, ap, ◌∙◌, true, Option, none, some, List,
  get_elem?, set, length, arith, ltb, leb, ◌==◌, if◌then◌else◌, length-set, get_elem?-set_self,
  get_elem?-set_ne,
}
use getstream_go_webrtc.Red.Packet.{sub16}
use getstream_go_webrtc.Nack.Buffer.{Retained, Buffer, clear, add, get}
use getstream_go_webrtc.Nack.Index.{same_slot}
use getstream_go_webrtc.Nack.Slots.{IsValid, length-clear, slot_in, clear_keeps, clear_clears}

module _ (b : Buffer) (p : Retained) (v : IsValid b) (started : b.started ≡ true)
    (hp : p.sequence_number < 2 ^ 16) where
  open b use {packets, size, highest_added}
  open p use {sequence_number as seq}

  -- Distinct numbers less than a round behind `seq` do not share its slot.
  other_slot : (t : ℕ) → t < 2 ^ 16 → t ≢ seq → sub16 seq t < size → seq % size ≢ t % size
  other_slot t ht ne lt e =
      ne (same_slot size v.size_ok.rounds t seq v.size_ok.whole ht hp (sym e) lt)

  module _ (newer : 0 < sub16 seq highest_added) (half : sub16 seq highest_added < 2 ^ 15) (t : ℕ)
      (ht : t < 2 ^ 16) where
    cleared : List (Option Retained)
    cleared = clear size ((highest_added + 1) % 2 ^ 16) (sub16 seq highest_added - 1) packets

    length-cleared : length cleared ≡ size
    unfolding cleared
    length-cleared = length-clear size v.size_ok _ _ packets ∙ v.full_length

    slot_new : t ≡ seq → get_elem? (set cleared (seq % size) (some p)) (t % size) ≡ some (some p)
    slot_new e = rw (ap (λ u. u % size) e) (
        get_elem?-set_self cleared (seq % size) (some p)
          (slot_in size v.size_ok seq cleared length-cleared))

    slot_between :
        t ≢ seq
        → sub16 seq t < size
        → sub16 seq t < sub16 seq highest_added
        → get_elem? (set cleared (seq % size) (some p)) (t % size) ≡ some none
    unfolding cleared
    slot_between ne lt before =
        get_elem?-set_ne cleared (seq % size) (t % size) (some p) (other_slot t ht ne lt)
        ∙ clear_clears size v.size_ok t ((highest_added + 1) % 2 ^ 16) (sub16 seq highest_added - 1)
            packets v.full_length ht (omega arith) (omega (arith, v.highest_in))

    slot_old :
        t ≢ seq
        → sub16 seq t < size
        → sub16 seq highest_added ≤ sub16 seq t
        → get_elem? (set cleared (seq % size) (some p)) (t % size) ≡ get_elem? packets (t % size)
    unfolding cleared
    slot_old ne lt after =
        get_elem?-set_ne cleared (seq % size) (t % size) (some p) (other_slot t ht ne lt)
        ∙ clear_keeps size v.size_ok t ((highest_added + 1) % 2 ^ 16) (sub16 seq highest_added - 1)
            packets ht (omega arith) (omega (arith, v.highest_in)) (omega (arith, v.highest_in))

    add_newer :
        add b p ≡ record b { packets = set cleared (seq % size) (some p); highest_added = seq }
    unfolding add cleared
    add_newer = ground arith

    -- After a packet newer than all others, `Get` finds that packet, finds nothing for the numbers
    -- skipped or fallen out of the latest `size`, and finds what it found before for the rest.
    pub get-add_newer : get (add b p) t ≡ (
        if leb size (sub16 seq t)
        then none
        else if t == seq
        then some p
        else if ltb (sub16 seq t) (sub16 seq highest_added)
        then none
        else get b t)
    unfolding get
    get-add_newer =
        rw add_newer
          (ground (arith, slot_new, slot_between, slot_old, v.highest_in, v.size_ok.small))

  module _ (late : 2 ^ 15 ≤ sub16 seq highest_added) (t : ℕ) (ht : t < 2 ^ 16) where
    add_late : add b p ≡ record b { packets = set packets (seq % size) (some p) }
    unfolding add
    add_late = ground arith

    slot_late : t ≡ seq → get_elem? (set packets (seq % size) (some p)) (t % size) ≡ some (some p)
    slot_late e = rw (ap (λ u. u % size) e) (
        get_elem?-set_self packets (seq % size) (some p)
          (slot_in size v.size_ok seq packets v.full_length))

    slots_apart :
        t ≢ seq
        → sub16 highest_added t < size
        → sub16 highest_added seq < size
        → seq % size ≢ t % size
    slots_apart ne lt lt' e = elim (dec_le (sub16 highest_added t) (sub16 highest_added seq)) [
      | yes le ↦ ne (sym (same_slot size rounds seq t whole hp ht e (omega (arith, v.highest_in))))
      | no gt ↦ ne (same_slot size rounds t seq whole ht hp (sym e) (omega (arith, v.highest_in)))
    ]
      where
        open v use {size_ok}
        open size_ok use {rounds, whole}

    slot_kept :
        t ≢ seq
        → sub16 highest_added t < size
        → sub16 highest_added seq < size
        → get_elem? (set packets (seq % size) (some p)) (t % size) ≡ get_elem? packets (t % size)
    slot_kept ne lt lt' =
        get_elem?-set_ne packets (seq % size) (t % size) (some p) (slots_apart ne lt lt')

    -- After a packet that arrives late but is among the latest `size`, `Get` finds that packet and
    -- finds what it found before for all other numbers.
    pub get-add_late :
        sub16 highest_added seq < size
        → get (add b p) t ≡ (
            if leb size (sub16 highest_added t) then none else if t == seq then some p else get b t)
    unfolding get
    get-add_late near =
        rw add_late (ground (arith, slot_late, slot_kept, v.highest_in, v.size_ok.small))

    -- A packet that is late by `size` or more evicts whichever of the latest packets has its slot.
    pub late_evicts :
        size ≤ sub16 highest_added seq
        → t % size ≡ seq % size
        → (get (add b p) t ≡ none) × (get (add b p) seq ≡ none)
    unfolding get
    late_evicts far same =
        let taken : get_elem? (set packets (seq % size) (some p)) (t % size) ≡ some (some p) =
          rw same (
            get_elem?-set_self packets (seq % size) (some p)
              (slot_in size v.size_ok seq packets v.full_length)) in
        rw add_late (ground (arith, taken), ground arith)

-- `Add` keeps the buffer well formed, on every branch.
pub add-IsValid :
    (b : Buffer) (p : Retained) → IsValid b → p.sequence_number < 2 ^ 16 → IsValid (add b p)
unfolding add
add-IsValid b p v hp =
    let seq : ℕ = p.sequence_number in
    let start : ℕ = (b.highest_added + 1) % 2 ^ 16 in
    let rounds : ℕ = sub16 seq b.highest_added - 1 in
    let cleared : List (Option Retained) = clear b.size start rounds b.packets in
    ground (
      arith,
      length-set b.packets (seq % b.size) (some p),
      length-set cleared (seq % b.size) (some p),
      length-clear b.size v.size_ok start rounds b.packets,
    )
