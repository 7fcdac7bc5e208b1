-- ===== src/Track/Local/Reading.antt =====
-- Who reads a provider.
use getstream_go_webrtc.Base.{
  ℕ, ◌≡◌, ◌≢◌, refl, ap, ◌∙◌, Bool, true, false, not, ◌&&◌, ◌⊎◌, inl, inr, Option, none, some, List,
  [], ◌∷◌, ◌==◌, arith, if◌then◌else◌, Bool-cases, Option-cases, ==_refl,
}
use getstream_go_webrtc.Track.Local.{
  Local, told, unbound, closing, is_provider, Event, on_bind, binds, unbinds, starts, closes, ends,
  new_local, start_pump_locked, ended, stop_pump_locked, bind_provider, replaced, start_write,
  on_event, on_events,
}

-- No write loop runs, or one: the track's pump, which reads its provider, while it is bound and open.
abbrev pub IsSingle : Local → Type 0
IsSingle l =
    (l.loops ≡ [])
    ⊎ ((n : ℕ) × (p : ℕ) × (l.loops ≡ record { pump = n; reads = p } ∷ [])
        × (l.pump ≡ some n)
        × (l.provider ≡ some p)
        × (l.is_bound ≡ true)
        × (l.is_closed ≡ false))

-- A pump is there only while the track is bound, and then always if the track is open and has a provider.
pub record IsOwned (l : Local) : Type 0 where
  pub single : IsSingle l
  pub needs : l.is_bound ≡ false → l.pump ≡ none
  pub drives : l.is_bound ≡ true → l.is_closed ≡ false → l.provider ≢ none → l.pump ≢ none

-- pion does not bind a track that is bound.
abbrev pub IsDue : Event → Local → Type 0
IsDue (binds attaches answers) l = l.is_bound ≡ false
IsDue (unbinds detaches) l = Unit
IsDue (starts answers p) l = Unit
IsDue closes l = Unit
IsDue (ends n) l = Unit

-- At most the track's own pump runs.
abbrev IsOne : Local → Type 0
IsOne l =
    (l.loops ≡ [])
    ⊎ ((n : ℕ) × (p : ℕ) × (l.loops ≡ record { pump = n; reads = p } ∷ []) × (l.pump ≡ some n))

single-IsOne : (l : Local) → IsSingle l → IsOne l
single-IsOne l (inl idle) = inl idle
single-IsOne l (inr (n, p, one, on, _, _, _)) = inr (n, p, one, on)

-- One state is another with its pump stopped, whatever the providers were told.
abbrev IsStopped : Local → Local → Type 0
IsStopped l s =
    (s.loops ≡ [])
    × (s.pump ≡ none)
    × (s.provider ≡ l.provider)
    × (s.is_bound ≡ l.is_bound)
    × (s.is_closed ≡ l.is_closed)

stop_pump_locked-IsStopped : (l : Local) → IsOne l → IsStopped l (stop_pump_locked l)
unfolding stop_pump_locked ended
stop_pump_locked-IsStopped l (inl idle) = elim (Option-cases l.pump) [
  | inl off ↦ ground arith
  | inr (n, on) ↦ ground arith
]
stop_pump_locked-IsStopped l (inr (n, p, one, on)) = ground (arith, ==_refl n)

unbound-IsStopped : (l s : Local) (p : Option ℕ) → IsStopped l s → IsStopped l (unbound p s)
unbound-IsStopped l s none h = h
unbound-IsStopped l s (some p) h = h

closing-IsStopped : (l s : Local) (p : Option ℕ) → IsStopped l s → IsStopped l (closing p s)
closing-IsStopped l s none h = h
closing-IsStopped l s (some p) h = h

-- A stopped track that is not bound or not open
idle-IsOwned :
    (l s : Local) → IsStopped l s → (l.is_bound ≡ false) ⊎ (l.is_closed ≡ true) → IsOwned s
idle-IsOwned l s h shut = record {
  single = inl h.0;
  needs = λ off. h.1;
  drives = λ on open_ given. ground arith;
}

bind_provider-IsOwned :
    (answers : Bool) (l : Local) (p : Option ℕ)
    → IsStopped l l
    → l.is_bound ≡ true
    → p ≡ (if l.is_closed then none else l.provider)
    → IsOwned (bind_provider answers p l).1
unfolding bind_provider start_pump_locked
bind_provider-IsOwned answers l none idle bound from = record {
  single = inl idle.0;
  needs = λ off. idle.1;
  drives = λ on open_ given. ground arith;
}
bind_provider-IsOwned false l (some p) idle bound from = record {
  single = inl idle.0;
  needs = λ off. idle.1;
  drives = λ on open_ given. ground arith;
}
bind_provider-IsOwned true l (some p) idle bound from = record {
  single = inr (
    l.next_pump,
    p,
    ap (λ loops. record { pump = l.next_pump; reads = p } ∷ loops) idle.0,
    refl,
    ground arith,
    bound,
    ground arith,
  );
  needs = λ off. ground arith;
  drives = λ on open_ given stopped. ground arith;
}

replaced-IsOwned :
    (p : ℕ) (l : Local)
    → IsOne l
    → l.is_bound ≡ true
    → l.is_closed ≡ false
    → IsOwned (record (replaced p l) { provider = some p })
unfolding replaced start_pump_locked
replaced-IsOwned p l one bound open_ =
    let s = stop_pump_locked (told (on_bind p) l) in
    let after =
      unbound-IsStopped (told (on_bind p) l) s s.provider
        (stop_pump_locked-IsStopped (told (on_bind p) l) one) in
    let told' = unbound s.provider s in
    record {
      single = inr (
        told'.next_pump,
        p,
        ap (λ loops. record { pump = told'.next_pump; reads = p } ∷ loops) after.0,
        refl,
        refl,
        after.3 ∙ bound,
        after.4 ∙ open_,
      );
      needs = λ off. ground arith;
      drives = λ on _ given stopped. ground arith;
    }

ended-IsSingle : (n : ℕ) (l : Local) → IsSingle l → IsSingle (record l { loops = ended n l.loops })
unfolding ended
ended-IsSingle n l (inl idle) = inl (ap (ended n) idle)
ended-IsSingle n l (inr (m, p, one, on, given, bound, open_)) = elim (Bool-cases (m == n)) [
  | inl hit ↦ inl (ap (ended n) one ∙ simp hit)
  | inr miss ↦ inr (m, p, ap (ended n) one ∙ simp miss, on, given, bound, open_)
]

idle_bound : (l : Local) → l.is_bound ≡ false → IsOwned l → (l.loops ≡ []) × (l.pump ≡ none)
idle_bound l off w = (
  elim w.single [ inl idle ↦ idle | inr (n, q, one, on, r, bound, open_) ↦ ground arith ],
  w.needs off,
)

-- A provider that is only noted, since nothing can run
noted-IsOwned :
    (p : ℕ) (l : Local)
    → (l.is_bound && not l.is_closed) ≡ false
    → IsOwned l
    → IsOwned (record l { provider = some p })
noted-IsOwned p l shut w = record {
  single =
      inl (elim w.single [ inl idle ↦ idle | inr (n, q, one, on, r, bound, open_) ↦ ground arith ]);
  needs = w.needs;
  drives = λ on open_ given stopped. ground arith;
}

start_write-IsOwned :
    (answers : Bool) (p : ℕ) (l : Local) → IsOwned l → IsOwned (start_write answers p l).1
unfolding start_write
start_write-IsOwned answers p l w = elim (Bool-cases (is_provider p l.provider)) [
  | inl same ↦ simp same w
  | inr other ↦ elim (Bool-cases (l.is_bound && not l.is_closed)) [
    | inr shut ↦ simp (other, shut) (noted-IsOwned p l shut w)
    | inl runs ↦ elim (Bool-cases answers) [
      | inl fine ↦
          simp (other, runs, fine)
            (replaced-IsOwned p l (single-IsOne l w.single) (ground arith) (ground arith))
      | inr fails ↦ simp (other, runs, fails) w
    ]
  ]
]

on_event-IsOwned : (e : Event) (l : Local) → IsDue e l → IsOwned l → IsOwned (on_event e l)
unfolding on_event
on_event-IsOwned (binds false answers) l due w = w
on_event-IsOwned (binds true answers) l due w =
    let l' = record l { is_bound = true } in
    bind_provider-IsOwned answers l' (if l.is_closed then none else l.provider)
      ((idle_bound l due w).0, (idle_bound l due w).1, refl, refl, refl) refl refl
on_event-IsOwned (unbinds false) l due w = w
on_event-IsOwned (unbinds true) l due w =
    let l' = record l { is_bound = false } in
    idle-IsOwned l' _
      (unbound-IsStopped l' (stop_pump_locked l') _
        (stop_pump_locked-IsStopped l' (single-IsOne l w.single)))
      (inl refl)
on_event-IsOwned (starts answers p) l due w = start_write-IsOwned answers p l w
on_event-IsOwned closes l due w = elim (Bool-cases l.is_closed) [
  | inl already ↦ simp already w
  | inr open_ ↦
      let l' = record l { is_closed = true } in
      simp open_ (
        idle-IsOwned l' _
          (closing-IsStopped l' (stop_pump_locked l') _
            (stop_pump_locked-IsStopped l' (single-IsOne l w.single)))
          (inr refl))
]
on_event-IsOwned (ends n) l due w = record {
  single = ended-IsSingle n l w.single;
  needs = w.needs;
  drives = w.drives;
}

-- pion binds the track only while it is not bound.
abbrev pub AreDue : List Event → Local → Type 0
AreDue [] l = Unit
AreDue (e ∷ es) l = IsDue e l × AreDue es (on_event e l)

on_events-IsOwned :
    (es : List Event) (l : Local) → AreDue es l → IsOwned l → IsOwned (on_events es l)
unfolding on_events
on_events-IsOwned [] l due w = w
on_events-IsOwned (e ∷ es) l (now, later) w =
    on_events-IsOwned es (on_event e l) later (on_event-IsOwned e l now w)

-- Whatever happens to a new track, one thing after the other: at most one write loop runs; it is the
-- track's own pump and reads the current provider, and the track is bound and open. A bound and open
-- track that has a provider has a pump. This holds if pion binds the track only while it is not bound.
pub one_reader : (es : List Event) → AreDue es new_local → IsOwned (on_events es new_local)
one_reader es due = on_events-IsOwned es new_local due record {
  single = inl refl;
  needs = λ off. refl;
  drives = λ on open_ given stopped. ground arith;
}
