-- ===== src/Track/Local/Overtaken.antt =====
-- track/local.go: a Bind that is overtaken.
use getstream_go_webrtc.Base.{
  ℕ, ◌+◌, ◌≡◌, refl, ap, true, false, Option, none, some, List, [], map, ◌∷◌, arith,
}
use getstream_go_webrtc.Track.Local.{
  Local, is_provider, Call, start_pump_locked, ended, stop_pump_locked, bind_attached, bind_locked,
  replaced, start_write, close,
}

-- An open track that is not bound, with no loop
abbrev pub waiting : Option ℕ → ℕ → List Call → Local
waiting q next calls = record {
  is_bound = false;
  provider = q;
  pump = none;
  is_closed = false;
  loops = [];
  next_pump = next;
  calls = calls;
}

-- A track whose Bind was overtaken by the start of a provider
abbrev pub overtaken : ℕ → Local → Local
overtaken p l = (bind_locked true (start_write true p (bind_attached true l).1).1).1

overtaken-twice :
    (p next : ℕ) (q : Option ℕ) (calls : List Call)
    → is_provider p q ≡ false
    → let both = overtaken p (waiting q next calls) in
      (both.loops ≡ record { pump = next + 1; reads = p } ∷ record { pump = next; reads = p } ∷ [])
      × (both.pump ≡ some (next + 1))
      × (both.is_closed ≡ false)
      × (both.provider ≡ some p)
unfolding start_write bind_attached bind_locked replaced stop_pump_locked start_pump_locked
overtaken-twice p next none calls other = (refl, refl, refl, refl)
overtaken-twice p next (some q) calls other =
    (ground arith, ground arith, ground arith, ground arith)

close-twice :
    (l : Local) (n p : ℕ)
    → l.loops ≡ record { pump = n + 1; reads = p } ∷ record { pump = n; reads = p } ∷ []
    → l.pump ≡ some (n + 1)
    → l.is_closed ≡ false
    → l.provider ≡ some p
    → (close l).loops ≡ record { pump = n; reads = p } ∷ []
unfolding close stop_pump_locked ended
close-twice l n p loops on open_ given = ground arith

-- A start of another provider between the two halves of Bind: two loops read it, and after Close the one
-- that was started first still does.
pub start_during_bind :
    (p next : ℕ) (q : Option ℕ) (calls : List Call)
    → is_provider p q ≡ false
    → let both = overtaken p (waiting q next calls) in
      (map (λ loop. loop.reads) both.loops ≡ p ∷ p ∷ [])
      × ((close both).loops ≡ record { pump = next; reads = p } ∷ [])
start_during_bind p next q calls other =
    let (loops, on, open_, given) = overtaken-twice p next q calls other in
    (
      ap (map (λ loop. loop.reads)) loops,
      close-twice (overtaken p (waiting q next calls)) next p loops on open_ given,
    )
