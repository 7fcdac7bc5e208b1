-- ===== src/Track/Local.antt =====
-- track/local.go: when a track reads its provider. A provider is a number; what pion and the providers
-- answer is an input. Bind and Unbind set the binding before they take the lock, so that each is two
-- steps. The callbacks of the application are left out.
pub mod Overtaken
pub mod Reading
use getstream_go_webrtc.Base.{
  ℕ, suc, ◌+◌, Bool, true, false, not, ◌&&◌, Option, none, some, List, [], ◌∷◌, ◌++◌, ◌==◌,
  if◌then◌else◌,
}

-- The calls of a provider that returned no error
pub data Call : Type 0 where
  on_bind : ℕ → Call
  on_unbind : ℕ → Call
  on_close : ℕ → Call

-- A write loop that runs: the number of its pump and the provider that it reads
pub record Loop : Type 0 where
  pub pump : ℕ
  pub reads : ℕ

-- The track, with the loops that run and what the providers were told
pub record Local : Type 0 where
  pub is_bound : Bool
  pub provider : Option ℕ
  pub pump : Option ℕ
  pub is_closed : Bool
  pub loops : List Loop
  pub next_pump : ℕ
  pub calls : List Call

abbrev pub new_local : Local
new_local = record {
  is_bound = false;
  provider = none;
  pump = none;
  is_closed = false;
  loops = [];
  next_pump = 0;
  calls = [];
}

abbrev pub told : Call → Local → Local
told c l = record l { calls = l.calls ++ (c ∷ []) }

-- `startPumpLocked`
unfoldable pub start_pump_locked : ℕ → Local → Local
start_pump_locked p l = record l {
  pump = some l.next_pump;
  loops = record { pump = l.next_pump; reads = p } ∷ l.loops;
  next_pump = l.next_pump + 1;
}

-- A loop ends when it is cancelled, or when its provider has no more.
unfoldable pub ended : ℕ → List Loop → List Loop
ended n [] = []
ended n (loop ∷ loops) = let rest = ended n loops in if loop.pump == n then rest else loop ∷ rest

-- `stopPumpLocked`, which waits for the loop to end
unfoldable pub stop_pump_locked : Local → Local
unfolding ended
stop_pump_locked l = elim l.pump [
  | none ↦ l
  | some n ↦ record l { pump = none; loops = ended n l.loops }
]

-- `Bind` before it takes the lock: whether pion binds the track and the binding can be made
unfoldable pub bind_attached : Bool → Local → Bool × Local
bind_attached false l = (false, l)
bind_attached true l = (true, record l { is_bound = true })

-- `Bind` under the lock, with the answer of the provider's OnBind
unfoldable pub bind_provider : Bool → Option ℕ → Local → Bool × Local
unfolding start_pump_locked
bind_provider answers none l = (true, l)
bind_provider false (some p) l = (false, record l { is_bound = false })
bind_provider true (some p) l = (true, start_pump_locked p (told (on_bind p) l))

unfoldable pub bind_locked : Bool → Local → Bool × Local
unfolding bind_provider
bind_locked answers l = bind_provider answers (if l.is_closed then none else l.provider) l

-- `Bind`, if nothing comes in between
unfoldable pub bind : Bool → Bool → Local → Bool × Local
unfolding bind_attached bind_locked
bind attaches answers l =
    let first = bind_attached attaches l in if first.0 then bind_locked answers first.1 else first

abbrev pub unbound : Option ℕ → Local → Local
unbound none l = l
unbound (some p) l = told (on_unbind p) l

-- `Unbind` under the lock
unfoldable pub unbind_locked : Local → Local
unbind_locked l = let stopped = stop_pump_locked l in unbound stopped.provider stopped

-- `Unbind`, if nothing comes in between and pion unbinds the track
unfoldable pub unbind : Bool → Local → Bool × Local
unfolding unbind_locked
unbind false l = (false, l)
unbind true l = (true, unbind_locked (record l { is_bound = false }))

abbrev pub is_provider : ℕ → Option ℕ → Bool
is_provider p none = false
is_provider p (some q) = p == q

-- The provider that replaces another on a bound track
unfoldable pub replaced : ℕ → Local → Local
unfolding start_pump_locked
replaced p l =
    let stopped = stop_pump_locked (told (on_bind p) l) in
    start_pump_locked p (unbound stopped.provider stopped)

-- `StartWrite`, with the answer of the new provider's OnBind
unfoldable pub start_write : Bool → ℕ → Local → Bool × Local
unfolding replaced
start_write answers p l =
    if is_provider p l.provider
    then (true, l)
    else if l.is_bound && not l.is_closed
    then (if answers then (true, record (replaced p l) { provider = some p }) else (false, l))
    else (true, record l { provider = some p })

abbrev pub closing : Option ℕ → Local → Local
closing none l = l
closing (some p) l = told (on_close p) l

-- `Close`
unfoldable pub close : Local → Local
close l =
    let stopped = stop_pump_locked (record l { is_closed = true }) in
    if l.is_closed then l else closing stopped.provider stopped

-- What happens to a track: calls of its methods, and a provider that has no more samples
pub data Event : Type 0 where
  binds : Bool → Bool → Event
  unbinds : Bool → Event
  starts : Bool → ℕ → Event
  closes : Event
  ends : ℕ → Event

unfoldable pub on_event : Event → Local → Local
unfolding bind unbind start_write close
on_event (binds attaches answers) l = (bind attaches answers l).1
on_event (unbinds detaches) l = (unbind detaches l).1
on_event (starts answers p) l = (start_write answers p l).1
on_event closes l = close l
on_event (ends n) l = record l { loops = ended n l.loops }

unfoldable pub on_events : List Event → Local → Local
unfolding on_event
on_events [] l = l
on_events (e ∷ es) l = on_events es (on_event e l)
