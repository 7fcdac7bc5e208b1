-- ===== src/Event/Store.antt =====
-- event/store.go and event/awaiter.go: a store of interceptors and awaiters for one type of events.
-- `select` is the mapping of the store followed by the awaiter's type and its match function.
use getstream_go_webrtc.Base.{
  ℕ, ◌+◌, ◌%◌, ◌^◌, Bool, true, false, Option, none, some, List, [], ◌∷◌, ◌++◌, map, ◌==◌,
  if◌then◌else◌,
}

pub record Interceptor : Type 0 where
  pub fn : ℕ
  pub id : ℕ

module _ (T : Type 0) where
  -- `EventAwaiter`: the events in its channel, and whether it is closed. Its buffer of 32 is never
  -- full, as it is sent one event at most.
  pub record Awaiter : Type 0 where
    pub select : T → Option T
    pub events : List T
    pub is_closed : Bool
    pub timeout : Bool

  pub record Store : Type 0 where
    pub awaiters : List Awaiter
    pub interceptors : List Interceptor
    pub next_id : ℕ  -- uint64

  unfoldable pub add_awaiter : Awaiter → Store → Store
  add_awaiter a s = record s { awaiters = s.awaiters ++ (a ∷ []) }

  -- The id that the returned handler removes, and the store.
  unfoldable pub add_interceptor : ℕ → Store → ℕ × Store
  add_interceptor f s =
      let id = (s.next_id + 1) % 2 ^ 64 in
      (
        id,
        record s {
          next_id = id;
          interceptors = s.interceptors ++ (record { fn = f; id = id } ∷ []);
        },
      )

  unfoldable pub without : ℕ → List Interceptor → List Interceptor
  without id [] = []
  without id (i ∷ is) = let rest = without id is in if i.id == id then is else i ∷ rest

  unfoldable pub remove_interceptor : ℕ → Store → Store
  remove_interceptor id s = record s { interceptors = without id s.interceptors }

  abbrev received : Awaiter → Option T → Bool × Awaiter
  received a none = (false, a)
  received a (some e) = (true, record a { events = a.events ++ (e ∷ []); is_closed = true })

  -- `Match`: whether the store may drop the awaiter, and the awaiter.
  unfoldable pub match_event : T → Awaiter → Bool × Awaiter
  match_event e a =
      if a.timeout then (true, record a { is_closed = true }) else received a (a.select e)

  -- The awaiters that are left, and those that are dropped.
  unfoldable pub offer_all : T → List Awaiter → List Awaiter × List Awaiter
  offer_all e [] = ([], [])
  offer_all e (a ∷ rest) =
      let (matched, a') = match_event e a in
      let (kept, dropped) = offer_all e rest in
      if matched then (kept, a' ∷ dropped) else (a ∷ kept, dropped)

  -- `Intercept`: the interceptors called, the awaiters dropped, and the store.
  unfoldable pub intercept : T → Store → List ℕ × List Awaiter × Store
  intercept e s =
      let (kept, dropped) = offer_all e s.awaiters in
      (map Interceptor.fn s.interceptors, dropped, record s { awaiters = kept })
