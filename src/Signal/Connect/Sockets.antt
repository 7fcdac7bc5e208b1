-- ===== src/Signal/Connect/Sockets.antt =====
-- signal/client.go: the sockets that a connect leaves behind.
use getstream_go_webrtc.Base.{
  ℕ, ◌≡◌, refl, Bool, true, false, Option, none, some, List, [], ◌∷◌, ◌++◌, arith, inl, inr, ◌<◌,
  Bool-cases,
}
use getstream_go_webrtc.Signal.Events.{raw_handler, on, intercept, handle, dispatched, error}
use getstream_go_webrtc.Signal.Connect.{
  Response, joined, refused, surprising, World, Client, without, dialed, closed, answered,
  read_response, connect,
}

-- The sockets that are open have been dialed.
abbrev pub Below : ℕ → List ℕ → Type 0
Below n [] = Unit
Below n (m ∷ ms) = (m < n) × Below n ms

without-Below : (n : ℕ) (ms : List ℕ) → Below n ms → without n ms ≡ ms
unfolding without
without-Below n [] below = refl
without-Below n (m ∷ ms) (small, below) = ground (arith, without-Below n ms below)

without-fresh : (n : ℕ) (ms : List ℕ) → Below n ms → without n (n ∷ ms) ≡ ms
unfolding without
without-fresh n ms below = ground (arith, without-Below n ms below)

-- What a connect leaves behind: one more socket, open and read and the client's connection, if it got a
-- join response; otherwise no socket more than before, and the connection that there was.
abbrev pub Leaves : Bool → Client → Client → Type 0
Leaves true c c' =
    (c'.open_sockets ≡ c.next ∷ c.open_sockets)
    × (c'.loops ≡ c.next ∷ c.loops)
    × (c'.conn ≡ some c.next)
Leaves false c c' = (c'.open_sockets ≡ c.open_sockets) × (c'.loops ≡ c.loops) × (c'.conn ≡ c.conn)

shut_again : (c : Client) → Below c.next c.open_sockets → Leaves false c (closed c.next (dialed c))
shut_again c below = (without-fresh c.next c.open_sockets below, refl, refl)

answered-Leaves :
    (response : Response) (c : Client)
    → Below c.next c.open_sockets
    → let done = answered c.next response (dialed c) in Leaves done.0 c done.1
unfolding answered
answered-Leaves joined c below = (refl, refl, refl)
answered-Leaves refused c below = shut_again c below
answered-Leaves (surprising kind) c below = shut_again c below

read_response-Leaves :
    (world : World) (reads : Option Response) (c : Client)
    → Below c.next c.open_sockets
    → let done = read_response world c.next reads (dialed c) in Leaves done.0 c done.1
unfolding read_response
read_response-Leaves world none c below = shut_again c below
read_response-Leaves world (some response) c below = elim (Bool-cases world.clears_deadline) [
  | inl fine ↦ rw fine (answered-Leaves response c below)
  | inr failed ↦ rw failed (shut_again c below)
]

-- However a connect ends, no socket is left open without a reader: a join response leaves exactly its own
-- socket more, and everything else leaves the sockets and the connection that there were.
pub connect-Leaves :
    (world : World) (c : Client)
    → Below c.next c.open_sockets
    → Leaves (connect world c).0 c (connect world c).1
unfolding connect read_response
connect-Leaves world c below = elim (Bool-cases world.dials) [
  | inr failed ↦ rw failed (refl, refl, refl)
  | inl dials ↦ elim (Bool-cases world.writes) [
    | inr failed ↦ rw (dials, failed) (shut_again c below)
    | inl writes ↦ elim (Bool-cases world.has_deadline) [
      | inr none_set ↦ rw (dials, writes, none_set) (read_response-Leaves world world.reads c below)
      | inl some_set ↦ elim (Bool-cases world.sets_deadline) [
        | inl sets ↦
            rw (dials, writes, some_set, sets) (read_response-Leaves world world.reads c below)
        | inr failed ↦ rw (dials, writes, some_set, failed) (shut_again c below)
      ]
    ]
  ]
]

-- The SFU's refusal reaches the Handler of an attached client twice.
pub refused_twice :
    (c : Client) (n : ℕ)
    → (answered n refused (record c { detached = false })).1.calls
      ≡ c.calls
        ++ (raw_handler error
            ∷ (on error ∷ (intercept error ∷ (raw_handler error ∷ (on error ∷ [])))))
unfolding answered handle dispatched
refused_twice c n = refl
