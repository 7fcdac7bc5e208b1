-- ===== src/Signal/Connect.antt =====
-- signal/client.go: Connect, and the pointer to the connection. The socket, the codec and the SFU are
-- what they answer; a connection is a number.
pub mod Sockets
use getstream_go_webrtc.Base.{
  ℕ, ◌+◌, ◌≡◌, refl, Bool, true, false, not, Option, none, some, List, [], ◌∷◌, ◌++◌, ◌==◌,
  if◌then◌else◌, arith, inl, inr, ◌<◌, Bool-cases,
}
use getstream_go_webrtc.Signal.Events.{
  Kind, Call, raw_handler, on, intercept, handle, dispatched, error, join_response,
}

-- What the SFU answers to a join request
pub data Response : Type 0 where
  joined : Response
  refused : Response
  surprising : Kind → Response

-- What each step of a connect meets; a read that fails is none.
pub record World : Type 0 where
  pub dials : Bool
  pub writes : Bool
  pub has_deadline : Bool
  pub sets_deadline : Bool
  pub reads : Option Response
  pub clears_deadline : Bool

-- A connection of the client, and what has become of the sockets
pub record Client : Type 0 where
  pub conn : Option ℕ
  pub next : ℕ
  pub open_sockets : List ℕ
  pub loops : List ℕ  -- the connections that are read
  pub detached : Bool
  pub calls : List Call

unfoldable pub without : ℕ → List ℕ → List ℕ
without n [] = []
without n (m ∷ ms) = let rest = without n ms in if m == n then rest else m ∷ rest

abbrev pub dialed : Client → Client
dialed c = record c { next = c.next + 1; open_sockets = c.next ∷ c.open_sockets }

abbrev pub closed : ℕ → Client → Client
closed n c = record c { open_sockets = without n c.open_sockets }

abbrev pub told : List Call → Client → Client
told calls c = record c { calls = c.calls ++ calls }

-- The `switch` on the response, and whether it is a join response; the deferred close comes last.
unfoldable pub answered : ℕ → Response → Client → Bool × Client
answered n joined c =
    (true, told (handle c.detached join_response) (record c { conn = some n; loops = n ∷ c.loops }))
answered n refused c =
    (false, closed n (told (raw_handler error ∷ (on error ∷ handle c.detached error)) c))
answered n (surprising kind) c = (false, closed n c)

-- `Connect` from the read on
unfoldable pub read_response : World → ℕ → Option Response → Client → Bool × Client
read_response world n none c = (false, closed n c)
read_response world n (some response) c =
    if world.clears_deadline then answered n response c else (false, closed n c)

unfoldable pub connect : World → Client → Bool × Client
connect world c =
    let c' = dialed c in
    if not world.dials
    then (false, c)
    else if not world.writes
    then (false, closed c.next c')
    else if world.has_deadline
    then (if world.sets_deadline
        then read_response world c.next world.reads c'
        else (false, closed c.next c'))
    else read_response world c.next world.reads c'

abbrev pub cleared : ℕ → Option ℕ → Option ℕ
cleared n none = none
cleared n (some m) = if m == n then none else some m

-- The end of `readLoop`: it closes its connection, and clears the pointer if that still refers to it.
unfoldable pub read_loop_ends : ℕ → Client → Client
read_loop_ends n c = record (closed n c) { conn = cleared n c.conn; loops = without n c.loops }

-- `Disconnect`, but for what it returns
unfoldable pub disconnect : Client → Client
disconnect c = elim c.conn [ none ↦ c | some n ↦ record (closed n c) { conn = none } ]
