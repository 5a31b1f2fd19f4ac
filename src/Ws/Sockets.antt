-- ===== src/Ws/Sockets.antt =====
-- src/ws/ws.go, the goroutines of a connection: `Heartbeat`, which writes what comes in its channel,
-- and `GetHeartbeat`, which reads until there is an error. The channel has no room, so that `Send`
-- waits for a `Heartbeat` that receives, and where that has returned it waits for ever.
pub mod Delivery
use grandma_scheduling_servi.Prelude.{
  ℕ, Bool, true, false, List, [], ◌∷◌, ◌++◌, Option, none, some, if◌then◌else◌, Outcome, done,
  blocked, ◌>>=◌, Result, ok, err, ◌==◌,
}
use grandma_scheduling_servi.Prelude.Text.{Bytes}
use grandma_scheduling_servi.Ws.{Connection, Error, no_live_connection, ConnMap, leave, recipients}

pub data Frame : Type 0 where
  text : Bytes → Frame
  ping : Frame

-- `beats`: its `Heartbeat` has not returned.
pub record Socket : Type 0 where
  pub beats : Bool
  pub closed : Bool
  pub written : List Frame

-- Each connection's, by its address.
abbrev pub Sockets : Type 0
Sockets = ℕ → Socket

abbrev pub set_socket : ℕ → Socket → Sockets → Sockets
set_socket p s ss = λ q. if p == q then s else ss q

-- One turn of the loop of `Heartbeat`; `fine` says whether the write succeeds.
unfoldable pub heartbeat : Bool → Frame → Socket → Socket
heartbeat true frame s = record s { written = s.written ++ (frame ∷ []) }
heartbeat false frame s = record s { beats = false; closed = true }

-- The end of `GetHeartbeat`.
unfoldable pub get_heartbeat : Connection → ConnMap × Sockets → ConnMap × Sockets
get_heartbeat c (m, ss) =
    ((leave c m).1, set_socket c.pointer (record (ss c.pointer) { closed = true }) ss)

-- The loop of `Send`: each recipient's `Heartbeat` takes the message and writes it.
unfoldable pub hand_over : (ℕ → Bool) → Bytes → List Connection → Sockets → Outcome Sockets
hand_over fine msg [] ss = done ss
hand_over fine msg (c ∷ cs) ss =
    let s = ss c.pointer in
    let rest =
      hand_over fine msg cs (set_socket c.pointer (heartbeat (fine c.pointer) (text msg) s) ss) in
    if s.beats then rest else blocked

unfoldable pub send_message :
    (ℕ → Bool) → Bytes → Bytes → Bytes → ConnMap → Sockets → Outcome (Result Error Sockets)
unfolding hand_over recipients
send_message fine id key msg m ss = elim (m id) [
  | none ↦ done (err no_live_connection)
  | some l ↦ hand_over fine msg (recipients key l) ss >>= λ ss'. done (ok ss')
]
