-- ===== src/Signaling/Server/Process.antt =====
-- The listeners that SignalingServer.open puts on the WebSocket server and on each socket
-- (pkg/web/signaling/services/signaling-server.ts): connections, pongs, messages, the interval that
-- pings, and sockets that close. `JSON.parse` and the cast of what it gives are parameters.
pub mod Presence
pub mod Listeners
pub mod Heartbeat
pub mod Runs
use unisockets.Prelude.{
  ℕ, List, [], ◌∷◌, ◌++◌, Bool, true, false, Text, nat_key, ◌==◌, if◌then◌else◌,
}
use unisockets.Map.{Map, has, set, delete}
use unisockets.Signaling.Errors.{Result, ok, err}
use unisockets.Signaling.Operation.{Operation}
use unisockets.Signaling.Service.{RawOperation, ReceivedOperation, receive}
use unisockets.Signaling.Server.Action.{Socket, Server}
use unisockets.Signaling.Server.Handlers.{handle_operation}
use unisockets.Signaling.Server.Goodbye.{handle_close}

-- `peers` is the set `clients` of the WebSocket server, which holds the sockets that are open, each
-- with its `isAlive`. `terminated` and `pinged` hold the calls of these two methods of a socket.
pub record Process : Type 0 where
  pub server : Server
  pub peers : Map Socket Bool
  pub terminated : List Socket
  pub pinged : List Socket

-- What the library calls a listener for. A message is the text that came.
pub data Event : Type 0 where
  connection : Socket → Event
  pong : Socket → Event
  message : Socket → Text → Event
  closed : Socket → Event
  tick : Event

unfoldable pub on_connection : Socket → Process → Process
on_connection w p = record p { peers = set w true p.peers }

-- The socket may have left the set.
unfoldable pub on_pong : Socket → Process → Process
on_pong w p = record p { peers = if has w p.peers then set w true p.peers else p.peers }

-- The callback of `server.clients.forEach`: a socket that did not answer the last ping goes.
unfoldable pub check_peer : Socket → Bool → Process → Process
check_peer w false p = record p { terminated = p.terminated ++ w ∷ [] }
check_peer w true p = record p { peers = set w false p.peers; pinged = p.pinged ++ w ∷ [] }

unfoldable pub check_peers : Map Socket Bool → Process → Process
unfolding check_peer
check_peers [] p = p
check_peers ((w, is_alive) ∷ rest) p = check_peers rest (check_peer w is_alive p)

unfoldable pub on_tick : Process → Process
unfolding check_peers
on_tick p = check_peers p.peers p

-- The "close" listeners of a socket, each from start to end before the next.
unfoldable pub fire : Socket → List (Socket × Text) → Server → Server
fire w [] s = s
fire w ((v, id) ∷ rest) s = fire w rest (if v == w then (handle_close id s).1 else s)

unfoldable pub on_closed : Socket → Process → Process
unfolding fire
on_closed w p = record p { peers = delete w p.peers; server = fire w p.server.closing p.server }

module _ {D : Type 0} (parse : Text → Result (RawOperation D))
    (cast : ReceivedOperation D → Operation) where
  -- An error here is a rejection that nothing awaits.
  unfoldable pub on_received : Result (ReceivedOperation D) → Socket → Server → Server
  on_received (err e) w s = s
  on_received (ok o) w s = (handle_operation (cast o) w s).1

  unfoldable pub on_parsed : Result (RawOperation D) → Socket → Server → Server
  unfolding on_received
  on_parsed (err e) w s = s
  on_parsed (ok raw) w s = on_received (receive raw) w s

  unfoldable pub on_message : Socket → Text → Process → Process
  unfolding on_parsed
  on_message w text p = record p { server = on_parsed (parse text) w p.server }

  unfoldable pub on_event : Event → Process → Process
  unfolding on_connection on_pong on_message on_closed on_tick
  on_event (connection w) p = on_connection w p
  on_event (pong w) p = on_pong w p
  on_event (message w text) p = on_message w text p
  on_event (closed w) p = on_closed w p
  on_event tick p = on_tick p

  unfoldable pub on_events : List Event → Process → Process
  unfolding on_event
  on_events [] p = p
  on_events (e ∷ es) p = on_events es (on_event e p)
