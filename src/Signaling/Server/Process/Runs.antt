-- ===== src/Signaling/Server/Process/Runs.antt =====
-- Runs of the server's process, from its start: a client is entered only as long as its socket is
-- open, and a socket that falls silent is terminated and its clients are taken out.
use unisockets.Prelude.{
  ◌≡◌, refl, ◌∙◌, List, [], ◌∷◌, Bool, true, false, not, ◌||◌, Option, none, some, Text, text_key,
  arith, nat_key, nat_beq_iff, ◌==◌, All, Option-cases,
}
use unisockets.Map.{Map, get, has, keys, contains, Distinct}
use unisockets.Map.Laws.{get-set}
use unisockets.Map.Keys.{keys-set-Distinct, keys-delete-Distinct, has-delete}
use unisockets.Signaling.Errors.{Result, ok, err}
use unisockets.Signaling.Operation.{Operation}
use unisockets.Signaling.Service.{RawOperation, ReceivedOperation, receive}
use unisockets.Signaling.Server.Action.{Socket, Server, start}
use unisockets.Signaling.Server.Process.{
  Process, Event, connection, pong, message, closed, tick, on_event, on_events, on_connection,
  on_pong, on_message, on_closed, on_tick, on_parsed, on_received,
}
use unisockets.Signaling.Server.Process.Presence.{IsPresent, handle_operation-IsPresent}
use unisockets.Signaling.Server.Process.Listeners.{
  on_closed-IsPresent, on_tick-IsPresent, on_pong-IsPresent, on_connection-IsPresent,
}
use unisockets.Signaling.Server.Process.Heartbeat.{
  Beats, IsQuiet, answers, turn, turns, check_peers-Distinct, turn-Beats,
}

-- The process when it starts to listen.
abbrev pub idle : Process
idle = record { server = start; peers = []; terminated = []; pinged = [] }

-- What the library promises: a new socket is none of those that are open, and messages come from
-- those.
abbrev pub IsPossible : Event → Process → Type 0
IsPossible (connection w) p = has w p.peers ≡ false
IsPossible (message w text) p = has w p.peers ≡ true
IsPossible _ p = Unit

-- Whether the client is entered under the socket.
abbrev pub is_under : Socket → Option Socket → Bool
is_under w none = false
is_under w (some v) = v == w

pub record IsLive (p : Process) : Type 0 where
  pub present : IsPresent p.peers p.server
  pub once : Distinct (keys p.peers)

idle-IsLive : IsLive idle
unfolding get keys
idle-IsLive = record {
  present = record { connected = λ id w e. cc; leaves = λ id w e. cc };
  once = tt;
}

module _ {D : Type 0} (parse : Text → Result (RawOperation D))
    (cast : ReceivedOperation D → Operation) where
  abbrev pub ArePossible : List Event → Process → Type 0
  ArePossible [] p = Unit
  ArePossible (e ∷ es) p = IsPossible e p × ArePossible es (on_event parse cast e p)

  on_received-IsPresent :
      (r : Result (ReceivedOperation D)) (w : Socket) (m : Map Socket Bool) (s : Server)
      → has w m ≡ true
      → IsPresent m s
      → IsPresent m (on_received parse cast r w s)
  unfolding on_received
  on_received-IsPresent (err x) w m s e h = h
  on_received-IsPresent (ok o) w m s e h = (handle_operation-IsPresent (cast o) w e).stays s h

  on_parsed-IsPresent :
      (r : Result (RawOperation D)) (w : Socket) (m : Map Socket Bool) (s : Server)
      → has w m ≡ true
      → IsPresent m s
      → IsPresent m (on_parsed parse cast r w s)
  unfolding on_parsed
  on_parsed-IsPresent (err x) w m s e h = h
  on_parsed-IsPresent (ok raw) w m s e h = on_received-IsPresent (receive raw) w m s e h

  on_event-IsLive :
      (e : Event) (p : Process) → IsPossible e p → IsLive p → IsLive (on_event parse cast e p)
  unfolding on_event on_connection on_pong on_message on_closed on_tick
  on_event-IsLive (connection w) p e h = record {
    present = on_connection-IsPresent w p h.present;
    once = keys-set-Distinct w true p.peers h.once;
  }
  on_event-IsLive (pong w) p e h = record {
    present = on_pong-IsPresent w p h.present;
    once = ground (arith, keys-set-Distinct w true p.peers h.once, h.once);
  }
  on_event-IsLive (message w text) p e h = record {
    present = on_parsed-IsPresent (parse text) w p.peers p.server e h.present;
    once = h.once;
  }
  on_event-IsLive (closed w) p e h = record {
    present = on_closed-IsPresent w p h.present;
    once = keys-delete-Distinct w p.peers h.once;
  }
  on_event-IsLive tick p e h = record {
    present = on_tick-IsPresent p h.present;
    once = check_peers-Distinct p.peers p h.once;
  }

  on_events-IsLive :
      (es : List Event) (p : Process)
      → ArePossible es p
      → IsLive p
      → IsLive (on_events parse cast es p)
  unfolding on_events
  on_events-IsLive [] p q h = h
  on_events-IsLive (e ∷ es) p q h =
      on_events-IsLive es (on_event parse cast e p) q.1 (on_event-IsLive e p q.0 h)

  -- After any run of the process, a client that is entered belongs to a socket that is open.
  -- Conditions: messages come from open sockets, and a new socket is none of those.
  pub on_events-connected :
      (es : List Event) (id : Text) (w : Socket)
      → ArePossible es idle
      → get id (on_events parse cast es idle).server.clients ≡ some w
      → has w (on_events parse cast es idle).peers ≡ true
  on_events-connected es id w q e =
      (on_events-IsLive es idle q idle-IsLive).present.connected id w e

  turn-IsLive :
      (es : List Event) (p : Process) → ArePossible es p → IsLive p → IsLive (turn parse cast es p)
  unfolding turn
  turn-IsLive es p q h =
      on_event-IsLive tick (on_events parse cast es p) tt (on_events-IsLive es p q h)

  -- A connection that has just been made is marked alive.
  connected-Beats :
      (w : Socket) (p : Process)
      → IsLive p
      → Beats w true (contains w p.terminated) (on_event parse cast (connection w) p)
  unfolding on_event on_connection
  connected-Beats w p h = record {
    flag = get-set w w true p.peers ∙ ground arith;
    terminated = refl;
    once = keys-set-Distinct w true p.peers h.once;
  }

  -- Nothing is entered under a socket that has closed.
  closed_leaves :
      (w : Socket) (id : Text) (p : Process)
      → IsLive p
      → is_under w (get id (on_event parse cast (closed w) p).server.clients) ≡ false
  unfolding on_event on_closed
  closed_leaves w id p h =
      let h' = on_closed-IsPresent w p h.present in
      ground (
        arith,
        Option-cases (get id (on_closed w p).server.clients),
        h'.connected id w,
        has-delete w w p.peers,
        nat_beq_iff w w,
      )

  -- A socket that has just connected and does not answer the first ping is terminated by the second,
  -- and once it has closed no client is entered under it. Conditions: the events can happen, and the
  -- socket does not close by itself before.
  pub silent_leaves :
      (before first second : List Event) (w : Socket) (id : Text)
      → let s = on_events parse cast before idle in
        let p = on_event parse cast (connection w) s in
        ArePossible before idle
        → has w s.peers ≡ false
        → ArePossible first p
        → ArePossible second (turn parse cast first p)
        → All (IsQuiet w) first
        → All (IsQuiet w) second
        → answers w second ≡ false
        → let q = turns parse cast (first ∷ second ∷ []) p in
          (contains w q.terminated ≡ true)
          × (is_under w (get id (on_event parse cast (closed w) q).server.clients) ≡ false)
  unfolding turns
  silent_leaves before first second w id possible new possible' possible'' quiet quiet' silent =
      let s = on_events parse cast before idle in
      let p = on_event parse cast (connection w) s in
      let t = turn parse cast first p in
      let live = on_events-IsLive before idle possible idle-IsLive in
      let live' = turn-IsLive first p possible' (on_event-IsLive (connection w) s new live) in
      let beats =
        turn-Beats parse cast w first true (contains w s.terminated) p quiet
          (connected-Beats w s live) in
      let beats' =
        turn-Beats parse cast w second false (contains w s.terminated || not true) t quiet' beats in
      (
        ground (arith, beats'.terminated, silent),
        closed_leaves w id (turn parse cast second t) (turn-IsLive second t possible'' live'),
      )
