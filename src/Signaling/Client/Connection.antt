-- ===== src/Signaling/Client/Connection.antt =====
-- The WebSocket of SignalingClient (pkg/web/signaling/services/signaling-client.ts): `open` and
-- `close`, the socket's listeners, the reconnection, and what each method sends. What is called
-- outside the class is kept in order.
pub mod Knocks
pub mod Identity
use unisockets.Prelude.{
  ℕ, zero, suc, List, [], ◌∷◌, ◌++◌, map, Option, none, some, Bool, true, false, Text,
  if◌then◌else◌,
}
use unisockets.Signaling.Errors.{Result, ok, err, client_closed}
unfoldable pub use unisockets.Run.{continue, pure, throw, gets, modify, ◌>>=◌, ◌>>◌}
use unisockets.Run.{Run}
use unisockets.Signaling.Operation.{Operation, CandidateData}
use unisockets.Signaling.Client.{
  Client, Effect, bind_data, shutdown_data, connect_data, handle_operation,
}

-- The constructor's settings, `self.parentWsId`, and whether sockets have the method `terminate`,
-- which those of browsers lack.
pub record Settings : Type 0 where
  pub address : Text
  pub reconnect_duration : ℕ
  pub subnet : Text
  pub parent_ws : Text
  pub can_terminate : Bool

-- The calls of the WebSocket, of the timer and of the constructor's callbacks. A socket is known by
-- the number of those made before it.
pub data Call : Type 0 where
  new_socket : Text → Call
  terminate : ℕ → Call
  send_operation : ℕ → Operation → Call
  send_text : ℕ → Text → Call
  on_connect : Call
  on_disconnect : Call
  set_timeout : ℕ → Call
  callback : Effect → Call

-- `timers` counts the timers of the reconnection that have not elapsed; each calls `open` once.
pub record Connection : Type 0 where
  pub client : Client
  pub is_binded : Bool
  pub socket : Option ℕ
  pub made : ℕ
  pub timers : ℕ
  pub calls : List Call

abbrev pub Action : Type 0 → Type 0
Action A = Run Connection A

-- What a program asks of the client; the id of a connection is a fresh UUID.
pub data Request : Type 0 where
  bind : Text → Request
  accept : Text → Request
  shutdown : Text → Request
  connect : Text → Text → Request
  send_candidate : CandidateData → Request
  handle_send : Text → Request
  close : Request

-- What happens to the client: the socket's listeners, with a message as `receive` has returned it,
-- a timer of the reconnection that elapses, and requests.
pub data Event : Type 0 where
  opened : Event
  closed : Event
  failed : Event
  message : Operation → Event
  elapsed : Event
  request : Request → Event

unfoldable pub call : Call → Connection → Connection
call c s = record s { calls = s.calls ++ c ∷ [] }

-- `send` of services/signaling-service.ts.
unfoldable pub send : Operation → Action (Unit {0})
unfolding call
send op s = elim s.socket [
  | none ↦ (err client_closed, s)
  | some w ↦ (ok tt, call (send_operation w op) s)
]

unfoldable pub send_raw : Text → Action (Unit {0})
unfolding call
send_raw msg s = elim s.socket [
  | none ↦ (err client_closed, s)
  | some w ↦ (ok tt, call (send_text w msg) s)
]

unfoldable pub call_all : List Effect → Connection → Connection
unfolding call
call_all [] s = s
call_all (x ∷ es) s = call_all es (call (callback x) s)

-- The emitter's `emit` is among the effects; an operation that is refused is a rejection.
unfoldable pub on_handled : Result (Client × List Effect) → Connection → Connection
unfolding call_all
on_handled (err e) s = s
on_handled (ok (c, es)) s = call_all es (record s { client = c })

unfoldable pub on_message : Operation → Connection → Connection
unfolding on_handled
on_message op s = on_handled (handle_operation op s.client) s

-- What each method sends before it waits for its answer.
unfoldable pub send_bind : Text → Action (Unit {0})
unfolding send
send_bind alias = do
  modify (λ s. record s { is_binded = true })
  c ← gets (λ s. s.client)
  send (Operation.bind (bind_data c alias))

unfoldable pub send_accepting : Text → Action (Unit {0})
unfolding send
send_accepting alias = do
  c ← gets (λ s. s.client)
  send (Operation.accepting (record { id = c.id; alias = alias }))

unfoldable pub send_shutdown : Text → Action (Unit {0})
unfolding send
send_shutdown alias = do c ← gets (λ s. s.client); send (Operation.shutdown (shutdown_data c alias))

unfoldable pub send_connect : Text → Text → Action (Unit {0})
unfolding send
send_connect uuid remote_alias = do
  c ← gets (λ s. s.client)
  send (Operation.connect (connect_data c uuid remote_alias))

module _ (c : Settings) where
  unfoldable pub open_client : Connection → Connection
  unfolding call
  open_client s = call (new_socket c.address) (record s { socket = some s.made; made = suc s.made })

  -- `this.client?.terminate && this.client?.terminate()`, in `close` and in the listener of errors.
  unfoldable pub terminate_socket : Connection → Connection
  unfolding call
  terminate_socket s = elim s.socket [
    | none ↦ s
    | some w ↦ if c.can_terminate then call (terminate w) s else s
  ]

  unfoldable pub handle_connect : Action (Unit {0})
  unfolding send call
  handle_connect = do
    send (Operation.knock (record { subnet = c.subnet; parent_ws = c.parent_ws }))
    modify (call on_connect)

  unfoldable pub set_timer : Connection → Connection
  unfolding call
  set_timer s = call (set_timeout c.reconnect_duration) (record s { timers = suc s.timers })

  -- Up to the timer.
  unfoldable pub handle_disconnect : Connection → Connection
  unfolding call set_timer
  handle_disconnect s = set_timer (call on_disconnect s)

  -- What follows in handleDisconnect when a timer has elapsed; none elapses that was not set.
  unfoldable pub reconnect : ℕ → Connection → Connection
  unfolding open_client
  reconnect zero s = s
  reconnect (suc k) s = open_client (record s { timers = k })

  unfoldable pub on_request : Request → Connection → Connection
  unfolding send send_raw send_bind send_accepting send_shutdown send_connect terminate_socket
  on_request (bind alias) s = (send_bind alias s).1
  on_request (accept alias) s = (send_accepting alias s).1
  on_request (shutdown alias) s = (send_shutdown alias s).1
  on_request (connect uuid remote_alias) s = (send_connect uuid remote_alias s).1
  on_request (send_candidate d) s = (send (Operation.candidate d) s).1
  on_request (handle_send msg) s = (send_raw msg s).1
  on_request close s = terminate_socket s

  unfoldable pub step : Event → Connection → Connection
  unfolding reconnect terminate_socket handle_connect handle_disconnect on_message on_request
  step opened s = (handle_connect s).1
  step closed s = handle_disconnect s
  step failed s = terminate_socket s
  step (message op) s = on_message op s
  step elapsed s = reconnect s.timers s
  step (request r) s = on_request r s

  unfoldable pub steps : List Event → Connection → Connection
  unfolding step
  steps [] s = s
  steps (e ∷ es) s = steps es (step e s)
