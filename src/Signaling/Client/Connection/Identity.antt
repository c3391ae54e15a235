-- ===== src/Signaling/Client/Connection/Identity.antt =====
-- The client's id and whether it counts as connected, over a whole run with lost connections.
use unisockets.Prelude.{
  ℕ, zero, suc, ◌≡◌, refl, ap, ◌∙◌, List, [], ◌∷◌, ◌++◌, append_assoc, some, true, Text,
  Option-cases, Bool-cases, inl, inr,
}
use unisockets.Signaling.Errors.{Result, ok, err}
use unisockets.Signaling.Operation.{Operation}
use unisockets.Signaling.Client.{Client, Effect, handle_operation}
use unisockets.Signaling.Client.Connection.{
  Settings, Connection, new_socket, terminate, send_operation, on_connect, on_disconnect,
  set_timeout, callback, Event, opened, closed, failed, message, elapsed, request, Request, bind,
  accept, shutdown, connect, send_candidate, handle_send, close, call, send, send_raw, call_all,
  on_handled, on_message, send_bind, send_accepting, send_shutdown, send_connect, open_client,
  terminate_socket, handle_connect, set_timer, handle_disconnect, reconnect, on_request, step,
  steps, ◌>>=◌, modify, gets, pure,
}
use unisockets.Signaling.Client.Connection.Knocks.{
  Knocked, knocks, knocked, openings, last_socket, waits, own_knock, steps-Knocked,
}

-- What an acknowledgement makes of the client; nothing else changes it.
abbrev pub acknowledged : Operation → Client → Client
acknowledged (Operation.acknowledgement d) c = record { id = d.id; is_connected = true }
acknowledged _ c = c

abbrev pub last_acknowledged : List Event → Client → Client
last_acknowledged [] c = c
last_acknowledged (message op ∷ es) c = last_acknowledged es (acknowledged op c)
last_acknowledged (_ ∷ es) c = last_acknowledged es c

send_client : (op : Operation) (s : Connection) → (send op s).1.client ≡ s.client
unfolding send call
send_client op s = elim (Option-cases s.socket) [
  | inl e ↦ rw (e, send) refl
  | inr (w, e) ↦ rw (e, send) refl
]

send_raw_client : (msg : Text) (s : Connection) → (send_raw msg s).1.client ≡ s.client
unfolding send_raw call
send_raw_client msg s = elim (Option-cases s.socket) [
  | inl e ↦ rw (e, send_raw) refl
  | inr (w, e) ↦ rw (e, send_raw) refl
]

call_all_client : (es : List Effect) (s : Connection) → (call_all es s).client ≡ s.client
unfolding call_all call
call_all_client [] s = refl
call_all_client (x ∷ es) s = call_all_client es (call (callback x) s)

abbrev client_after : Result (Client × List Effect) → Client → Client
client_after (err e) c = c
client_after (ok (c', es)) c = c'

on_handled_client :
    (r : Result (Client × List Effect)) (s : Connection)
    → (on_handled r s).client ≡ client_after r s.client
unfolding on_handled
on_handled_client (err e) s = refl
on_handled_client (ok (c, es)) s = call_all_client es (record s { client = c })

handled-acknowledged :
    (op : Operation) (c : Client) → client_after (handle_operation op c) c ≡ acknowledged op c
unfolding handle_operation
handled-acknowledged op c =
    elim op as (λ op. client_after (handle_operation op c) c ≡ acknowledged op c) [
      | Operation.acknowledgement d ↦ refl
      | _ ↦ refl
    ]

on_message_client :
    (op : Operation) (s : Connection) → (on_message op s).client ≡ acknowledged op s.client
unfolding on_message
on_message_client op s =
    on_handled_client (handle_operation op s.client) s ∙ handled-acknowledged op s.client

module _ (c : Settings) where
  terminate_client : (s : Connection) → (terminate_socket c s).client ≡ s.client
  unfolding terminate_socket call
  terminate_client s = elim (Option-cases s.socket) [
    | inl e ↦ rw (e, terminate_socket) refl
    | inr (w, e) ↦ elim (Bool-cases c.can_terminate) [
      | inl f ↦ rw (e, f, terminate_socket) refl
      | inr f ↦ rw (e, f, terminate_socket) refl
    ]
  ]

  connect_client : (s : Connection) → (handle_connect c s).1.client ≡ s.client
  unfolding handle_connect send call ◌>>=◌ modify
  connect_client s = elim (Option-cases s.socket) [
    | inl e ↦ rw (e, send) refl
    | inr (w, e) ↦ rw (e, send) refl
  ]

  first-Knocked :
      (s : Connection) → s.made ≡ 0 → s.timers ≡ 0 → s.calls ≡ [] → Knocked 0 0 [] (open_client c s)
  unfolding open_client call
  first-Knocked s e t f = record {
    socket = ap some e;
    made = ap suc e;
    timers = t;
    knocks = ap (λ l. knocks (l ++ new_socket c.address ∷ [])) f;
  }

  request_client : (r : Request) (s : Connection) → (on_request c r s).client ≡ s.client
  unfolding on_request send_bind send_accepting send_shutdown send_connect ◌>>=◌ modify gets pure
  request_client close s = terminate_client s
  request_client (bind alias) s = send_client _ (record s { is_binded = true })
  request_client (accept alias) s = send_client _ s
  request_client (shutdown alias) s = send_client _ s
  request_client (connect uuid alias) s = send_client _ s
  request_client (send_candidate d) s = send_client _ s
  request_client (handle_send msg) s = send_raw_client msg s

  reconnect_client : (k : ℕ) (s : Connection) → (reconnect c k s).client ≡ s.client
  unfolding reconnect open_client call
  reconnect_client zero s = refl
  reconnect_client (suc k) s = refl

  -- The client's id is that of the last acknowledgement, and once a client counts as connected it
  -- does so for good: neither a lost connection nor a request changes either.
  pub steps_identity :
      (es : List Event) (s : Connection) → (steps c es s).client ≡ last_acknowledged es s.client
  unfolding steps step handle_disconnect set_timer call
  steps_identity [] s = refl
  steps_identity (opened ∷ es) s =
      steps_identity es (handle_connect c s).1 ∙ ap (last_acknowledged es) (connect_client s)
  steps_identity (closed ∷ es) s = steps_identity es (handle_disconnect c s)
  steps_identity (failed ∷ es) s =
      steps_identity es (terminate_socket c s) ∙ ap (last_acknowledged es) (terminate_client s)
  steps_identity (message op ∷ es) s =
      steps_identity es (on_message op s) ∙ ap (last_acknowledged es) (on_message_client op s)
  steps_identity (elapsed ∷ es) s =
      steps_identity es (reconnect c s.timers s)
      ∙ ap (last_acknowledged es) (reconnect_client s.timers s)
  steps_identity (request r ∷ es) s =
      steps_identity es (on_request c r s) ∙ ap (last_acknowledged es) (request_client r s)

  -- From its first `open` on, a client that loses its connection comes back: each socket that closes
  -- begins a wait, and the end of each wait that was begun makes the next socket, which replaces the
  -- current one. So in any run the current socket is the last one made, as many waits are left as
  -- were begun and have not ended, and the knocks are one for each socket that has opened, on that
  -- socket, with the client's subnet. Condition: no socket was made, no wait begun and nothing called
  -- before.
  pub steps_knock :
      (es : List Event) (s : Connection)
      → s.made ≡ 0
      → s.timers ≡ 0
      → s.calls ≡ []
      → let t = steps c es (open_client c s) in
        (t.socket ≡ some (last_socket 0 0 es))
        × (t.made ≡ suc (last_socket 0 0 es))
        × (t.timers ≡ waits 0 es)
        × (knocks t.calls ≡ knocked (own_knock c) (openings 0 0 es))
  steps_knock es s none_made none_begun none_called =
      let k =
        steps-Knocked c es 0 0 [] (open_client c s)
          (first-Knocked s none_made none_begun none_called) in
      (k.socket, k.made, k.timers, k.knocks)

  -- `close` does not end a client where sockets can be terminated: once its socket has closed and
  -- the wait is over, the client makes a new socket and knocks on it when that opens.
  pub close_reopens :
      (s : Connection) (w : ℕ)
      → s.socket ≡ some w
      → c.can_terminate ≡ true
      → let t = steps c (request close ∷ closed ∷ elapsed ∷ opened ∷ []) s in
        (t.socket ≡ some s.made)
        × (t.calls
            ≡ s.calls
              ++ terminate w
                ∷ on_disconnect
                ∷ set_timeout c.reconnect_duration
                ∷ new_socket c.address
                ∷ send_operation s.made (Operation.knock (own_knock c))
                ∷ on_connect
                ∷ [])
  unfolding steps step on_request terminate_socket handle_disconnect set_timer reconnect open_client
      handle_connect send call ◌>>=◌ modify
  close_reopens s w e f = rw (e, f, terminate_socket) (refl, simp append_assoc)
