-- ===== src/Signaling/Client/Connection/Knocks.antt =====
-- A client that loses its connection opens the next one, and each socket that opens gets one knock.
use unisockets.Prelude.{
  ℕ, zero, suc, ◌≡◌, refl, sym, ap, ◌∙◌, List, [], ◌∷◌, ◌++◌, append_assoc, append-nil, some, true,
  Text, Bool-cases, inl, inr, subst,
}
use unisockets.Signaling.Errors.{Result, ok, err}
use unisockets.Signaling.Operation.{Operation, KnockData}
use unisockets.Signaling.Client.{Client, Effect, handle_operation}
use unisockets.Signaling.Client.Connection.{
  Settings, Connection, Call, new_socket, terminate, send_operation, send_text, on_connect,
  on_disconnect, set_timeout, callback, Event, opened, closed, failed, message, elapsed, request,
  Request, bind, accept, shutdown, connect, send_candidate, handle_send, close, call, send,
  send_raw, call_all, on_handled, on_message, send_bind, send_accepting, send_shutdown,
  send_connect, open_client, terminate_socket, handle_connect, set_timer, handle_disconnect,
  reconnect, on_request, step, steps, ◌>>=◌, modify, gets, pure,
}

-- The socket that a call gives a knock, and what the knock says.
abbrev pub knocks_of : Call → List (ℕ × KnockData)
knocks_of (send_operation w (Operation.knock d)) = (w, d) ∷ []
knocks_of _ = []

abbrev pub knocks : List Call → List (ℕ × KnockData)
knocks [] = []
knocks (c ∷ l) = knocks_of c ++ knocks l

-- The sockets that open in a run whose current socket is `w`, with `k` waits begun: each socket that
-- closes begins a wait, and the next socket is made at the end of a wait that was begun.
abbrev pub openings : ℕ → ℕ → List Event → List ℕ
openings k w [] = []
openings k w (opened ∷ es) = w ∷ openings k w es
openings k w (closed ∷ es) = openings (suc k) w es
openings zero w (elapsed ∷ es) = openings zero w es
openings (suc k) w (elapsed ∷ es) = openings k (suc w) es
openings k w (_ ∷ es) = openings k w es

-- The socket after such a run.
abbrev pub last_socket : ℕ → ℕ → List Event → ℕ
last_socket k w [] = w
last_socket k w (closed ∷ es) = last_socket (suc k) w es
last_socket zero w (elapsed ∷ es) = last_socket zero w es
last_socket (suc k) w (elapsed ∷ es) = last_socket k (suc w) es
last_socket k w (_ ∷ es) = last_socket k w es

-- The waits that have not ended after such a run.
abbrev pub waits : ℕ → List Event → ℕ
waits k [] = k
waits k (closed ∷ es) = waits (suc k) es
waits zero (elapsed ∷ es) = waits zero es
waits (suc k) (elapsed ∷ es) = waits k es
waits k (_ ∷ es) = waits k es

abbrev pub knocked : KnockData → List ℕ → List (ℕ × KnockData)
knocked d [] = []
knocked d (w ∷ l) = (w, d) ∷ knocked d l

knocks-append : (l k : List Call) → knocks (l ++ k) ≡ knocks l ++ knocks k
knocks-append [] k = refl
knocks-append (c ∷ l) k =
    ap (λ x. knocks_of c ++ x) (knocks-append l k)
    ∙ sym (append_assoc (knocks_of c) (knocks l) (knocks k))

-- The socket is the last one that was made, and these are the knocks.
pub record Knocked (k w : ℕ) (l : List (ℕ × KnockData)) (s : Connection) : Type 0 where
  pub socket : s.socket ≡ some w
  pub made : s.made ≡ suc w
  pub timers : s.timers ≡ k
  pub knocks : knocks s.calls ≡ l

call-Knocked :
    (c : Call) (k w : ℕ) (l : List (ℕ × KnockData)) (s : Connection)
    → Knocked k w l s
    → Knocked k w (l ++ knocks_of c) (call c s)
unfolding call
call-Knocked c k w l s h = record {
  socket = h.socket;
  made = h.made;
  timers = h.timers;
  knocks =
      knocks-append s.calls (c ∷ [])
      ∙ ap (λ x. knocks s.calls ++ x) (append-nil (knocks_of c))
      ∙ ap (λ x. x ++ knocks_of c) h.knocks;
}

-- A call that is no knock.
other-Knocked :
    (c : Call) (k w : ℕ) (l : List (ℕ × KnockData)) (s : Connection)
    → knocks_of c ≡ []
    → Knocked k w l s
    → Knocked k w l (call c s)
other-Knocked c k w l s e h =
    subst (λ x. Knocked k w x (call c s)) (ap (λ x. l ++ x) e ∙ append-nil l)
      (call-Knocked c k w l s h)

-- An operation that is no knock.
send-Knocked :
    (op : Operation) (k w : ℕ) (l : List (ℕ × KnockData)) (s : Connection)
    → knocks_of (send_operation w op) ≡ []
    → Knocked k w l s
    → Knocked k w l (send op s).1
unfolding send
send-Knocked op k w l s e h = rw (h.socket, send) (other-Knocked (send_operation w op) k w l s e h)

send_raw-Knocked :
    (msg : Text) (k w : ℕ) (l : List (ℕ × KnockData)) (s : Connection)
    → Knocked k w l s
    → Knocked k w l (send_raw msg s).1
unfolding send_raw
send_raw-Knocked msg k w l s h =
    rw (h.socket, send_raw) (other-Knocked (send_text w msg) k w l s refl h)

call_all-Knocked :
    (es : List Effect) (k w : ℕ) (l : List (ℕ × KnockData)) (s : Connection)
    → Knocked k w l s
    → Knocked k w l (call_all es s)
unfolding call_all
call_all-Knocked [] k w l s h = h
call_all-Knocked (x ∷ es) k w l s h =
    call_all-Knocked es k w l (call (callback x) s) (other-Knocked (callback x) k w l s refl h)

on_handled-Knocked :
    (r : Result (Client × List Effect)) (k w : ℕ) (l : List (ℕ × KnockData)) (s : Connection)
    → Knocked k w l s
    → Knocked k w l (on_handled r s)
unfolding on_handled
on_handled-Knocked (err e) k w l s h = h
on_handled-Knocked (ok (c, es)) k w l s h =
    call_all-Knocked es k w l (record s { client = c })
      (record { socket = h.socket; made = h.made; timers = h.timers; knocks = h.knocks })

module _ (c : Settings) where
  abbrev pub own_knock : KnockData
  own_knock = record { subnet = c.subnet; parent_ws = c.parent_ws }

  terminate_socket-Knocked :
      (k w : ℕ) (l : List (ℕ × KnockData)) (s : Connection)
      → Knocked k w l s
      → Knocked k w l (terminate_socket c s)
  unfolding terminate_socket
  terminate_socket-Knocked k w l s h = elim (Bool-cases c.can_terminate) [
    | inl e ↦ rw (h.socket, e, terminate_socket) (other-Knocked (terminate w) k w l s refl h)
    | inr e ↦ rw (h.socket, e, terminate_socket) h
  ]

  on_request-Knocked :
      (r : Request) (k w : ℕ) (l : List (ℕ × KnockData)) (s : Connection)
      → Knocked k w l s
      → Knocked k w l (on_request c r s)
  unfolding on_request send_bind send_accepting send_shutdown send_connect ◌>>=◌ modify gets pure
  on_request-Knocked close k w l s h = terminate_socket-Knocked k w l s h
  on_request-Knocked (bind alias) k w l s h =
      send-Knocked _ k w l (record s { is_binded = true }) refl
        (record { socket = h.socket; made = h.made; timers = h.timers; knocks = h.knocks })
  on_request-Knocked (accept alias) k w l s h = send-Knocked _ k w l s refl h
  on_request-Knocked (shutdown alias) k w l s h = send-Knocked _ k w l s refl h
  on_request-Knocked (connect uuid alias) k w l s h = send-Knocked _ k w l s refl h
  on_request-Knocked (send_candidate d) k w l s h = send-Knocked _ k w l s refl h
  on_request-Knocked (handle_send msg) k w l s h = send_raw-Knocked msg k w l s h

  handle_connect-Knocked :
      (k w : ℕ) (l : List (ℕ × KnockData)) (s : Connection)
      → Knocked k w l s
      → Knocked k w (l ++ (w, own_knock) ∷ []) (handle_connect c s).1
  unfolding handle_connect send ◌>>=◌ modify
  handle_connect-Knocked k w l s h =
      rw (h.socket, send)
        (other-Knocked on_connect k w (l ++ (w, own_knock) ∷ [])
          (call (send_operation w (Operation.knock own_knock)) s) refl
          (call-Knocked (send_operation w (Operation.knock own_knock)) k w l s h))

  open_client-Knocked :
      (k w : ℕ) (l : List (ℕ × KnockData)) (s : Connection)
      → Knocked k w l s
      → Knocked k (suc w) l (open_client c s)
  unfolding open_client
  open_client-Knocked k w l s h =
      other-Knocked (new_socket c.address) k (suc w) l
        (record s { socket = some s.made; made = suc s.made }) refl
        (record {
          socket = ap some h.made;
          made = ap suc h.made;
          timers = h.timers;
          knocks = h.knocks;
        })

  handle_disconnect-Knocked :
      (k w : ℕ) (l : List (ℕ × KnockData)) (s : Connection)
      → Knocked k w l s
      → Knocked (suc k) w l (handle_disconnect c s)
  unfolding handle_disconnect set_timer
  handle_disconnect-Knocked k w l s h =
      let t = call on_disconnect s in
      let u = other-Knocked on_disconnect k w l s refl h in
      other-Knocked (set_timeout c.reconnect_duration) (suc k) w l
        (record t { timers = suc t.timers }) refl
        (record { socket = u.socket; made = u.made; timers = ap suc u.timers; knocks = u.knocks })

  -- No timer, no socket.
  reconnect-Knocked_none :
      (w : ℕ) (l : List (ℕ × KnockData)) (s : Connection)
      → Knocked 0 w l s
      → Knocked 0 w l (reconnect c s.timers s)
  unfolding reconnect
  reconnect-Knocked_none w l s h = subst (λ j. Knocked 0 w l (reconnect c j s)) (sym h.timers) h

  reconnect-Knocked :
      (k w : ℕ) (l : List (ℕ × KnockData)) (s : Connection)
      → Knocked (suc k) w l s
      → Knocked k (suc w) l (reconnect c s.timers s)
  unfolding reconnect
  reconnect-Knocked k w l s h =
      subst (λ j. Knocked k (suc w) l (reconnect c j s)) (sym h.timers)
        (open_client-Knocked k w l (record s { timers = k })
          (record { socket = h.socket; made = h.made; timers = refl; knocks = h.knocks }))

  pub steps-Knocked :
      (es : List Event) (k w : ℕ) (l : List (ℕ × KnockData)) (s : Connection)
      → Knocked k w l s
      → Knocked
          (waits k es)
          (last_socket k w es)
          (l ++ knocked own_knock (openings k w es))
          (steps c es s)
  unfolding steps step on_message
  steps-Knocked [] k w l s h = subst (λ x. Knocked k w x s) (sym (append-nil l)) h
  steps-Knocked (opened ∷ es) k w l s h =
      subst (λ x. Knocked (waits k es) (last_socket k w es) x (steps c es (handle_connect c s).1))
        (append_assoc l ((w, own_knock) ∷ []) (knocked own_knock (openings k w es)))
        (steps-Knocked es k w (l ++ (w, own_knock) ∷ []) (handle_connect c s).1
          (handle_connect-Knocked k w l s h))
  steps-Knocked (closed ∷ es) k w l s h =
      steps-Knocked es (suc k) w l (handle_disconnect c s) (handle_disconnect-Knocked k w l s h)
  steps-Knocked (failed ∷ es) k w l s h =
      steps-Knocked es k w l (terminate_socket c s) (terminate_socket-Knocked k w l s h)
  steps-Knocked (message op ∷ es) k w l s h =
      steps-Knocked es k w l (on_message op s)
        (on_handled-Knocked (handle_operation op s.client) k w l s h)
  steps-Knocked (elapsed ∷ es) zero w l s h =
      steps-Knocked es zero w l (reconnect c s.timers s) (reconnect-Knocked_none w l s h)
  steps-Knocked (elapsed ∷ es) (suc k) w l s h =
      steps-Knocked es k (suc w) l (reconnect c s.timers s) (reconnect-Knocked k w l s h)
  steps-Knocked (request r ∷ es) k w l s h =
      steps-Knocked es k w l (on_request c r s) (on_request-Knocked r k w l s h)
