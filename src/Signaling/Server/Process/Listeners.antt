-- ===== src/Signaling/Server/Process/Listeners.antt =====
-- What the listeners of the sockets and the interval do to the entries of `clients`.
use unisockets.Prelude.{
  ◌≡◌, refl, sym, ap, ◌∙◌, List, [], ◌∷◌, Bool, true, false, ◌&&◌, none, Text, text_key, arith,
  nat_key, nat_beq_iff, ◌==◌, if◌then◌else◌, subst,
}
use unisockets.Map.{Map, get, has}
use unisockets.Map.Laws.{get-delete}
use unisockets.Map.Keys.{has-set, has-delete}
use unisockets.Signaling.Server.Action.{Socket, Server}
use unisockets.Signaling.Server.Leaving.{handle_close-left}
use unisockets.Signaling.Server.Goodbye.{handle_close}
use unisockets.Signaling.Server.Process.{
  Process, on_connection, on_pong, on_closed, on_tick, check_peer, check_peers, fire,
}
use unisockets.Signaling.Server.Process.Presence.{listens, IsPresent}

-- One listener, called or not.
get-listener :
    (b : Bool) (k id : Text) (s : Server)
    → get id (if b then (handle_close k s).1 else s).clients
      ≡ (if b && k == id then none else get id s.clients)
get-listener true k id s =
    ap (λ x. get id x.1.clients) (handle_close-left k s) ∙ get-delete k id s.clients
get-listener false k id s = refl

listener-closing :
    (b : Bool) (k : Text) (s : Server) → (if b then (handle_close k s).1 else s).closing ≡ s.closing
listener-closing true k s = ap (λ x. x.1.closing) (handle_close-left k s)
listener-closing false k s = refl

-- What the listeners of a socket leave of the clients.
get-fire :
    (w : Socket) (l : List (Socket × Text)) (s : Server) (id : Text)
    → get id (fire w l s).clients ≡ (if listens w id l then none else get id s.clients)
unfolding fire
get-fire w [] s id = refl
get-fire w ((v, k) ∷ l) s id =
    let t = if v == w then (handle_close k s).1 else s in
    get-fire w l t id
    ∙ ap (λ o. if listens w id l then none else o) (get-listener (v == w) k id s)
    ∙ ground arith

fire-closing :
    (w : Socket) (l : List (Socket × Text)) (s : Server) → (fire w l s).closing ≡ s.closing
unfolding fire
fire-closing w [] s = refl
fire-closing w ((v, k) ∷ l) s =
    fire-closing w l (if v == w then (handle_close k s).1 else s) ∙ listener-closing (v == w) k s

pub on_closed-IsPresent :
    (w : Socket) (p : Process)
    → IsPresent p.peers p.server
    → IsPresent (on_closed w p).peers (on_closed w p).server
unfolding on_closed
on_closed-IsPresent w p h = record {
  connected = λ id v g. ground (
    arith,
    g,
    get-fire w p.server.closing p.server id,
    h.connected id v,
    h.leaves id v,
    has-delete w v p.peers,
    nat_beq_iff w v,
  );
  leaves = λ id v g.
      ap (listens v id) (fire-closing w p.server.closing p.server)
      ∙ ground (arith, g, get-fire w p.server.closing p.server id, h.leaves id v);
}

-- More sockets in the set, or other flags.
more-IsPresent :
    (m n : Map Socket Bool) (s : Server)
    → ((w : Socket) → has w m ≡ true → has w n ≡ true)
    → IsPresent m s
    → IsPresent n s
more-IsPresent m n s e h = record {
  connected = λ id w g. e w (h.connected id w g);
  leaves = h.leaves;
}

has-check_peers :
    (w : Socket) (m : Map Socket Bool) (p : Process)
    → has w p.peers ≡ true
    → has w (check_peers m p).peers ≡ true
unfolding check_peers check_peer
has-check_peers w [] p e = e
has-check_peers w ((v, true) ∷ m) p e =
    has-check_peers w m (check_peer v true p) (ground (arith, has-set v w false p.peers, e))
has-check_peers w ((v, false) ∷ m) p e = has-check_peers w m (check_peer v false p) e

server-check_peers : (m : Map Socket Bool) (p : Process) → (check_peers m p).server ≡ p.server
unfolding check_peers check_peer
server-check_peers [] p = refl
server-check_peers ((v, true) ∷ m) p = server-check_peers m (check_peer v true p)
server-check_peers ((v, false) ∷ m) p = server-check_peers m (check_peer v false p)

pub on_tick-IsPresent :
    (p : Process) → IsPresent p.peers p.server → IsPresent (on_tick p).peers (on_tick p).server
unfolding on_tick
on_tick-IsPresent p h =
    subst (IsPresent (on_tick p).peers) (sym (server-check_peers p.peers p))
      (more-IsPresent p.peers (on_tick p).peers p.server (λ w. has-check_peers w p.peers p) h)

pub on_pong-IsPresent :
    (w : Socket) (p : Process)
    → IsPresent p.peers p.server
    → IsPresent (on_pong w p).peers (on_pong w p).server
unfolding on_pong
on_pong-IsPresent w p h =
    more-IsPresent p.peers (on_pong w p).peers p.server
      (λ v e. ground (arith, has-set w v true p.peers, e)) h

pub on_connection-IsPresent :
    (w : Socket) (p : Process)
    → IsPresent p.peers p.server
    → IsPresent (on_connection w p).peers (on_connection w p).server
unfolding on_connection
on_connection-IsPresent w p h =
    more-IsPresent p.peers (on_connection w p).peers p.server
      (λ v e. ground (arith, has-set w v true p.peers, e)) h
