-- ===== src/Runner/Worker/Routes.antt =====
-- What an accepted connection leaves at the workers of its two clients: the routes by which what one
-- sends reaches the other.
use unisockets.Prelude.{
  ℕ, ◌≡◌, refl, ap, ◌∙◌, inl, inr, true, false, List, [], ◌∷◌, ◌++◌, none, some, Text, text_key,
  ◌==◌, if◌then◌else◌, arith, nat_beq, nat_beq_refl, Option-cases,
}
use unisockets.Map.{get}
use unisockets.Map.Laws.{get-set, ==_refl}
use unisockets.Text.{Lacks}
use unisockets.Number.{nat, number_key}
use unisockets.Signaling.Operation.{Operation, AliasData, ConnectData}
use unisockets.Signaling.Address.{to_ip_address, to_tcp_address}
use unisockets.Signaling.Address.RoundTrip.{IsSubnet}
use unisockets.Signaling.Subnets.WellFormed.{IsWellFormed}
use unisockets.Signaling.Subnets.View.{suffix_taken, port_taken}
use unisockets.Signaling.Client.{
  Client, Effect, on_alias, handle_alias, connection_of, handle_operation, handle_all, connect_data,
  accept_settles,
}
use unisockets.Signaling.Server.Action.{Socket, Server, MAlias}
use unisockets.Signaling.Server.Handlers.{handle_connect, accept_message}
use unisockets.Signaling.Client.Handshake.{inbox, handshake-accepted}
use unisockets.Signaling.Server.Connecting.{handshake, handle_connect_accepted}
use unisockets.Signaling.Session.{emitted}
use unisockets.Runner.Worker.{Worker, callback, callbacks, update_alias, post_message}

abbrev own_alias : ConnectData → Text → AliasData
own_alias d alias = record {
  id = d.id;
  alias = alias;
  set = true;
  client_connection_id = some d.client_connection_id;
  is_connection_alias = some true;
}

abbrev remote_alias : ConnectData → Text → AliasData
remote_alias d server_id = record {
  id = server_id;
  alias = d.remote_alias;
  set = true;
  client_connection_id = some d.client_connection_id;
  is_connection_alias = none;
}

abbrev plain_alias : ConnectData → Text → AliasData
plain_alias d alias = record {
  id = d.id;
  alias = alias;
  set = true;
  client_connection_id = none;
  is_connection_alias = none;
}

inbox_client :
    (d : ConnectData) (alias server_id : Text) (w v : Socket)
    → nat_beq v w ≡ false
    → inbox w (handshake d alias server_id w v)
      ≡ Operation.alias (own_alias d alias) ∷ Operation.alias (remote_alias d server_id) ∷ []
inbox_client d alias server_id w v two = rw (two, nat_beq_refl w) refl

inbox_server :
    (d : ConnectData) (alias server_id : Text) (w v : Socket)
    → nat_beq w v ≡ false
    → inbox v (handshake d alias server_id w v)
      ≡ Operation.alias (plain_alias d alias) ∷ accept_message d.remote_alias alias ∷ []
inbox_server d alias server_id w v two = rw (two, nat_beq_refl v) refl

nat_beq-swap : (w v : ℕ) → nat_beq w v ≡ false → nat_beq v w ≡ false
nat_beq-swap w v e = ground (arith, e)

module _ {R : Type 0} where
  -- The handlers of a worker that an Alias message calls.
  callbacks-handle_alias :
      (d : AliasData) (es : List Effect) (w : Worker R)
      → callbacks (handle_alias d ++ es) w ≡ callbacks es (callback (on_alias d.id d.alias d.set) w)
  unfolding handle_alias callbacks callback
  callbacks-handle_alias d es w = elim (Option-cases (connection_of d.client_connection_id)) [
    | inl e ↦ rw (e, handle_alias) refl
    | inr (connection, e) ↦ rw (e, handle_alias) refl
  ]

  holder-on_alias :
      (id alias x : Text) (w : Worker R)
      → get x (callback (on_alias id alias true) w).aliases_holder
        ≡ (if alias == x then some id else get x w.aliases_holder)
  unfolding callback unisockets.Runner.Worker.handle_alias update_alias post_message
  holder-on_alias id alias x w = get-set alias x id w.aliases_holder

  -- The client gets its own alias, and then the one that it has connected to.
  callbacks_client :
      (d : ConnectData) (alias server_id : Text) (w v : Socket) (c : Client) (k : Worker R)
      → nat_beq v w ≡ false
      → get d.remote_alias
          (callbacks (emitted w (handshake d alias server_id w v) c) k).aliases_holder
        ≡ some server_id
  unfolding handle_all handle_operation callbacks
  callbacks_client d alias server_id w v c k two =
      ap (λ l. get d.remote_alias (callbacks (handle_all l c).1 k).aliases_holder)
        (inbox_client d alias server_id w v two)
      ∙ (ap (λ u. get d.remote_alias u.aliases_holder)
            (callbacks-handle_alias (own_alias d alias) _ k
              ∙ callbacks-handle_alias (remote_alias d server_id) []
                  (callback (on_alias d.id alias true) k))
          ∙ (holder-on_alias server_id d.remote_alias d.remote_alias
                (callback (on_alias d.id alias true) k)
              ∙ (rw (==_refl d.remote_alias) refl)))

  -- The server's client gets the alias of the connecting one.
  callbacks_server :
      (d : ConnectData) (alias server_id : Text) (w v : Socket) (c : Client) (k : Worker R)
      → nat_beq w v ≡ false
      → get alias (callbacks (emitted v (handshake d alias server_id w v) c) k).aliases_holder
        ≡ some d.id
  unfolding handle_all handle_operation callbacks callback
  callbacks_server d alias server_id w v c k two =
      ap (λ l. get alias (callbacks (handle_all l c).1 k).aliases_holder)
        (inbox_server d alias server_id w v two)
      ∙ (ap (λ u. get alias u.aliases_holder)
            (callbacks-handle_alias (plain_alias d alias)
              (handle_all (accept_message d.remote_alias alias ∷ []) c).1 k)
          ∙ (holder-on_alias d.id alias alias k ∙ (rw (==_refl alias) refl)))

module _ (net : Text) (n : ℕ) (three : IsSubnet net) (plain : Lacks b':' net) (c : Client)
    (own : c.id ≡ to_ip_address net (nat n)) (uuid remote_alias : Text) (s : Server)
    (v : IsWellFormed s.subnets) (held : suffix_taken net (nat n) s.subnets ≡ true) where
  -- An accepted connection gives each of the two workers the route to the other: of what the server
  -- sends for it, the messages to the connecting client make its worker hold the remote alias under
  -- the id of that alias's client, and those to the other make its worker hold the new alias, whose
  -- port was free, under the connecting client's id; they also give the other's `accept` that alias.
  -- Conditions: the pool is well formed; the connecting client's address, in a subnet of three parts
  -- without a colon, is taken; the remote alias accepts and is not a free port of the connecting
  -- client; and the two clients are there, on two sockets.
  pub handle_connect-callbacks :
      {R : Type 0} (b : MAlias) (w t : Socket) (peer : Client) (k m : Worker R)
      → get remote_alias s.aliases ≡ some b
      → b.accepting ≡ true
      → ((q : ℕ)
          → remote_alias ≡ to_tcp_address (to_ip_address net (nat n)) (nat q)
          → port_taken net (nat n) (nat q) s.subnets ≡ true)
      → get c.id s.clients ≡ some w
      → get b.id s.clients ≡ some t
      → nat_beq w t ≡ false
      → (p : ℕ) × (l : List (Socket × Operation)) × (port_taken net (nat n) (nat p) s.subnets
          ≡ false)
        × ((handle_connect (connect_data c uuid remote_alias) s).1.sent ≡ s.sent ++ l)
        × (get remote_alias (callbacks (emitted w l c) k).aliases_holder ≡ some b.id)
        × (get
              (to_tcp_address (to_ip_address net (nat n)) (nat p))
              (callbacks (emitted t l peer) m).aliases_holder
            ≡ some c.id)
        × (accept_settles remote_alias (emitted t l peer)
            ≡ some (to_tcp_address (to_ip_address net (nat n)) (nat p)))
  handle_connect-callbacks b w t peer k m e accepting bound here there two =
      let d = connect_data c uuid remote_alias in
      let (p, r, free, connected) =
        handle_connect_accepted net n three plain d own s v held b w t e accepting bound here
          there in
      let alias = to_tcp_address (to_ip_address net (nat n)) (nat p) in
      (
        p,
        handshake d alias b.id w t,
        free,
        connected.told,
        callbacks_client d alias b.id w t c k (nat_beq-swap w t two),
        callbacks_server d alias b.id w t peer m two,
        handshake-accepted d alias b.id w t peer,
      )
