-- ===== src/Signaling/Session/Connect.antt =====
-- The promise of `connect` against handleConnect.
use unisockets.Prelude.{
  ℕ, ◌≡◌, refl, ap, ◌∙◌, true, false, List, [], ◌∷◌, ◌++◌, none, some, Text, text_key,
  if◌then◌else◌, nat_beq_refl,
}
use unisockets.Map.{get}
use unisockets.Map.Laws.{==_refl}
use unisockets.Text.{Lacks}
use unisockets.Number.{nat}
use unisockets.Signaling.Operation.{Operation, ConnectData}
use unisockets.Signaling.Address.{to_ip_address, to_tcp_address}
use unisockets.Signaling.Address.RoundTrip.{IsSubnet}
use unisockets.Signaling.Subnets.WellFormed.{IsWellFormed}
use unisockets.Signaling.Subnets.View.{suffix_taken, port_taken}
use unisockets.Signaling.Client.{
  Client, Effect, on_alias, Payload, Promise, resolved, rejected, attempt, listen, on_payload,
  connect_data, handle_operation, handle_all, get_connection_key,
}
use unisockets.Signaling.Client.Handshake.{handshake-resolved}
use unisockets.Signaling.Server.Action.{Socket, MAlias, Server}
use unisockets.Signaling.Server.Handlers.{handle_connect, connection_message, is_accepting}
use unisockets.Signaling.Server.Connecting.{handle_connect_refused, handle_connect_accepted}
use unisockets.Signaling.Session.{emitted, inbox_head}

-- What the promise of `connect` comes to.
abbrev pub connect_settles : ConnectData → List Effect → Promise
connect_settles d es = (listen (get_connection_key d.client_connection_id) es attempt).promise

refused-settles :
    (c : Client) (uuid remote_alias alias : Text) (w : Socket) (x : ℕ) (id : Text)
    → uuid ≡ x ∷ id
    → connect_settles
        (connect_data c uuid remote_alias)
        (emitted w ((w, connection_message c.id alias false uuid none) ∷ []) c)
      ≡ rejected (get_connection_key uuid)
unfolding listen handle_all handle_operation on_payload
refused-settles c uuid remote_alias alias w x id e =
    let op = connection_message c.id alias false uuid none in
    let key = get_connection_key (x ∷ id) in
    let refusal : Payload = record { set = false; alias = alias; is_connection_alias = false } in
    ap (λ l. connect_settles (connect_data c uuid remote_alias) (handle_all l c).1)
      (inbox_head w w op [] (nat_beq_refl w))
    ∙ (rw e (
        ap
          (λ b.
            (listen key (on_alias c.id alias false ∷ [])
              (if b then on_payload key refusal attempt else attempt)).promise)
          (==_refl key)))

module _ (net : Text) (n : ℕ) (three : IsSubnet net) (plain : Lacks b':' net) (c : Client)
    (own : c.id ≡ to_ip_address net (nat n)) (uuid remote_alias : Text) (x : ℕ) (u : Text)
    (filled : uuid ≡ x ∷ u) (s : Server) (v : IsWellFormed s.subnets)
    (held : suffix_taken net (nat n) s.subnets ≡ true) (w : Socket)
    (here : get c.id s.clients ≡ some w) where
  -- What a handler adds to the messages settles the promise of `connect` to this.
  abbrev pub ConnectsTo : Server → Promise → Type 0
  ConnectsTo s' p =
      (l : List (Socket × Operation)) × (s'.sent ≡ s.sent ++ l)
      × (connect_settles (connect_data c uuid remote_alias) (emitted w l c) ≡ p)

  -- A connection to an alias that does not accept rejects the promise of `connect`, with the
  -- connection's key. Conditions: the pool is well formed, the client's address, in a subnet of
  -- three parts without a colon, is taken, the client is there, and the connection's id is not empty.
  pub connect_rejected :
      is_accepting remote_alias s ≡ false
      → ConnectsTo
          (handle_connect (connect_data c uuid remote_alias) s).1
          (rejected (get_connection_key uuid))
  connect_rejected closed =
      let (p, pool, same, r) =
        handle_connect_refused net n three plain (connect_data c uuid remote_alias) own s v held
          closed in
      (
        (
          w,
          connection_message c.id (to_tcp_address (to_ip_address net (nat n)) (nat p)) false uuid
              none,
        )
            ∷ [],
        ap (λ y. y.1.sent) r ∙ (rw here refl),
        refused-settles c uuid remote_alias _ w x u filled,
      )

  -- A connection to an alias that accepts resolves the promise of `connect` with an alias of the
  -- client whose port was free. Conditions: the pool is well formed; the client's id is its address,
  -- which has a natural suffix and is taken, in a subnet of three parts without a colon; the
  -- connection's id is not empty; the client and the client that has bound the remote alias are there; and the remote alias is not a
  -- free port of the client itself.
  pub connect_resolved :
      (b : MAlias) (t : Socket)
      → get remote_alias s.aliases ≡ some b
      → b.accepting ≡ true
      → ((q : ℕ)
          → remote_alias ≡ to_tcp_address (to_ip_address net (nat n)) (nat q)
          → port_taken net (nat n) (nat q) s.subnets ≡ true)
      → get b.id s.clients ≡ some t
      → (p : ℕ) × (port_taken net (nat n) (nat p) s.subnets ≡ false)
        × ConnectsTo
            (handle_connect (connect_data c uuid remote_alias) s).1
            (resolved (to_tcp_address (to_ip_address net (nat n)) (nat p)))
  connect_resolved b t e accepting bound there =
      let (p, r, free, connected) =
        handle_connect_accepted net n three plain (connect_data c uuid remote_alias) own s v held b
          w t e accepting bound here there in
      (
        p,
        free,
        (
          _,
          connected.told,
          handshake-resolved (connect_data c uuid remote_alias) _ b.id w t c x u filled,
        ),
      )
