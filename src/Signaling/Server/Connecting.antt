-- ===== src/Signaling/Server/Connecting.antt =====
-- handleConnect: the handshake of an accepted connection, and the way back of a refused one.
use unisockets.Prelude.{
  ℕ, ◌≡◌, refl, ap, ◌∙◌, true, false, List, [], ◌∷◌, ◌++◌, append_assoc, Option, none, some, Text,
  text_key, text_beq_iff, ◌==◌, if◌then◌else◌, arith,
}
use unisockets.Map.{get, set}
use unisockets.Map.Laws.{get-set}
use unisockets.Text.{Lacks}
use unisockets.Number.{nat, number_key, number_beq_iff}
use unisockets.Signaling.Errors.{ok}
use unisockets.Signaling.Operation.{Operation, ConnectData}
use unisockets.Signaling.Address.{to_ip_address, to_tcp_address}
use unisockets.Signaling.Address.RoundTrip.{IsSubnet}
use unisockets.Signaling.Subnets.{Subnets, create_tcp_address, remove_tcp_address}
use unisockets.Signaling.Subnets.WellFormed.{IsWellFormed}
use unisockets.Signaling.Subnets.Preservation.{create_tcp_address-IsWellFormed}
use unisockets.Signaling.Subnets.View.{suffix_taken, port_taken}
use unisockets.Signaling.Subnets.Effects.{TakesPort, SameView}
use unisockets.Signaling.Subnets.Named.{create_tcp_named, remove_tcp_named}
use unisockets.Signaling.Server.Action.{Socket, MAlias, Server, ◌>>=◌, send, push}
use unisockets.Signaling.Server.Handlers.{
  handle_connect, answer_connect, accept_connect, complete_connect, reject_connect, is_accepting,
  owner, alias_message, connection_message, accept_message,
}
use unisockets.Signaling.Server.Messages.{sending}
use unisockets.Signaling.Server.Binding.{reply, send-reply}

-- Once createTCPAddress has given out an alias.
connect_granted :
    (d : ConnectData) (s : Server) (alias : Text)
    → (create_tcp_address d.id s.subnets).0 ≡ ok alias
    → handle_connect d s
      ≡ answer_connect d alias
          (get d.id s.clients)
          (is_accepting d.remote_alias s)
          (record s { subnets = (create_tcp_address d.id s.subnets).1 })
unfolding handle_connect ◌>>=◌ is_accepting
connect_granted d s alias e = rw e

-- The four messages of a handshake: to the client `w` its own alias, to the server `v` that alias
-- and the accept, and to the client the alias that it has connected to.
abbrev pub handshake : ConnectData → Text → Text → Socket → Socket → List (Socket × Operation)
handshake d alias server_id w v =
    (w, connection_message d.id alias true d.client_connection_id (some true))
    ∷ (v, alias_message d.id alias true)
    ∷ (v, accept_message d.remote_alias alias)
    ∷ (w, connection_message server_id d.remote_alias true d.client_connection_id none)
    ∷ []

four_pushes :
    (l : List (Socket × Operation)) (a b c d : Socket × Operation)
    → (((l ++ a ∷ []) ++ b ∷ []) ++ c ∷ []) ++ d ∷ [] ≡ l ++ a ∷ b ∷ c ∷ d ∷ []
four_pushes l a b c d = simp append_assoc

-- The state with the new alias, before anything is sent.
abbrev with_alias : ConnectData → Text → Server → Server
with_alias d alias s = record s {
  aliases = set alias (record { id = d.id; accepting = false }) s.aliases;
}

accepting_lem :
    (x : Text) (b : MAlias) (s : Server) → get x s.aliases ≡ some b → is_accepting x s ≡ b.accepting
unfolding is_accepting
accepting_lem x b s e = ground arith

owner_lem : (x : Text) (b : MAlias) (s : Server) → get x s.aliases ≡ some b → owner x s ≡ b.id
unfolding owner
owner_lem x b s e = ground arith

complete_connect_messages :
    (d : ConnectData) (alias server_id : Text) (w v : Socket) (s : Server)
    → get server_id s.clients ≡ some v
    → complete_connect d alias (some w) server_id s ≡ (
      ok tt,
      push w
          (connection_message server_id d.remote_alias true d.client_connection_id none)
          (push v (accept_message d.remote_alias alias) (push v (alias_message d.id alias true) s)),
    )
unfolding complete_connect ◌>>=◌ send
complete_connect_messages d alias server_id w v s f = rw f

accept_connect_messages :
    (d : ConnectData) (alias : Text) (b : MAlias) (w v : Socket) (s : Server)
    → get d.remote_alias (with_alias d alias s).aliases ≡ some b
    → get b.id s.clients ≡ some v
    → answer_connect d alias (some w) true s
      ≡ (ok tt, sending (handshake d alias b.id w v) (with_alias d alias s))
unfolding answer_connect accept_connect ◌>>=◌ send push
accept_connect_messages d alias b w v s e f =
    let told =
      push w (connection_message d.id alias true d.client_connection_id (some true))
        (with_alias d alias s) in
    rw (owner_lem d.remote_alias b told e) (
      complete_connect_messages d alias b.id w v told f
      ∙ ap (λ l. (ok tt, record (with_alias d alias s) { sent = l })) (four_pushes s.sent _ _ _ _))

reject_connect_reply :
    (d : ConnectData) (alias : Text) (client : Option Socket) (s : Server)
    → answer_connect d alias client false s
      ≡ reply client
          (connection_message d.id alias false d.client_connection_id none)
          (record s { subnets = remove_tcp_address alias s.subnets })
unfolding answer_connect reject_connect ◌>>=◌
reject_connect_reply d alias client s = send-reply client _ _

module _ (net : Text) (n : ℕ) (three : IsSubnet net) (plain : Lacks b':' net) (d : ConnectData)
    (own : d.id ≡ to_ip_address net (nat n)) (s : Server) (v : IsWellFormed s.subnets)
    (held : suffix_taken net (nat n) s.subnets ≡ true) where
  -- The alias that createTCPAddress makes of the port.
  abbrev pub client_alias : ℕ → Text
  client_alias p = to_tcp_address (to_ip_address net (nat n)) (nat p)

  -- The least free port of the client, given out as its alias.
  granted :
      (p : ℕ) × ((create_tcp_address d.id s.subnets).0 ≡ ok (client_alias p))
      × (port_taken net (nat n) (nat p) s.subnets ≡ false)
      × TakesPort net (nat n) (nat p) s.subnets (create_tcp_address d.id s.subnets).1
  granted =
      let (p, r, free, least, takes) = create_tcp_named net n three s.subnets v held in
      (p, rw own r, free, rw own takes)

  -- A refused connection leaves what it found: the port that it took is given back, nothing else
  -- of the state changes, and the client alone is told, or the handler throws if it is gone.
  -- Conditions: the pool is well formed, and the client's id is its address, which has a natural
  -- suffix and is taken, in a subnet of three parts without a colon.
  pub handle_connect_refused :
      is_accepting d.remote_alias s ≡ false
      → (p : ℕ) × (pool : Subnets) × SameView s.subnets pool
        × (handle_connect d s
            ≡ reply
                (get d.id s.clients)
                (connection_message d.id (client_alias p) false d.client_connection_id none)
                (record s { subnets = pool }))
  handle_connect_refused closed =
      let (p, r, free, takes) = granted in
      let t = (create_tcp_address d.id s.subnets).1 in
      let frees = remove_tcp_named net n three plain p t (create_tcp_address-IsWellFormed d.id v) in
      (
        p,
        remove_tcp_address (client_alias p) t,
        record {
          suffixes = λ net' n'. ground (
            arith,
            frees.suffixes net' n',
            takes.suffixes net' n',
            held,
            text_beq_iff net net',
            number_beq_iff (nat n) n',
          );
          ports = λ net' n' q. ground (
            arith,
            frees.ports net' n' q,
            takes.ports net' n' q,
            free,
            text_beq_iff net net',
            number_beq_iff (nat n) n',
            number_beq_iff (nat p) q,
          );
        },
        connect_granted d s (client_alias p) r
            ∙ rw closed (
                reject_connect_reply d (client_alias p) (get d.id s.clients)
                  (record s { subnets = t })),
      )

  -- The state and the messages of an accepted connection.
  pub record Connected (p : ℕ) (b : MAlias) (w t : Socket) (s' : Server) : Type 0 where
    pub told : s'.sent ≡ s.sent ++ handshake d (client_alias p) b.id w t
    pub aliases :
        (x : Text)
        → get x s'.aliases ≡ (
            if client_alias p == x
            then some (record { id = d.id; accepting = false })
            else get x s.aliases)
    pub clients : s'.clients ≡ s.clients
    pub pool : TakesPort net (nat n) (nat p) s.subnets s'.subnets

  -- A connection to an alias that accepts takes a free port of the client for its alias, and the
  -- four messages of the handshake go out in order: to the client, twice to the client that has bound
  -- the remote alias, and to the client. Conditions: the pool is well formed; the connecting client's
  -- id is its address, which has a natural suffix and is taken, in a subnet of three parts without a
  -- colon; both clients are there; and the remote alias is not a free port of the connecting client
  -- itself.
  pub handle_connect_accepted :
      (b : MAlias) (w t : Socket)
      → get d.remote_alias s.aliases ≡ some b
      → b.accepting ≡ true
      → ((q : ℕ)
          → d.remote_alias ≡ client_alias q
          → port_taken net (nat n) (nat q) s.subnets ≡ true)
      → get d.id s.clients ≡ some w
      → get b.id s.clients ≡ some t
      → (p : ℕ) × ((handle_connect d s).0 ≡ ok tt)
        × (port_taken net (nat n) (nat p) s.subnets ≡ false)
        × Connected p b w t (handle_connect d s).1
  handle_connect_accepted b w t e accepting bound f g =
      let (p, r, free, takes) = granted in
      let u = record s { subnets = (create_tcp_address d.id s.subnets).1 } in
      let other : (client_alias p == d.remote_alias) ≡ false =
        ground (arith, text_beq_iff (client_alias p) d.remote_alias, bound p) in
      let here = accepting_lem d.remote_alias b s e ∙ accepting in
      let done : handle_connect d s ≡ (
        ok tt,
        sending (handshake d (client_alias p) b.id w t) (with_alias d (client_alias p) u),
      ) =
        connect_granted d s (client_alias p) r
        ∙ (rw (here, f)
            (accept_connect_messages d (client_alias p) b w t u
              (ground (
                arith,
                get-set (client_alias p) d.remote_alias (record { id = d.id; accepting = false })
                    s.aliases,
                other,
                e,
              ))
              g)) in
      (
        p,
        rw done refl,
        free,
        rw done (record {
          told = refl;
          aliases = λ x. get-set (client_alias p) x _ s.aliases;
          clients = refl;
          pool = takes;
        }),
      )
