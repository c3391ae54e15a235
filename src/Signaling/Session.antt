-- ===== src/Signaling/Session.antt =====
-- The promises of the client against the handlers of the server: what `bind` and `shutdown` settle
-- to, once the client has handled what the server sends to its socket.
pub mod Connect
pub mod Knock
pub mod Reconnect
use unisockets.Prelude.{
  ℕ, ◌≡◌, refl, sym, ap, ◌∙◌, true, false, not, Bool, Bool-cases, inl, inr, List, [], ◌∷◌, ◌++◌,
  none, some, Text, text_key, if◌then◌else◌, arith, nat_beq, nat_beq_iff, nat_beq_refl,
}
use unisockets.Map.{Map, get, has}
use unisockets.Map.Laws.{==_refl}
use unisockets.Text.{Lacks}
use unisockets.Number.{nat}
use unisockets.Signaling.Errors.{ok}
use unisockets.Signaling.Operation.{Operation, ConnectData}
use unisockets.Signaling.Address.{to_ip_address, to_tcp_address}
use unisockets.Signaling.Address.RoundTrip.{IsSubnet}
use unisockets.Signaling.Subnets.WellFormed.{IsWellFormed}
use unisockets.Signaling.Subnets.Preservation.{IsTcpAddress}
use unisockets.Signaling.Subnets.View.{suffix_taken, port_taken}
use unisockets.Signaling.Client.{
  Client, Effect, on_alias, Payload, Promise, resolved, rejected, attempt, listen, on_payload,
  once_set, bind_settles, shutdown_settles, bind_data, shutdown_data, connect_data,
  handle_operation, handle_all, get_connection_key, get_alias_key,
}
use unisockets.Signaling.Client.Handshake.{inbox, handshake-resolved}
use unisockets.Signaling.Server.Action.{Socket, MAlias, Server}
use unisockets.Signaling.Server.Handlers.{
  handle_bind, handle_shutdown, handle_connect, alias_message, connection_message, is_accepting,
  owns,
}
use unisockets.Signaling.Server.Messages.{messages}
use unisockets.Signaling.Server.Binding.{handle_bind-Binds}
use unisockets.Signaling.Server.Ownership.{handle_shutdown-ShutsDown}
use unisockets.Signaling.Server.Connecting.{handle_connect_refused, handle_connect_accepted}

-- What the client emits for the messages that its socket gets.
abbrev pub emitted : Socket → List (Socket × Operation) → Client → List Effect
emitted w l c = (handle_all (inbox w l) c).1

pub inbox_head :
    (v w : Socket) (op : Operation) (l : List (Socket × Operation))
    → nat_beq v w ≡ true
    → inbox w ((v, op) ∷ l) ≡ op ∷ inbox w l
inbox_head v w op l e = ground (arith, e)

inbox_tail :
    (v w : Socket) (op : Operation) (l : List (Socket × Operation))
    → nat_beq v w ≡ false
    → inbox w ((v, op) ∷ l) ≡ inbox w l
inbox_tail v w op l e = ground (arith, e)

-- The first event with the alias's key decides, so one message about the alias is enough.
handle-alias_message :
    (id alias : Text) (b : Bool) (l : List Operation) (c : Client)
    → once_set (get_alias_key id alias) (handle_all (alias_message id alias b ∷ l) c).1 ≡ some b
unfolding once_set handle_all handle_operation
handle-alias_message id alias b l c = rw (==_refl (get_alias_key id alias)) refl

-- A message to every client reaches the one at this id.
broadcast-once_set :
    (id alias : Text) (b : Bool) (k : Text) (w : Socket) (c : Client) (cs : Map Text Socket)
    → get k cs ≡ some w
    → once_set (get_alias_key id alias) (emitted w (messages cs (alias_message id alias b)) c)
      ≡ some b
unfolding get
broadcast-once_set id alias b k w c [] e = cc
broadcast-once_set id alias b k w c ((j, v) ∷ cs) e =
    let rest = messages cs (alias_message id alias b) in
    elim (Bool-cases (nat_beq v w)) [
      | inl f ↦
          ap (λ l. once_set (get_alias_key id alias) (handle_all l c).1)
            (inbox_head v w (alias_message id alias b) rest f)
          ∙ handle-alias_message id alias b (inbox w rest) c
      | inr f ↦
          ap (λ l. once_set (get_alias_key id alias) (handle_all l c).1)
            (inbox_tail v w (alias_message id alias b) rest f)
          ∙ broadcast-once_set id alias b k w c cs (ground (arith, nat_beq_iff v w))
    ]

-- An answer to the client alone reaches it.
reply-once_set :
    (id alias : Text) (b : Bool) (w : Socket) (c : Client)
    → once_set (get_alias_key id alias) (emitted w ((w, alias_message id alias b) ∷ []) c) ≡ some b
reply-once_set id alias b w c =
    ap (λ l. once_set (get_alias_key id alias) (handle_all l c).1)
      (inbox_head w w (alias_message id alias b) [] (nat_beq_refl w))
    ∙ handle-alias_message id alias b [] c

shutdown_settles-once_set :
    (c : Client) (alias : Text) (es : List Effect) (b : Bool)
    → once_set (get_alias_key c.id alias) es ≡ some b
    → shutdown_settles c alias es ≡ some (not b)
unfolding shutdown_settles
shutdown_settles-once_set c alias es true e = rw (e, shutdown_settles) refl
shutdown_settles-once_set c alias es false e = rw (e, shutdown_settles) refl

-- What handleBind sends settles the promise of `bind`: it resolves if the alias was free, and is
-- rejected if it was taken. Conditions: the pool is well-formed, the client is there under its id,
-- and the handler does not throw.
pub bind_answered :
    (c : Client) (alias : Text) (s : Server) (w : Socket)
    → IsTcpAddress alias
    → IsWellFormed s.subnets
    → get c.id s.clients ≡ some w
    → (handle_bind (bind_data c alias) s).0 ≡ ok tt
    → (l : List (Socket × Operation)) × ((handle_bind (bind_data c alias) s).1.sent ≡ s.sent ++ l)
      × (bind_settles c alias (emitted w l c) ≡ some (not (has alias s.aliases)))
unfolding bind_settles
bind_answered c alias s w valid v e done = elim (handle_bind-Binds (bind_data c alias) s valid v) [
  | inl (taken, r) ↦ (
    (w, alias_message c.id alias false) ∷ [],
    ap (λ x. x.1.sent) r ∙ (rw e refl),
    rw taken (reply-once_set c.id alias false w c),
  )
  | inr (inl (free, known, open_port, r, bound)) ↦ (
    messages s.clients (alias_message c.id alias true),
    bound.told,
    rw free (broadcast-once_set c.id alias true c.id w c s.clients e),
  )
  | inr (inr (inl (free, held, r, untouched))) ↦ cc
  | inr (inr (inr (free, unknown, r, untouched))) ↦ cc
]

-- What handleShutdown sends settles the promise of `shutdown`: it resolves if the client owned the
-- alias, and is rejected if not. Condition: the client is there under its id.
pub shutdown_answered :
    (c : Client) (alias : Text) (s : Server) (w : Socket)
    → get c.id s.clients ≡ some w
    → (l : List (Socket × Operation)) × ((handle_shutdown (shutdown_data c alias) s).0 ≡ ok tt)
      × ((handle_shutdown (shutdown_data c alias) s).1.sent ≡ s.sent ++ l)
      × (shutdown_settles c alias (emitted w l c) ≡ some (owns c.id alias s))
shutdown_answered c alias s w e = elim (handle_shutdown-ShutsDown (shutdown_data c alias) s) [
  | inl (owned, r, aliases, clients, told) ↦ (
    messages s.clients (alias_message c.id alias false),
    r,
    told,
    shutdown_settles-once_set c alias _ false
          (broadcast-once_set c.id alias false c.id w c s.clients e)
        ∙ ap some (sym owned),
  )
  | inr (other, r) ↦ (
    (w, alias_message c.id alias true) ∷ [],
    ap (λ x. x.0) r ∙ (rw e refl),
    ap (λ x. x.1.sent) r ∙ (rw e refl),
    shutdown_settles-once_set c alias _ true (reply-once_set c.id alias true w c)
        ∙ ap some (sym other),
  )
]
