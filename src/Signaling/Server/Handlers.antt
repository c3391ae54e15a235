-- ===== src/Signaling/Server/Handlers.antt =====
-- The handlers of SignalingServer, one action each, and `handleOperation`. A handler runs from
-- start to end: what other messages do while it awaits is not modelled here.
use unisockets.Prelude.{
  [], ◌∷◌, ◌++◌, Option, none, some, Bool, true, false, not, Text, text_key, ◌==◌, if◌then◌else◌,
}
use unisockets.Map.{Map, get, has, set, delete}
use unisockets.Signaling.Errors.{ok, err, client_does_not_exist, unimplemented_operation}
use unisockets.Signaling.Operation.{
  Operation, KnockData, OfferData, AnswerData, CandidateData, BindData, AcceptingData, ShutdownData,
  ConnectData, opcode,
}
use unisockets.Signaling.Service.{opcode_text}
use unisockets.Signaling.Subnets.{
  overflow_id, create_ip_address, create_tcp_address, claim_tcp_address, remove_ip_address,
  remove_tcp_address,
}
use unisockets.Signaling.Server.Action.{
  Socket, Server, Action, ◌>>=◌, ◌>>◌, throw, gets, modify, on_subnets, push, send, broadcast,
}

unfoldable pub register_goodbye : Text → Action (Unit {0})
register_goodbye id s = elim (get id s.clients) [
  | none ↦ (err client_does_not_exist, s)
  | some client ↦ (ok tt, record s { closing = s.closing ++ (client, id) ∷ [] })
]

-- `this.clients.forEach` of handleKnock: a greeting to every client but the new one.
unfoldable pub greet_all : Map Text Socket → Text → Server → Server
greet_all [] id s = s
greet_all ((existing_id, existing_client) ∷ rest) id s = greet_all rest id (
    if existing_id == id
    then s
    else push existing_client
        (Operation.greeting (record { offerer_id = existing_id; answerer_id = id })) s)

unfoldable pub acknowledge : Socket → Text → Bool → Action (Unit {0})
acknowledge client id rejected =
    send (some client) (Operation.acknowledgement (record { id = id; rejected = rejected }))

unfoldable pub admit : Text → Socket → Action (Unit {0})
unfolding register_goodbye
admit id client = do
  modify (λ s. greet_all s.clients id s)
  modify (λ s. record s { clients = set id client s.clients })
  register_goodbye id

unfoldable pub answer_knock : Text → Socket → Action (Unit {0})
unfolding acknowledge admit
answer_knock id client =
    if id == overflow_id
    then acknowledge client id true
    else (do acknowledge client id false; admit id client)

unfoldable pub handle_knock : KnockData → Socket → Action (Unit {0})
unfolding answer_knock
handle_knock d client = do
  id ← on_subnets (λ t. let (id, t') = create_ip_address d.subnet t in (ok id, t'))
  answer_knock id client

unfoldable pub handle_offer : OfferData → Action (Unit {0})
handle_offer d = do
  client ← gets (λ s. get d.answerer_id s.clients)
  send client (
      Operation.offer
        (record { offerer_id = d.offerer_id; answerer_id = d.answerer_id; offer = d.offer }))

unfoldable pub handle_answer : AnswerData → Action (Unit {0})
handle_answer d = do
  client ← gets (λ s. get d.offerer_id s.clients)
  send client (Operation.answer d)

unfoldable pub handle_candidate : CandidateData → Action (Unit {0})
handle_candidate d = do
  client ← gets (λ s. get d.answerer_id s.clients)
  send client (Operation.candidate d)

-- An Alias message with no further properties.
abbrev pub alias_message : Text → Text → Bool → Operation
alias_message id alias is_set = Operation.alias (record {
  id = id;
  alias = alias;
  set = is_set;
  client_connection_id = none;
  is_connection_alias = none;
})

unfoldable pub reject_bind : BindData → Action (Unit {0})
reject_bind d = do
  client ← gets (λ s. get d.id s.clients)
  send client (alias_message d.id d.alias false)

unfoldable pub accept_bind : BindData → Action (Unit {0})
accept_bind d = do
  on_subnets (claim_tcp_address d.alias)
  modify
      (λ s. record s { aliases = set d.alias (record { id = d.id; accepting = false }) s.aliases })
  broadcast (alias_message d.id d.alias true)

unfoldable pub handle_bind : BindData → Action (Unit {0})
unfolding reject_bind accept_bind
handle_bind d s = if has d.alias s.aliases then reject_bind d s else accept_bind d s

-- `aliases.has(alias) && aliases.get(alias)!.id === id`
unfoldable pub owns : Text → Text → Server → Bool
owns id alias s = elim (get alias s.aliases) [ none ↦ false | some a ↦ a.id == id ]

unfoldable pub handle_accepting : AcceptingData → Action (Unit {0})
unfolding owns
handle_accepting d s = if not (owns d.id d.alias s) then (ok tt, s) else (
  ok tt,
  record s { aliases = set d.alias (record { id = d.id; accepting = true }) s.aliases },
)

unfoldable pub accept_shutdown : ShutdownData → Action (Unit {0})
accept_shutdown d = do
  modify (λ s. record s { aliases = delete d.alias s.aliases })
  modify (λ s. record s { subnets = remove_tcp_address d.alias s.subnets })
  modify (λ s. record s { subnets = remove_ip_address d.alias s.subnets })
  broadcast (alias_message d.id d.alias false)

unfoldable pub reject_shutdown : ShutdownData → Action (Unit {0})
reject_shutdown d = do
  client ← gets (λ s. get d.id s.clients)
  send client (alias_message d.id d.alias true)

unfoldable pub handle_shutdown : ShutdownData → Action (Unit {0})
unfolding owns accept_shutdown reject_shutdown
handle_shutdown d s = if owns d.id d.alias s then accept_shutdown d s else reject_shutdown d s

-- `aliases.has(alias) && aliases.get(alias)!.accepting`
unfoldable pub is_accepting : Text → Server → Bool
is_accepting alias s = elim (get alias s.aliases) [ none ↦ false | some a ↦ a.accepting ]

-- An Alias message that belongs to a connection attempt.
abbrev pub connection_message : Text → Text → Bool → Text → Option Bool → Operation
connection_message id alias is_set connection of_client = Operation.alias (record {
  id = id;
  alias = alias;
  set = is_set;
  client_connection_id = some connection;
  is_connection_alias = of_client;
})

unfoldable pub reject_connect : ConnectData → Text → Option Socket → Action (Unit {0})
reject_connect d client_alias client = do
  modify (λ s. record s { subnets = remove_tcp_address client_alias s.subnets })
  send client (connection_message d.id client_alias false d.client_connection_id none)

-- The client that has bound the alias; the alias is there, by the guard before.
unfoldable pub owner : Text → Server → Text
owner alias s = elim (get alias s.aliases) [ none ↦ [] | some a ↦ a.id ]

abbrev pub accept_message : Text → Text → Operation
accept_message bound_alias client_alias = Operation.accept (record {
  bound_alias = bound_alias;
  client_alias = client_alias;
  client_id = none;
  alias = none;
})

-- The messages that follow once the server's client is known.
unfoldable pub complete_connect : ConnectData → Text → Option Socket → Text → Action (Unit {0})
complete_connect d client_alias client server_id = do
  server ← gets (λ s. get server_id s.clients)
  send server (alias_message d.id client_alias true)
  send server (accept_message d.remote_alias client_alias)
  send client (connection_message server_id d.remote_alias true d.client_connection_id none)

unfoldable pub accept_connect : ConnectData → Text → Option Socket → Action (Unit {0})
accept_connect d client_alias client = do
  modify (λ s. record s {
    aliases = set client_alias (record { id = d.id; accepting = false }) s.aliases;
  })
  send client (connection_message d.id client_alias true d.client_connection_id (some true))
  server_id ← gets (owner d.remote_alias)
  complete_connect d client_alias client server_id

unfoldable pub answer_connect : ConnectData → Text → Option Socket → Bool → Action (Unit {0})
unfolding reject_connect accept_connect
answer_connect d client_alias client accepting =
    if not accepting
    then reject_connect d client_alias client
    else accept_connect d client_alias client

unfoldable pub handle_connect : ConnectData → Action (Unit {0})
unfolding answer_connect
handle_connect d = do
  client_alias ← on_subnets (create_tcp_address d.id)
  client ← gets (λ s. get d.id s.clients)
  accepting ← gets (is_accepting d.remote_alias)
  answer_connect d client_alias client accepting

unfoldable pub handle_operation : Operation → Socket → Action (Unit {0})
handle_operation (Operation.knock d) client = handle_knock d client
handle_operation (Operation.offer d) client = handle_offer d
handle_operation (Operation.answer d) client = handle_answer d
handle_operation (Operation.candidate d) client = handle_candidate d
handle_operation (Operation.bind d) client = handle_bind d
handle_operation (Operation.accepting d) client = handle_accepting d
handle_operation (Operation.shutdown d) client = handle_shutdown d
handle_operation (Operation.connect d) client = handle_connect d
handle_operation (Operation.goodbye d) client =
    throw (unimplemented_operation (opcode_text (opcode (Operation.goodbye d))))
handle_operation (Operation.acknowledgement d) client =
    throw (unimplemented_operation (opcode_text (opcode (Operation.acknowledgement d))))
handle_operation (Operation.greeting d) client =
    throw (unimplemented_operation (opcode_text (opcode (Operation.greeting d))))
handle_operation (Operation.alias d) client =
    throw (unimplemented_operation (opcode_text (opcode (Operation.alias d))))
handle_operation (Operation.accept d) client =
    throw (unimplemented_operation (opcode_text (opcode (Operation.accept d))))
