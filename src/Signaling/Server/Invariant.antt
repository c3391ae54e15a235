-- ===== src/Signaling/Server/Invariant.antt =====
-- The invariant of the server's state, and its handlers.
use unisockets.Prelude.{
  Bool, true, false, List, [], ◌∷◌, Option, none, some, Text, text_key, Bool-cases, inl, inr, ◌==◌,
  Option-cases,
}
use unisockets.Map.{get, has, set, delete, keys, Distinct}
use unisockets.Map.Keys.{keys-set-Distinct, keys-delete-Distinct}
use unisockets.Signaling.Operation.{
  Operation, KnockData, BindData, AcceptingData, ShutdownData, ConnectData,
}
use unisockets.Signaling.Subnets.{Subnets, overflow_id}
use unisockets.Signaling.Subnets.WellFormed.{IsWellFormed}
use unisockets.Signaling.Subnets.Preservation.{
  IsTcpAddress, create_ip_address-IsWellFormed, create_tcp_address-IsWellFormed,
  claim_tcp_address-IsWellFormed, remove_ip_address-IsWellFormed, remove_tcp_address-IsWellFormed,
}
use unisockets.Signaling.Server.Action.{
  Socket, MAlias, Server, modify, push, send, broadcast, start,
}
use unisockets.Signaling.Server.Handlers.{
  register_goodbye, greet_all, handle_knock, answer_knock, admit, acknowledge, handle_offer,
  handle_answer, handle_candidate, handle_bind, accept_bind, reject_bind, handle_accepting,
  handle_shutdown, accept_shutdown, reject_shutdown, handle_connect, answer_connect, accept_connect,
  complete_connect, reject_connect, handle_operation, owns,
}
use unisockets.Signaling.Server.Messages.{sending, send_all-sending, greet_all-sending}
use unisockets.Signaling.Server.Keeps.{Keeps, Keeps-modify, Keeps-bind, keeps_rules}

-- The address pool is well formed, and no alias and no client is entered twice.
pub record IsSound (s : Server) : Type 0 where
  pub pool : IsWellFormed s.subnets
  pub alias_keys : Distinct (keys s.aliases)
  pub client_keys : Distinct (keys s.clients)

pub start-IsSound : IsSound start
unfolding keys
start-IsSound = record {
  pool = record { members = λ subnet m e. unfold get in cc };
  alias_keys = tt;
  client_keys = tt;
}

-- The updates that the handlers are made of.
pub set_alias-IsSound :
    (x : Text) (a : MAlias) (s : Server)
    → IsSound s
    → IsSound (record s { aliases = set x a s.aliases })
set_alias-IsSound x a s h = record {
  pool = h.pool;
  alias_keys = keys-set-Distinct x a s.aliases h.alias_keys;
  client_keys = h.client_keys;
}

pub delete_alias-IsSound :
    (x : Text) (s : Server) → IsSound s → IsSound (record s { aliases = delete x s.aliases })
delete_alias-IsSound x s h = record {
  pool = h.pool;
  alias_keys = keys-delete-Distinct x s.aliases h.alias_keys;
  client_keys = h.client_keys;
}

pub set_client-IsSound :
    (x : Text) (w : Socket) (s : Server)
    → IsSound s
    → IsSound (record s { clients = set x w s.clients })
set_client-IsSound x w s h = record {
  pool = h.pool;
  alias_keys = h.alias_keys;
  client_keys = keys-set-Distinct x w s.clients h.client_keys;
}

pub delete_client-IsSound :
    (x : Text) (s : Server) → IsSound s → IsSound (record s { clients = delete x s.clients })
delete_client-IsSound x s h = record {
  pool = h.pool;
  alias_keys = h.alias_keys;
  client_keys = keys-delete-Distinct x s.clients h.client_keys;
}

pub set_pool-IsSound :
    (t : Subnets) (s : Server) → IsWellFormed t → IsSound s → IsSound (record s { subnets = t })
set_pool-IsSound t s p h = record {
  pool = p;
  alias_keys = h.alias_keys;
  client_keys = h.client_keys;
}

sending-IsSound : (l : List (Socket × Operation)) (s : Server) → IsSound s → IsSound (sending l s)
sending-IsSound l s h = record {
  pool = h.pool;
  alias_keys = h.alias_keys;
  client_keys = h.client_keys;
}

pub pool_of : {s : Server} → IsSound s → IsWellFormed s.subnets
pool_of h = h.pool

pub send-IsSound : (w : Option Socket) (op : Operation) → Keeps IsSound (send w op)
unfolding send push
send-IsSound none op = record { stays = λ s h. h }
send-IsSound (some w) op = record { stays = λ s h. sending-IsSound ((w, op) ∷ []) s h }

pub broadcast-IsSound : (op : Operation) → Keeps IsSound (broadcast op)
unfolding broadcast
broadcast-IsSound op = record {
  stays = λ s h. rw (send_all-sending s.clients op s) (sending-IsSound _ s h);
}

pub register_goodbye-IsSound : (id : Text) → Keeps IsSound (register_goodbye id)
unfolding register_goodbye
register_goodbye-IsSound id = record {
  stays = λ s h. elim (Option-cases (get id s.clients)) [
    | inl e ↦ rw (e, register_goodbye) h
    | inr (w, e) ↦
        rw (e, register_goodbye)
          (record { pool = h.pool; alias_keys = h.alias_keys; client_keys = h.client_keys })
  ];
}

pub greet_all-IsSound : (id : Text) → Keeps IsSound (modify (λ s. greet_all s.clients id s))
greet_all-IsSound id =
    Keeps-modify _ λ s h. rw (greet_all-sending s.clients id s) (sending-IsSound _ s h)

pub ruleset pool_rules = (
  keeps_rules, send-IsSound, broadcast-IsSound, register_goodbye-IsSound, greet_all-IsSound,
  set_alias-IsSound, delete_alias-IsSound, set_client-IsSound, delete_client-IsSound,
  set_pool-IsSound, pool_of, create_ip_address-IsWellFormed, create_tcp_address-IsWellFormed,
  claim_tcp_address-IsWellFormed, remove_ip_address-IsWellFormed, remove_tcp_address-IsWellFormed,
)

admit-IsSound : (id : Text) (client : Socket) → Keeps IsSound (admit id client)
unfolding admit
admit-IsSound id client = search pool_rules

answer_knock-IsSound : (id : Text) (client : Socket) → Keeps IsSound (answer_knock id client)
unfolding answer_knock acknowledge
answer_knock-IsSound id client = elim (Bool-cases (id == overflow_id)) [
  | inl e ↦ rw e (send-IsSound _ _)
  | inr e ↦ rw e (Keeps-bind _ _ (send-IsSound _ _) λ _. admit-IsSound id client)
]

pub handle_knock-IsSound : (d : KnockData) (client : Socket) → Keeps IsSound (handle_knock d client)
unfolding handle_knock
handle_knock-IsSound d client = search (pool_rules, answer_knock-IsSound)

accept_bind-IsSound : (d : BindData) → IsTcpAddress d.alias → Keeps IsSound (accept_bind d)
unfolding accept_bind
accept_bind-IsSound d valid = search pool_rules

reject_bind-IsSound : (d : BindData) → Keeps IsSound (reject_bind d)
unfolding reject_bind
reject_bind-IsSound d = search pool_rules

pub handle_bind-IsSound : (d : BindData) → IsTcpAddress d.alias → Keeps IsSound (handle_bind d)
unfolding handle_bind
handle_bind-IsSound d valid = record {
  stays = λ s h. elim (Bool-cases (has d.alias s.aliases)) [
    | inl e ↦ rw e ((reject_bind-IsSound d).stays s h)
    | inr e ↦ rw e ((accept_bind-IsSound d valid).stays s h)
  ];
}

handle_accepting-IsSound : (d : AcceptingData) → Keeps IsSound (handle_accepting d)
unfolding handle_accepting
handle_accepting-IsSound d = record {
  stays = λ s h. elim (Bool-cases (owns d.id d.alias s)) [
    | inl e ↦ rw e (set_alias-IsSound d.alias (record { id = d.id; accepting = true }) s h)
    | inr e ↦ rw e h
  ];
}

accept_shutdown-IsSound : (d : ShutdownData) → Keeps IsSound (accept_shutdown d)
unfolding accept_shutdown
accept_shutdown-IsSound d = search pool_rules depth 9

reject_shutdown-IsSound : (d : ShutdownData) → Keeps IsSound (reject_shutdown d)
unfolding reject_shutdown
reject_shutdown-IsSound d = search pool_rules

pub handle_shutdown-IsSound : (d : ShutdownData) → Keeps IsSound (handle_shutdown d)
unfolding handle_shutdown
handle_shutdown-IsSound d = record {
  stays = λ s h. elim (Bool-cases (owns d.id d.alias s)) [
    | inl e ↦ rw e ((accept_shutdown-IsSound d).stays s h)
    | inr e ↦ rw e ((reject_shutdown-IsSound d).stays s h)
  ];
}

accept_connect-IsSound :
    (d : ConnectData) (alias : Text) (client : Option Socket)
    → Keeps IsSound (accept_connect d alias client)
unfolding accept_connect complete_connect
accept_connect-IsSound d alias client = search pool_rules depth 12

answer_connect-IsSound :
    (d : ConnectData) (alias : Text) (client : Option Socket) (b : Bool)
    → Keeps IsSound (answer_connect d alias client b)
unfolding answer_connect reject_connect
answer_connect-IsSound d alias client false = search pool_rules
answer_connect-IsSound d alias client true = accept_connect-IsSound d alias client

pub handle_connect-IsSound : (d : ConnectData) → Keeps IsSound (handle_connect d)
unfolding handle_connect
handle_connect-IsSound d = search (pool_rules, answer_connect-IsSound)

-- A bind names a natural suffix and port; other operations carry no address that is claimed.
abbrev pub IsClean : Operation → Type 0
IsClean (Operation.bind d) = IsTcpAddress d.alias
IsClean _ = Unit

-- Every message that the server gets keeps the state sound, if the addresses that are bound
-- have a natural suffix and port; a handler that throws does so too.
pub handle_operation-IsSound :
    (op : Operation) (client : Socket) → IsClean op → Keeps IsSound (handle_operation op client)
unfolding handle_operation handle_offer handle_answer handle_candidate
handle_operation-IsSound (Operation.knock d) client c = handle_knock-IsSound d client
handle_operation-IsSound (Operation.bind d) client c = handle_bind-IsSound d c
handle_operation-IsSound (Operation.accepting d) client c = handle_accepting-IsSound d
handle_operation-IsSound (Operation.shutdown d) client c = handle_shutdown-IsSound d
handle_operation-IsSound (Operation.connect d) client c = handle_connect-IsSound d
handle_operation-IsSound _ client c = search pool_rules
