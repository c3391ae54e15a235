-- ===== src/Signaling/Server/Leaving.antt =====
-- The close listener: what is left of a client that has gone.
use unisockets.Prelude.{
  ◌≡◌, refl, ap, ◌∙◌, sym, false, List, [], ◌∷◌, ◌++◌, append_assoc, append-nil, Option, none, some,
  Text, text_key, text_beq_iff, ◌==◌, if◌then◌else◌, Bool, arith,
}
use unisockets.Map.{Map, get, delete, keys, contains, Distinct}
use unisockets.Map.Laws.{get-delete, has-get}
use unisockets.Map.Keys.{contains-keys}
use unisockets.Signaling.Errors.{ok}
use unisockets.Signaling.Operation.{Operation}
use unisockets.Signaling.Subnets.{Subnets, remove_ip_address, remove_tcp_address}
use unisockets.Signaling.Server.Action.{Socket, MAlias, Server, ◌>>=◌, broadcast}
use unisockets.Signaling.Server.Handlers.{alias_message}
use unisockets.Signaling.Server.Goodbye.{handle_close, aliases_of, delete_all, release_all}
use unisockets.Signaling.Server.Invariant.{IsSound}
use unisockets.Signaling.Server.Messages.{messages, sending, send_all-sending}

get-delete_all :
    (gone : List Text) (x : Text) (m : Map Text MAlias)
    → get x (delete_all gone m) ≡ (if contains x gone then none else get x m)
unfolding delete_all contains
get-delete_all [] x m = refl
get-delete_all (a ∷ gone) x m = ground (arith, get-delete_all gone x (delete a m), get-delete a x m)

-- Whether an entry belongs to the client.
abbrev pub is_of : Text → Option MAlias → Bool
is_of id none = false
is_of id (some a) = a.id == id

contains-aliases_of :
    (id x : Text) (m : Map Text MAlias)
    → Distinct (keys m)
    → contains x (aliases_of id m) ≡ is_of id (get x m)
unfolding aliases_of contains get keys
contains-aliases_of id x [] d = refl
contains-aliases_of id x ((j, a) ∷ m) d =
    ground (arith, contains-aliases_of id x m d.1, contains-keys x m, has-get x m, text_beq_iff j x)

-- The alias messages of the callbacks, one alias after another.
abbrev pub farewells : Text → List Text → Map Text Socket → List (Socket × Operation)
farewells id [] clients = []
farewells id (a ∷ gone) clients =
    messages clients (alias_message id a false) ++ farewells id gone clients

-- What the callbacks give back.
abbrev pub given_back : List Text → Subnets → Subnets
given_back [] s = s
given_back (a ∷ gone) s = given_back gone (remove_tcp_address a (remove_ip_address a s))

release_all_lem :
    (id : Text) (gone : List Text) (s : Server)
    → release_all id gone s ≡ (
      ok tt,
      sending (farewells id gone s.clients) (record s { subnets = given_back gone s.subnets }),
    )
unfolding release_all ◌>>=◌ broadcast
release_all_lem id [] s = ap (λ l. (ok tt, record s { sent = l })) (sym (append-nil s.sent))
release_all_lem id (a ∷ gone) s =
    let t = record s { subnets = remove_tcp_address a (remove_ip_address a s.subnets) } in
    rw (send_all-sending s.clients (alias_message id a false) t) (
      release_all_lem id gone (sending (messages s.clients (alias_message id a false)) t)
      ∙ ap (λ l. (ok tt, record t { subnets = given_back gone t.subnets; sent = l }))
          (append_assoc s.sent (messages s.clients (alias_message id a false))
            (farewells id gone s.clients)))

-- The state that the listener leaves.
abbrev pub left : Text → Server → Server
left id s =
    let clients = delete id s.clients in
    let gone = aliases_of id s.aliases in
    record s {
      clients = clients;
      aliases = delete_all gone s.aliases;
      subnets = given_back gone (remove_ip_address id s.subnets);
      sent =
          s.sent
          ++ (messages clients (Operation.goodbye (record { id = id }))
              ++ farewells id gone clients);
    }

pub handle_close-left : (id : Text) (s : Server) → handle_close id s ≡ (ok tt, left id s)
unfolding handle_close ◌>>=◌ broadcast
handle_close-left id s =
    let clients = delete id s.clients in
    let gone = aliases_of id s.aliases in
    let t = record s {
      clients = clients;
      subnets = remove_ip_address id s.subnets;
      aliases = delete_all gone s.aliases;
    } in
    rw (send_all-sending clients (Operation.goodbye (record { id = id })) t) (
      release_all_lem id gone
        (sending (messages clients (Operation.goodbye (record { id = id }))) t)
      ∙ ap (λ l. (ok tt, record t { subnets = given_back gone t.subnets; sent = l }))
          (append_assoc s.sent (messages clients (Operation.goodbye (record { id = id })))
            (farewells id gone clients)))

-- What is true after a client has gone.
pub record Leaves (id : Text) (s s' : Server) : Type 0 where
  pub clients : (x : Text) → get x s'.clients ≡ (if id == x then none else get x s.clients)
  pub aliases :
      (x : Text) → get x s'.aliases ≡ (if is_of id (get x s.aliases) then none else get x s.aliases)
  pub told :
      s'.sent
      ≡ s.sent
        ++ (messages s'.clients (Operation.goodbye (record { id = id }))
            ++ farewells id (aliases_of id s.aliases) s'.clients)

-- When a client's socket closes, the client is gone and so are its aliases and no others; each
-- client that remains gets one goodbye and after it one Alias message for each of the aliases; the
-- listener does not throw. Condition: the pool is well formed, and no alias and no client is entered
-- twice.
pub handle_close-Leaves :
    (id : Text) (s : Server)
    → IsSound s
    → ((handle_close id s).0 ≡ ok tt) × Leaves id s (handle_close id s).1
handle_close-Leaves id s v = rw (handle_close-left id s) (
  refl,
  record {
    clients = λ x. get-delete id x s.clients;
    aliases = λ x. ground (
      arith,
      get-delete_all (aliases_of id s.aliases) x s.aliases,
      contains-aliases_of id x s.aliases v.alias_keys,
    );
    told = refl;
  },
)
