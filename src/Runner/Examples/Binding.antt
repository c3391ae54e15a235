-- ===== src/Runner/Examples/Binding.antt =====
-- A program binds 127.0.0.0:80 at a server that knows its client.
use unisockets.Prelude.{
  ◌≡◌, ◌/◌, ◌%◌, refl, Bool, true, false, [], ◌∷◌, ◌++◌, some, codes, Text, text_key, nat_key,
  if◌then◌else◌, arith,
}
use unisockets.Map.{get, set, has}
use unisockets.Number.{nat, parse_int, parse_int?, to_text, strict_eq}
use unisockets.Text.{split, join}
use unisockets.Run.{pure}
use unisockets.Signaling.Errors.{ok}
use unisockets.Signaling.Address.{
  to_ip_address, to_tcp_address, parse_ip_address, parse_tcp_address,
}
use unisockets.Signaling.Subnets.{claim_tcp_address, ensure_member, holds_port}
use unisockets.Signaling.Subnets.WellFormed.{
  IsWellFormed, set-IsWellFormed, set-IsMembers, nil-IsMembers,
}
use unisockets.Signaling.Client.{Client, bind_data, bind_settles, get_alias_key}
use unisockets.Signaling.Server.Action.{
  Server, start, modify, gets, throw, ◌>>=◌, broadcast, send_all, push,
}
use unisockets.Signaling.Server.Handlers.{handle_bind, accept_bind}
use unisockets.Signaling.Session.{emitted}
use unisockets.Sockets.SockAddr.Reading.{alias_of, sockaddr}
use unisockets.Sockets.Calls.{Sockets, stub}
use unisockets.Sockets.Imports.{minus_one, unisockets_bind}
use unisockets.Runner.Worker.{Worker, externals}
use unisockets.Runner.Worker.Binding.{
  settled, settled_by_server, alias_of-IsTcpAddress, unisockets_bind-handle_bind,
}
use unisockets.Runner.Examples.{own, outside}

abbrev service : Text
service = alias_of 127 0 0 0 80

abbrev client : Client
client = record { id = own; is_connected = true }

abbrev server : Server
server = record start {
  clients = (own, 1) ∷ [];
  subnets = (codes "127.0.0", (nat 0, record { ports = [] }) ∷ []) ∷ [];
}

nil-IsWellFormed : IsWellFormed []
nil-IsWellFormed = record { members = λ subnet m e. unfold get in cc }

server-IsWellFormed : IsWellFormed server.subnets
unfolding set
server-IsWellFormed =
    set-IsWellFormed (codes "127.0.0") _
      (set-IsMembers (nat 0) (record { ports = [] }) tt (tt, tt) nil-IsMembers) nil-IsWellFormed

record Binds : Type 0 where
  there : get own server.clients ≡ some 1
  done : (handle_bind (bind_data client service) server).0 ≡ ok tt
  free : has service server.aliases ≡ false

server-Binds : Binds
unfolding get set has handle_bind accept_bind claim_tcp_address ensure_member holds_port strict_eq
    modify gets pure throw ◌>>=◌ broadcast send_all push to_ip_address to_tcp_address to_text join
    split parse_ip_address parse_tcp_address parse_int? parse_int
server-Binds = record { there = refl; done = refl; free = refl }

abbrev program : Sockets (Worker (Unit {0}))
program = record {
  binds = (3, stub) ∷ [];
  client_aliases = [];
  memories = (codes "memory", 0) ∷ [];
  buffers = (0, sockaddr 2 0 (80 / 256) (80 % 256) 127 0 0 0 ++ 16 ∷ 0 ∷ []) ∷ [];
  world = record { thread_id = 1; aliases_holder = []; requests = []; rest = tt };
}

granted :
    (b : Bool)
    → bind_settles client service
        (emitted 1 (handle_bind (bind_data client service) server).1.sent client)
      ≡ some b
    → outside.client_bind service program ≡ (settled (get_alias_key own service) b, program)
unfolding pure
granted true e = refl
granted false e = absurd (
    ground (
      arith,
      e,
      settled_by_server client service server 1 (alias_of-IsTcpAddress 127 0 0 0 80)
          server-IsWellFormed server-Binds.there refl server-Binds.done,
      server-Binds.free,
    ))

unisockets_bind-handle_bind_example :
    ((unisockets_bind (externals outside) (codes "memory") 3 0 16 program).0
      ≡ ok (if has service server.aliases then minus_one else nat 0))
    × (get service (handle_bind (bind_data client service) server).1.aliases ≡ (
        if has service server.aliases
        then get service server.aliases
        else some (record { id = own; accepting = false })))
unfolding get has
unisockets_bind-handle_bind_example =
    unisockets_bind-handle_bind outside (codes "memory") 0 program program client server 1 127 0 0 0
      80 [] (16 ∷ 0 ∷ []) 2 0 3 16 refl (omega arith) refl (omega arith) refl server-Binds.there
      server-IsWellFormed refl server-Binds.done granted
