-- ===== src/Sockets/Examples.antt =====
-- The theorems on the socket calls, with callbacks that answer at once.
use unisockets.Prelude.{
  ◌+◌, ◌*◌, ◌/◌, ◌%◌, ◌≡◌, refl, [], ◌∷◌, ◌++◌, some, length, Text, codes, text_key, nat_key,
  get_elem?, arith,
}
use unisockets.Map.{get, set, has}
use unisockets.Number.{nat}
use unisockets.Signaling.Errors.{ok, client_closed}
use unisockets.Signaling.Address.{parse_tcp_address, parse_ip_address}
use unisockets.Run.{pure, throw}
use unisockets.Run.Keeps.{Keeps-pure}
use unisockets.Sockets.Memory.{Bytes, htons}
use unisockets.Sockets.SockAddr.{read_alias, write_alias, address_length}
use unisockets.Sockets.SockAddr.Reading.{alias_of, sockaddr, subnet_of, read_alias-parsed}
use unisockets.Sockets.SockAddr.Writing.{accepted_alias-swapped}
use unisockets.Sockets.Calls.{
  Bind, Sockets, Externals, stub, with_binds, accept, connect, send, close,
}
use unisockets.Sockets.Calls.Laws.{bind_to}
use unisockets.Sockets.Calls.Keeps.{CallsKeep}
use unisockets.Sockets.Calls.Accepted.{accept-send, connect-close}
use unisockets.Sockets.Imports.{recv_call, run_call, buffer_of, unisockets_recv, unisockets_bind}
use unisockets.Sockets.Imports.Bounds.{IsKept, run_call-IsKept}
use unisockets.Sockets.Imports.Codes.{unisockets_recv_lem, unisockets_bind_lem}

abbrev server_alias : Text
server_alias = codes "127.0.0.0:80"

abbrev client_alias : Text
client_alias = codes "127.0.0.1:0"

-- A message of five bytes arrives; connections are made under the client's alias.
abbrev answering : Externals (Unit {0})
answering = record {
  external_bind = λ alias. pure tt;
  external_accept = λ alias. pure client_alias;
  external_connect = λ alias. pure (some client_alias);
  external_send = λ alias id msg. pure tt;
  external_recv = λ alias id. pure (1 ∷ 2 ∷ 3 ∷ 4 ∷ 5 ∷ []);
  external_close = λ alias. pure tt;
  external_socket = pure 7;
  update_binds = pure [];
  notify_bind_set = λ fd b w. w;
  client_id = λ w. codes "127.0.0.0";
  encode = λ t. t;
}

abbrev refusing : Externals (Unit {0})
refusing = record answering { external_connect = λ alias. throw client_closed }

abbrev own_bind : Bind
own_bind = record { alias = server_alias; connector_id = codes "127.0.0.0" }

abbrev memory_id : Text
memory_id = codes "memory"

-- Descriptor 3 is bound; the memory begins with the socket address of 127.0.0.0:80.
abbrev opened : Sockets (Unit {0})
opened = record {
  binds = (3, own_bind) ∷ [];
  client_aliases = [];
  memories = (memory_id, 0) ∷ [];
  buffers = (0, sockaddr 2 0 (80 / 256) (80 % 256) 127 0 0 0 ++ 16 ∷ 0 ∷ []) ∷ [];
  world = tt;
}

abbrev before_it : Bytes
before_it = 9 ∷ []

read_alias-parsed_example :
    (alias : Text) × (read_alias
        (length before_it)
        16
        (before_it ++ (sockaddr 2 0 0 80 127 0 0 1 ++ []))
      ≡ ok alias)
    × ((parse_tcp_address alias).port ≡ nat (0 * 256 + 80))
    × (parse_ip_address (parse_tcp_address alias).ip_address
        ≡ record { subnet = subnet_of 127 0 0; suffix = nat 1 })
read_alias-parsed_example =
    read_alias-parsed before_it [] 2 0 0 80 127 0 0 1 16 (omega arith) (omega arith) (omega arith)

-- The address's length stands behind the address.
accepted_alias-swapped_example :
    read_alias (length before_it) 16 (
      write_alias
        (length before_it)
        9
        (alias_of 127 0 0 1 80)
        (before_it ++ (sockaddr 0 0 0 0 0 0 0 0 ++ 16 ∷ 0 ∷ 0 ∷ 0 ∷ [])))
    ≡ ok (alias_of 127 0 0 1 (htons 80))
unfolding address_length
accepted_alias-swapped_example =
    accepted_alias-swapped 127 0 0 1 80 (omega arith) (omega arith) (omega arith) (omega arith)
      (omega arith) before_it (16 ∷ 0 ∷ 0 ∷ 0 ∷ []) 0 0 0 0 0 0 0 0 9 16 (omega arith) (omega arith)

accept-send_example :
    (accept answering 3 opened
      ≡ (ok (7, client_alias), bind_to answering 7 client_alias (with_binds (set 7 stub) opened)))
    × (send answering 7 (1 ∷ []) (bind_to answering 7 client_alias (with_binds (set 7 stub) opened))
        ≡ answering.external_send client_alias
            (codes "127.0.0.0")
            (1 ∷ [])
            (bind_to answering 7 client_alias (with_binds (set 7 stub) opened)))
unfolding has get set pure
accept-send_example =
    accept-send answering 3 7 client_alias own_bind opened opened (with_binds (set 7 stub) opened)
      (1 ∷ []) refl refl refl refl

connect-close_example :
    let t : Sockets (Unit {0}) = bind_to answering 3 server_alias opened in
    let u : Sockets (Unit {0}) = record t {
      client_aliases = set 3 client_alias t.client_aliases;
    } in
    (connect answering 3 server_alias opened ≡ (ok (some client_alias), u))
    × (send answering 3 (1 ∷ []) u
        ≡ answering.external_send server_alias (codes "127.0.0.0") (1 ∷ []) u)
    × (close answering 3 u ≡ answering.external_close client_alias u)
unfolding has pure
connect-close_example =
    connect-close answering 3 server_alias client_alias opened
      (bind_to answering 3 server_alias opened) (1 ∷ []) refl refl refl refl

answering-CallsKeep : (P : Sockets (Unit {0}) → Type 0) → CallsKeep answering P
answering-CallsKeep P = record {
  on_bind = λ alias. Keeps-pure tt;
  on_accept = λ alias. Keeps-pure client_alias;
  on_connect = λ alias. Keeps-pure (some client_alias);
  on_send = λ alias id msg. Keeps-pure tt;
  on_recv = λ alias id. Keeps-pure (1 ∷ 2 ∷ 3 ∷ 4 ∷ 5 ∷ []);
  on_close = λ alias. Keeps-pure tt;
  on_socket = Keeps-pure 7;
  on_update = Keeps-pure [];
}

run_call-IsKept_example :
    IsKept
      (λ buffer. buffer_of buffer opened)
      2
      (2 + 3 + 1)
      (run_call answering memory_id (recv_call 3 2 3) opened).1
run_call-IsKept_example =
    run_call-IsKept answering memory_id (recv_call 3 2 3) opened (answering-CallsKeep _)

-- Of five bytes for a buffer of three, the fourth is written too.
unisockets_recv_lem_example :
    ((unisockets_recv answering memory_id 3 2 3 opened).0 ≡ ok (nat 5))
    × (get_elem? (buffer_of 0 (unisockets_recv answering memory_id 3 2 3 opened).1) (2 + 3)
        ≡ some 4)
unfolding get pure
unisockets_recv_lem_example =
    unisockets_recv_lem memory_id 0 opened refl answering 3 2 3 3 own_bind (1 ∷ 2 ∷ 3 ∷ 4 ∷ 5 ∷ [])
      opened refl refl (omega arith) (omega arith) (omega arith)

unisockets_bind_lem_example :
    unisockets_bind answering memory_id 3 0 16 opened
    ≡ (ok (nat 0), bind_to answering 3 (alias_of 127 0 0 0 80) opened)
unfolding get has pure
unisockets_bind_lem_example =
    unisockets_bind_lem memory_id 0 opened refl answering [] (16 ∷ 0 ∷ []) 2 0 127 0 0 0 80
      (omega arith) refl 3 16 (ok tt) opened (omega arith) refl refl
