-- ===== src/Signaling/Examples.antt =====
-- A small network, reached by the server's own handlers: two clients in the subnet 10.0.0, of which
-- the second has bound 10.0.0.1:80 and accepts connections there.
pub mod Pool
pub mod Handlers
pub mod Sessions
pub mod Codecs
pub mod Concurrent
pub mod Process
pub mod Connections
use unisockets.Prelude.{◌≡◌, ◌==◌, refl, true, false, Text, codes, some, none, List, [], ◌∷◌}
use unisockets.Prelude.{text_key}
use unisockets.Map.{get, set, has, keys}
use unisockets.Number.{nat, neg, sort, greater, to_text, parse_int, parse_int?, strict_eq}
use unisockets.Number.Gap.{next_free, first_gap}
use unisockets.Text.{Lacks, split, join}
use unisockets.Signaling.Address.{
  parse_ip_address, parse_tcp_address, to_ip_address, to_tcp_address,
}
use unisockets.Signaling.Subnets.{
  overflow_id, create_ip_address, ensure_subnet, claim_tcp_address, ensure_member, holds_port,
}
use unisockets.Signaling.Operation.{Operation, KnockData, BindData, AcceptingData}
use unisockets.Signaling.Address.RoundTrip.{IsSubnet}
use unisockets.Signaling.Server.Action.{
  Socket, Server, MAlias, start, send, push, on_subnets, modify, gets, pure, throw, ◌>>=◌,
  broadcast, send_all,
}
use unisockets.Signaling.Server.Handlers.{
  handle_operation, handle_knock, answer_knock, admit, acknowledge, register_goodbye, greet_all,
  handle_bind, accept_bind, handle_accepting, owns, is_accepting,
}
use unisockets.Signaling.Server.Reach.{Step, message, Reach, init, next, Reach-IsSound}
use unisockets.Signaling.Server.Invariant.{IsSound}
use unisockets.Signaling.Subnets.View.{suffix_taken, port_taken}
use unisockets.Signaling.Errors.{ok}
use unisockets.Map.{get_or}
use unisockets.Prelude.{◌≢◌, zero, suc, ◌<◌, arith, ℕ, ap, get_elem?}

abbrev pub net : Text
net = codes "10.0.0"

abbrev pub first_id : Text
first_id = codes "10.0.0.0"

abbrev pub second_id : Text
second_id = codes "10.0.0.1"

abbrev pub service : Text
service = codes "10.0.0.1:80"

abbrev pub knock : Operation
knock = Operation.knock (record { subnet = net; parent_ws = [] })

abbrev pub bind_service : BindData
bind_service = record { id = second_id; alias = service }

abbrev after : Operation → Socket → Server → Server
after op w s = (handle_operation op w s).1

abbrev pub joined : Server
joined = after knock 2 (after knock 1 start)

abbrev pub bound : Server
bound = after (Operation.bind bind_service) 2 joined

abbrev pub serving : Server
serving = after (Operation.accepting (record { id = second_id; alias = service })) 2 bound

pub net-IsSubnet : IsSubnet net
unfolding split
net-IsSubnet = refl

pub net-Lacks : Lacks b':' net
net-Lacks = ground arith

pub joined-Reach : Reach joined
joined-Reach = next (next init (message knock 1 start tt)) (message knock 2 _ tt)

pub bound-Reach : Reach bound
unfolding parse_ip_address parse_tcp_address split join parse_int? parse_int
bound-Reach = next joined-Reach (message (Operation.bind bind_service) 2 joined (tt, tt))

pub serving-Reach : Reach serving
serving-Reach =
    next bound-Reach
      (message (Operation.accepting (record { id = second_id; alias = service })) 2 bound tt)

-- What the handlers have made of the empty server.
pub record IsServing (s : Server) : Type 0 where
  pub first : get first_id s.clients ≡ some 1
  pub second : get second_id s.clients ≡ some 2
  pub alias : get service s.aliases ≡ some (record { id = second_id; accepting = true })
  pub closed : is_accepting (codes "10.0.0.0:9") s ≡ false
  pub owned : owns second_id service s ≡ true
  pub first_taken : suffix_taken net (nat 0) s.subnets ≡ true
  pub second_taken : suffix_taken net (nat 1) s.subnets ≡ true
  pub room : ((create_ip_address net s.subnets).0 == overflow_id) ≡ false
  pub bind_works : (handle_bind (record { id = first_id; alias = codes "10.0.0.7:5" }) s).0 ≡ ok tt

pub serving-IsServing : IsServing serving
unfolding handle_operation handle_knock answer_knock admit acknowledge register_goodbye greet_all
    send push modify gets pure throw ◌>>=◌ create_ip_address ensure_subnet next_free first_gap sort
    greater to_ip_address to_text get set has keys strict_eq handle_bind accept_bind
    claim_tcp_address ensure_member holds_port broadcast send_all handle_accepting owns
    parse_ip_address parse_tcp_address split join parse_int? parse_int is_accepting suffix_taken
serving-IsServing = record {
  first = refl;
  second = refl;
  alias = refl;
  closed = refl;
  owned = refl;
  first_taken = refl;
  second_taken = refl;
  room = refl;
  bind_works = refl;
}

abbrev eighth : Text → ℕ
eighth t = get_or 0 (get_elem? t 7)

apart : (m n : ℕ) → m ≡ 49 → n ≡ 48 → m ≢ n
apart m n a b e = omega arith

-- The service is not on the first client's address.
pub service-elsewhere :
    (s : Server) (q : ℕ)
    → service ≡ to_tcp_address (to_ip_address net (nat 0)) (nat q)
    → port_taken net (nat 0) (nat q) s.subnets ≡ true
unfolding to_ip_address to_tcp_address to_text
service-elsewhere s q e = absurd (apart (eighth service) _ refl refl (ap eighth e))

pub below_one :
    (s : Server)
    → suffix_taken net (nat 0) s.subnets ≡ true
    → (k : ℕ) → k < 1
    → suffix_taken net (nat k) s.subnets ≡ true
below_one s h zero less = h
below_one s h (suc k) less = absurd (omega arith)

pub first_id_lem : first_id ≡ to_ip_address net (nat 0)
unfolding to_ip_address to_text
first_id_lem = refl

pub serving-IsSound : IsSound serving
serving-IsSound = Reach-IsSound serving-Reach
