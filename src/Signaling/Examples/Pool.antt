-- ===== src/Signaling/Examples/Pool.antt =====
-- The theorems on the address pool at the pool of the example.
use unisockets.Prelude.{◌≡◌, true, All, Text, codes, arith, Option-cases}
use unisockets.Map.{has, get, set}
use unisockets.Map.Laws.{has-get}
use unisockets.Number.{parse_int, parse_int?}
use unisockets.Text.{split, join}
use unisockets.Signaling.Address.{to_ip_address, parse_ip_address, parse_tcp_address}
use unisockets.Signaling.Errors.{ok}
use unisockets.Signaling.Subnets.{remove_ip_address, remove_tcp_address}
use unisockets.Signaling.Subnets.WellFormed.{
  IsWellFormed, set-IsWellFormed, set-IsMembers, nil-IsMembers,
}
use unisockets.Signaling.Subnets.View.{suffix_taken, port_taken, suffix_taken-no_subnet}
use unisockets.Signaling.Subnets.Calls.{Call, create_ip, create_tcp, claim_tcp, serve_all}
use unisockets.Signaling.Subnets.Calls.Alike.{Alike}
use unisockets.Signaling.Subnets.Calls.Replies.{Replies, IsClaimable, serve_all-Replies}
use unisockets.Signaling.Subnets.Calls.Traces.{serve_all-remove_ip, serve_all-remove_tcp}
use unisockets.Signaling.Examples.{serving-IsServing, net-IsSubnet, net-Lacks}
use unisockets.Prelude.{refl, text_key, List, [], ◌∷◌}
use unisockets.Map.{Distinct, contains}
use unisockets.Number.{Number, nat, number_key}
use unisockets.Signaling.Subnets.{Subnets, create_ip_address, create_tcp_address}
use unisockets.Signaling.Subnets.Allocation.{CreatesIp, create_ip_address-CreatesIp}
use unisockets.Signaling.Subnets.Ports.{CreatesTcp, create_tcp_address-CreatesTcp}
use unisockets.Signaling.Examples.{net, second_id, serving, serving-IsSound}

abbrev pool : Subnets
pool = serving.subnets

create_ip_address-CreatesIp_example : CreatesIp net pool (create_ip_address net pool)
create_ip_address-CreatesIp_example = create_ip_address-CreatesIp net pool serving-IsSound.pool

create_tcp_address-CreatesTcp_example :
    CreatesTcp second_id pool (create_tcp_address second_id pool)
create_tcp_address-CreatesTcp_example =
    create_tcp_address-CreatesTcp second_id pool serving-IsSound.pool

abbrev some_taken : List Number
some_taken = nat 3 ∷ nat 0 ∷ nat 1 ∷ []

some_taken-Distinct : Distinct some_taken
unfolding contains
some_taken-Distinct = (refl, (refl, (refl, tt)))

abbrev calls : List Call
calls =
    create_ip net
    ∷ claim_tcp (codes "10.0.0.7:5")
    ∷ create_tcp (codes "10.0.0.7")
    ∷ create_ip net
    ∷ []

calls-IsClaimable : All IsClaimable calls
unfolding parse_ip_address parse_tcp_address split join parse_int? parse_int
calls-IsClaimable = (tt, ((tt, tt), (tt, (tt, tt))))

-- The same two members, entered in both orders, with their ports in both orders.
abbrev forth : Subnets
forth =
    (net, (nat 0, record { ports = nat 80 ∷ nat 0 ∷ [] }) ∷ (nat 1, record { ports = [] }) ∷ [])
    ∷ []

abbrev back : Subnets
back =
    (net, (nat 1, record { ports = [] }) ∷ (nat 0, record { ports = nat 0 ∷ nat 80 ∷ [] }) ∷ [])
    ∷ []

nil-IsWellFormed : IsWellFormed []
nil-IsWellFormed = record { members = λ subnet m e. unfold get in cc }

forth-IsWellFormed : IsWellFormed forth
unfolding set contains
forth-IsWellFormed =
    set-IsWellFormed net _
      (set-IsMembers (nat 1) (record { ports = [] }) tt (tt, tt)
        (set-IsMembers (nat 0) (record { ports = nat 80 ∷ nat 0 ∷ [] }) tt
          ((tt, (tt, tt)), (refl, (refl, tt))) nil-IsMembers))
      nil-IsWellFormed

back-IsWellFormed : IsWellFormed back
unfolding set contains
back-IsWellFormed =
    set-IsWellFormed net _
      (set-IsMembers (nat 0) (record { ports = nat 0 ∷ nat 80 ∷ [] }) tt
        ((tt, (tt, tt)), (refl, (refl, tt)))
        (set-IsMembers (nat 1) (record { ports = [] }) tt (tt, tt) nil-IsMembers))
      nil-IsWellFormed

forth-Alike : Alike forth back
unfolding suffix_taken port_taken has get contains
forth-Alike = record {
  view = record { suffixes = λ net' n. ground arith; ports = λ net' n q. ground arith };
  nets = λ net'. refl;
}

serve_all-Replies_example : Replies (serve_all calls forth) (serve_all calls back)
serve_all-Replies_example =
    serve_all-Replies calls forth back calls-IsClaimable forth-IsWellFormed back-IsWellFormed
      forth-Alike

net_known : has net pool ≡ true
net_known = ground (
  arith,
  has-get net pool,
  Option-cases (get net pool),
  suffix_taken-no_subnet net (nat 0) pool,
  serving-IsServing.first_taken,
)

serve_all-remove_ip_example :
    let (id, t) = create_ip_address net pool in
    (serve_all calls (remove_ip_address id t)).0 ≡ (serve_all calls pool).0
serve_all-remove_ip_example =
    serve_all-remove_ip net pool calls net-IsSubnet serving-IsSound.pool net_known
      serving-IsServing.room calls-IsClaimable

serve_all-remove_tcp_example :
    let (r, t) = create_tcp_address (to_ip_address net (nat 1)) pool in
    (alias : Text) × (r ≡ ok alias)
    × ((serve_all calls (remove_tcp_address alias t)).0 ≡ (serve_all calls pool).0)
serve_all-remove_tcp_example =
    serve_all-remove_tcp net 1 pool calls net-IsSubnet net-Lacks serving-IsSound.pool
      serving-IsServing.second_taken calls-IsClaimable
