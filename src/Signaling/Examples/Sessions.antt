-- ===== src/Signaling/Examples/Sessions.antt =====
-- The theorems on the client's promises at the example.
use unisockets.Prelude.{
  ℕ, ◌≡◌, ◌≤◌, arith, refl, true, false, Text, codes, text_key, List, [], ◌∷◌, ◌++◌, some,
}
use unisockets.Map.{get, keys, contains}
use unisockets.Signaling.Server.Invariant.{IsSound}
use unisockets.Signaling.Session.Reconnect.{after_close, reconnect_acknowledged}
use unisockets.Number.{nat, parse_int, parse_int?}
use unisockets.Text.{split, join}
use unisockets.Signaling.Errors.{ok}
use unisockets.Signaling.Operation.{Operation}
use unisockets.Signaling.Address.{
  to_ip_address, to_tcp_address, parse_ip_address, parse_tcp_address,
}
use unisockets.Signaling.Subnets.View.{port_taken}
use unisockets.Signaling.Client.{Client, resolved, shutdown_settles, shutdown_data, connect_data}
use unisockets.Signaling.Server.Action.{Socket}
use unisockets.Signaling.Server.Handlers.{handle_shutdown, handle_connect, owns}
use unisockets.Signaling.Session.{emitted, shutdown_answered}
use unisockets.Signaling.Server.Action.{Server}
use unisockets.Signaling.Server.Handlers.{handle_knock}
use unisockets.Signaling.Session.Knock.{knock_data, Acknowledged, answered, knock_data-Acknowledged}
use unisockets.Signaling.Session.Connect.{ConnectsTo, connect_resolved}
use unisockets.Signaling.Examples.{
  net, net-IsSubnet, net-Lacks, first_id, first_id_lem, second_id, service, serving,
  serving-IsSound, serving-IsServing, service-elsewhere,
}

abbrev first_client : Client
first_client = record { id = first_id; is_connected = true }

abbrev uuid : Text
uuid = codes "u"

abbrev second_client : Client
second_client = record { id = second_id; is_connected = true }

abbrev free_alias : Text
free_alias = codes "10.0.0.7:5"

shutdown_answered_example :
    (l : List (Socket × Operation)) × ((handle_shutdown
        (shutdown_data first_client service)
        serving).0
      ≡ ok tt)
    × ((handle_shutdown (shutdown_data first_client service) serving).1.sent ≡ serving.sent ++ l)
    × (shutdown_settles first_client service (emitted 1 l first_client)
        ≡ some (owns first_id service serving))
shutdown_answered_example = shutdown_answered first_client service serving 1 serving-IsServing.first

abbrev nowhere : Text
nowhere = codes "10.0.0.0:9"

connect_resolved_example :
    (p : ℕ) × (port_taken net (nat 0) (nat p) serving.subnets ≡ false)
    × ConnectsTo net 0 net-IsSubnet net-Lacks first_client first_id_lem uuid service b'u' [] refl
        serving serving-IsSound.pool serving-IsServing.first_taken 1 serving-IsServing.first
        (handle_connect (connect_data first_client uuid service) serving).1
        (resolved (to_tcp_address (to_ip_address net (nat 0)) (nat p)))
connect_resolved_example =
    connect_resolved net 0 net-IsSubnet net-Lacks first_client first_id_lem uuid service b'u' []
      refl serving serving-IsSound.pool serving-IsServing.first_taken 1 serving-IsServing.first
      (record { id = second_id; accepting = true }) 2 serving-IsServing.alias refl
      (λ q e. service-elsewhere serving q e) serving-IsServing.second

-- A third client opens its socket.
abbrev quiet : Server
quiet = record serving { sent = []; clients = (first_id, 1) ∷ (second_id, 2) ∷ [] }

knock_data-Acknowledged_example :
    let s' = (handle_knock (knock_data net (codes "parent")) 3 quiet).1 in
    Acknowledged net 3 quiet s' (answered 3 s' first_client)
unfolding parse_ip_address parse_tcp_address split join parse_int? parse_int
knock_data-Acknowledged_example =
    knock_data-Acknowledged net (codes "parent") 3 quiet first_client serving-IsSound.pool
      (refl, (refl, tt)) refl

quiet-IsSound : IsSound quiet
unfolding keys contains
quiet-IsSound = record {
  pool = serving-IsSound.pool;
  alias_keys = serving-IsSound.alias_keys;
  client_keys = (refl, (refl, tt));
}

-- The first client's socket closes, and it knocks again over another one.
reconnect_acknowledged_example :
    let id = to_ip_address net (nat 0) in
    let s' = (handle_knock (knock_data net (codes "parent")) 3 (after_close id quiet)).1 in
    (m : ℕ) × (m ≤ 255)
    × (answered 3 s' first_client ≡ record { id = to_ip_address net (nat m); is_connected = true })
    × (get (answered 3 s' first_client).id s'.clients ≡ some 3)
reconnect_acknowledged_example =
    reconnect_acknowledged net 0 quiet net-IsSubnet quiet-IsSound (codes "parent") 3 first_client
      (omega arith) (refl, (refl, tt))
