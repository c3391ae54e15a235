-- ===== src/Signaling/Examples/Handlers.antt =====
-- The theorems on the server's handlers at the example.
use unisockets.Prelude.{ℕ, ◌≡◌, refl, ap, true, false, codes, text_key, [], none}
use unisockets.Map.{get}
use unisockets.Number.{nat, to_text, parse_int, parse_int?}
use unisockets.Text.{split, join}
use unisockets.Signaling.Errors.{ok}
use unisockets.Signaling.Operation.{
  Operation, KnockData, BindData, AcceptingData, ShutdownData, ConnectData,
}
use unisockets.Signaling.Address.{
  to_ip_address, to_tcp_address, parse_ip_address, parse_tcp_address,
}
use unisockets.Signaling.Subnets.{Subnets}
use unisockets.Signaling.Subnets.Effects.{FreesSuffix, SameView}
use unisockets.Signaling.Subnets.View.{port_taken}
use unisockets.Signaling.Server.Handlers.{
  handle_operation, handle_bind, handle_shutdown, handle_connect, connection_message,
}
use unisockets.Signaling.Server.Action.{Server}
use unisockets.Signaling.Server.Goodbye.{handle_close}
use unisockets.Signaling.Server.Invariant.{IsSound, handle_operation-IsSound}
use unisockets.Signaling.Server.Keeps.{Keeps}
use unisockets.Signaling.Server.Reach.{Reach-IsSound}
use unisockets.Signaling.Server.Binding.{Binds, handle_bind-Binds, reply}
use unisockets.Signaling.Server.Owners.{bound_by, IsOwned, Run, start, message, closes, Run-IsOwned}
use unisockets.Signaling.Server.Release.{shutdown_frees_address}
use unisockets.Signaling.Server.Leaving.{Leaves, handle_close-Leaves}
use unisockets.Signaling.Server.Connecting.{
  Connected, handle_connect_refused, handle_connect_accepted,
}
use unisockets.Signaling.Examples.{
  net, net-IsSubnet, net-Lacks, first_id, second_id, service, serving, serving-Reach,
  serving-IsSound, serving-IsServing, service-elsewhere, first_id_lem,
}

abbrev second_knock : KnockData
second_knock = record { subnet = net; parent_ws = [] }

abbrev late_bind : BindData
late_bind = record { id = first_id; alias = service }

handle_bind-Binds_example : Binds late_bind serving (handle_bind late_bind serving)
unfolding parse_ip_address parse_tcp_address split join parse_int? parse_int
handle_bind-Binds_example = handle_bind-Binds late_bind serving (tt, tt) serving-IsSound.pool

abbrev stop_service : ShutdownData
stop_service = record { id = second_id; alias = service }

-- The first client tries to shut the second one's service down and to bind it, and leaves.
abbrev intruding : Operation
intruding = Operation.shutdown (record { id = first_id; alias = service })

abbrev intruded : Server
intruded =
    (handle_close first_id
      (handle_operation (Operation.bind late_bind) 1 (handle_operation intruding 1 serving).1).1).1

intruded-Run : Run service second_id serving intruded
unfolding parse_ip_address parse_tcp_address split join parse_int? parse_int
intruded-Run =
    closes first_id
      (message (Operation.bind late_bind) 1 (message intruding 1 start tt refl) (tt, tt) tt) refl

Run-IsOwned_example : IsOwned service second_id intruded
Run-IsOwned_example =
    Run-IsOwned service second_id serving-IsSound
      (record { owned = ap bound_by serving-IsServing.alias }) intruded-Run

abbrev open_service : AcceptingData
open_service = record { id = second_id; alias = service }

Reach-IsSound_example : IsSound serving
Reach-IsSound_example = Reach-IsSound serving-Reach

handle_operation-IsSound_example : Keeps IsSound (handle_operation (Operation.bind late_bind) 1)
unfolding parse_ip_address parse_tcp_address split join parse_int? parse_int
handle_operation-IsSound_example = handle_operation-IsSound (Operation.bind late_bind) 1 (tt, tt)

handle_close-Leaves_example :
    ((handle_close second_id serving).0 ≡ ok tt)
    × Leaves second_id serving (handle_close second_id serving).1
handle_close-Leaves_example = handle_close-Leaves second_id serving serving-IsSound

shutdown_frees_address_example :
    FreesSuffix net (nat 1) serving.subnets (handle_shutdown stop_service serving).1.subnets
    × ((handle_shutdown stop_service serving).1.clients ≡ serving.clients)
unfolding to_ip_address to_tcp_address to_text
shutdown_frees_address_example =
    shutdown_frees_address net 1 80 net-IsSubnet net-Lacks second_id serving serving-IsServing.owned
      serving-IsSound.pool

abbrev to_nowhere : ConnectData
to_nowhere = record {
  id = first_id;
  remote_alias = codes "10.0.0.0:9";
  client_connection_id = codes "u";
}

abbrev to_service : ConnectData
to_service = record { id = first_id; remote_alias = service; client_connection_id = codes "u" }

handle_connect_refused_example :
    (p : ℕ) × (pool : Subnets) × SameView serving.subnets pool
    × (handle_connect to_nowhere serving
        ≡ reply
            (get first_id serving.clients)
            (connection_message first_id
              (to_tcp_address (to_ip_address net (nat 0)) (nat p))
              false
              (codes "u")
              none)
            (record serving { subnets = pool }))
handle_connect_refused_example =
    handle_connect_refused net 0 net-IsSubnet net-Lacks to_nowhere first_id_lem serving
      serving-IsSound.pool serving-IsServing.first_taken serving-IsServing.closed

handle_connect_accepted_example :
    (p : ℕ) × ((handle_connect to_service serving).0 ≡ ok tt)
    × (port_taken net (nat 0) (nat p) serving.subnets ≡ false)
    × Connected net 0 net-IsSubnet net-Lacks to_service first_id_lem serving serving-IsSound.pool
        serving-IsServing.first_taken p
        (record { id = second_id; accepting = true })
        1
        2
        (handle_connect to_service serving).1
handle_connect_accepted_example =
    handle_connect_accepted net 0 net-IsSubnet net-Lacks to_service first_id_lem serving
      serving-IsSound.pool serving-IsServing.first_taken
      (record { id = second_id; accepting = true }) 1 2 serving-IsServing.alias refl
      (λ q e. service-elsewhere serving q e) serving-IsServing.first serving-IsServing.second
