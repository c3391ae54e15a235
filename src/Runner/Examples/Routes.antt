-- ===== src/Runner/Examples/Routes.antt =====
-- The first client connects to the service of the second: the routes at their workers.
use unisockets.Prelude.{ℕ, ◌≡◌, refl, true, false, List, [], ◌++◌, some, codes, text_key}
use unisockets.Map.{get}
use unisockets.Number.{nat}
use unisockets.Signaling.Operation.{Operation}
use unisockets.Signaling.Address.{to_ip_address, to_tcp_address}
use unisockets.Signaling.Subnets.View.{port_taken}
use unisockets.Signaling.Client.{Client, connect_data, accept_settles}
use unisockets.Signaling.Server.Action.{Socket}
use unisockets.Signaling.Server.Handlers.{handle_connect}
use unisockets.Signaling.Session.{emitted}
use unisockets.Signaling.Examples.{
  net, net-IsSubnet, net-Lacks, first_id, first_id_lem, second_id, service, serving,
  serving-IsSound, serving-IsServing, service-elsewhere,
}
use unisockets.Runner.Worker.{Worker, callbacks}
use unisockets.Runner.Worker.Routes.{handle_connect-callbacks}

abbrev connecting : Client
connecting = record { id = first_id; is_connected = true }

abbrev accepting : Client
accepting = record { id = second_id; is_connected = true }

abbrev worker : ℕ → Worker (Unit {0})
worker thread = record { thread_id = thread; aliases_holder = []; requests = []; rest = tt }

handle_connect-callbacks_example :
    (p : ℕ) × (l : List (Socket × Operation)) × (port_taken net (nat 0) (nat p) serving.subnets
      ≡ false)
    × ((handle_connect (connect_data connecting (codes "u") service) serving).1.sent
        ≡ serving.sent ++ l)
    × (get service (callbacks (emitted 1 l connecting) (worker 1)).aliases_holder ≡ some second_id)
    × (get
          (to_tcp_address (to_ip_address net (nat 0)) (nat p))
          (callbacks (emitted 2 l accepting) (worker 2)).aliases_holder
        ≡ some first_id)
    × (accept_settles service (emitted 2 l accepting)
        ≡ some (to_tcp_address (to_ip_address net (nat 0)) (nat p)))
handle_connect-callbacks_example =
    handle_connect-callbacks net 0 net-IsSubnet net-Lacks connecting first_id_lem (codes "u")
      service serving serving-IsSound.pool serving-IsServing.first_taken
      (record { id = second_id; accepting = true }) 1 2 accepting (worker 1) (worker 2)
      serving-IsServing.alias refl (λ q e. service-elsewhere serving q e) serving-IsServing.first
      serving-IsServing.second refl
