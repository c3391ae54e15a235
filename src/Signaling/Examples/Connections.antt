-- ===== src/Signaling/Examples/Connections.antt =====
-- A client that opens, is acknowledged, loses its connection and comes back.
use unisockets.Prelude.{suc, ◌≡◌, refl, List, [], ◌∷◌, ◌++◌, some, none, true, false, codes}
use unisockets.Signaling.Operation.{Operation}
use unisockets.Signaling.Client.{Client}
use unisockets.Signaling.Client.Connection.{
  Settings, Connection, terminate, send_operation, on_connect, on_disconnect, set_timeout,
  new_socket, Event, opened, closed, message, elapsed, request, bind, close, open_client, steps,
}
use unisockets.Signaling.Client.Connection.Knocks.{
  knocks, knocked, openings, last_socket, waits, own_knock,
}
use unisockets.Signaling.Client.Connection.Identity.{
  last_acknowledged, steps_identity, steps_knock, close_reopens,
}
use unisockets.Signaling.Examples.{net, first_id, service}

abbrev settings : Settings
settings = record {
  address = codes "ws://127.0.0.1:8892";
  reconnect_duration = 1000;
  subnet = net;
  parent_ws = codes "parent";
  can_terminate = true;
}

abbrev new_client : Client
new_client = record { id = []; is_connected = false }

abbrev unopened : Connection
unopened = record {
  client = new_client;
  is_binded = false;
  socket = none;
  made = 0;
  timers = 0;
  calls = [];
}

abbrev acknowledge : Event
acknowledge = message (Operation.acknowledgement (record { id = first_id; rejected = false }))

-- The second socket fails before it opens.
abbrev losing : List Event
losing =
    opened
    ∷ acknowledge
    ∷ closed
    ∷ elapsed
    ∷ closed
    ∷ request (bind service)
    ∷ elapsed
    ∷ opened
    ∷ []

steps_knock_example :
    let t = steps settings losing (open_client settings unopened) in
    (t.socket ≡ some (last_socket 0 0 losing))
    × (t.made ≡ suc (last_socket 0 0 losing))
    × (t.timers ≡ waits 0 losing)
    × (knocks t.calls ≡ knocked (own_knock settings) (openings 0 0 losing))
steps_knock_example = steps_knock settings losing unopened refl refl refl

steps_identity_example :
    (steps settings losing unopened).client ≡ last_acknowledged losing new_client
steps_identity_example = steps_identity settings losing unopened

close_reopens_example :
    let s = record unopened { socket = some 0; made = 1 } in
    let t = steps settings (request close ∷ closed ∷ elapsed ∷ opened ∷ []) s in
    (t.socket ≡ some 1)
    × (t.calls
        ≡ []
          ++ terminate 0
            ∷ on_disconnect
            ∷ set_timeout 1000
            ∷ new_socket (codes "ws://127.0.0.1:8892")
            ∷ send_operation 1 (Operation.knock (own_knock settings))
            ∷ on_connect
            ∷ [])
close_reopens_example =
    close_reopens settings (record unopened { socket = some 0; made = 1 }) 0 refl refl
