-- ===== src/Runner/Command/Examples.antt =====
-- The command line runner with a transporter that writes down what it is asked to send.
use unisockets.Prelude.{◌≡◌, refl, true, false, List, [], ◌∷◌, some, Text, codes, text_key}
use unisockets.Map.{get}
use unisockets.Signaling.Errors.{ok}
use unisockets.Signaling.Client.{Effect}
use unisockets.Sockets.Memory.{Bytes}
use unisockets.Runner.Command.{
  Command, Calls, callbacks, handle_external_send, handle_external_recv,
}
use unisockets.Runner.Command.Aliases.{held_after, sends, receives, callbacks-send}
use unisockets.Runner.Command.Start.{
  Options, begun, progress_all, has_started, run_binary_steps, fits, run_binary_lem,
}

abbrev Sent : Type 0
Sent = List (Text × Bytes)

abbrev recorder : Calls Sent
recorder = record {
  get_offer = λ answerer_id second t. (ok (codes "offer"), t);
  handle_offer = λ first second third t. (ok (codes "answer"), t);
  handle_answer = λ answerer_id answer t. (ok tt, t);
  handle_candidate = λ offerer_id candidate t. (ok tt, t);
  shutdown = λ id t. (ok tt, t);
  send = λ id msg t. (ok tt, (id, msg) ∷ t);
  recv = λ id t. (ok [], t);
  bind = λ alias t. (ok tt, t);
  accept = λ alias t. (ok alias, t);
  connect = λ alias t. (ok alias, t);
}

abbrev service : Text
service = codes "127.0.0.0:80"

-- The alias moves from one client to another.
abbrev moving : List Effect
moving =
    Effect.on_alias (codes "a") service true
    ∷ Effect.on_goodbye (codes "a")
    ∷ Effect.on_alias (codes "a") service false
    ∷ Effect.on_alias (codes "b") service true
    ∷ []

abbrev command : Command Sent
command = record { aliases = []; is_ready = false; rest = [] }

callbacks-send_example :
    let t = callbacks recorder moving command in
    let held = held_after service moving (get service command.aliases) in
    let sent = handle_external_send recorder service (1 ∷ 2 ∷ []) t in
    let received = handle_external_recv recorder service t in
    ((sent.0, sent.1.rest) ≡ sends recorder held (1 ∷ 2 ∷ []) t.rest)
    × ((received.0, received.1.rest) ≡ receives recorder held t.rest)
callbacks-send_example = callbacks-send recorder moving service (1 ∷ 2 ∷ []) command

held_example : held_after service moving (get service command.aliases) ≡ some (codes "b")
unfolding get
held_example = refl

abbrev tiny_go : Options
tiny_go = record {
  run_signaling_server = false;
  run_binary = true;
  signaling_server_listen_address = codes "0.0.0.0:6999";
  signaling_server_connect_address = codes "wss://signaler.webnetes.dev";
  use_c = false;
  use_go = false;
  use_tiny_go = true;
  use_jssi = false;
  use_wasi = true;
}

run_binary_lem_example :
    has_started (progress_all (run_binary_steps tiny_go) begun) ≡ some (fits tiny_go)
run_binary_lem_example = run_binary_lem tiny_go
