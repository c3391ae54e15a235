-- ===== src/Runner/Command/Start.antt =====
-- What the command line runner starts: the address that a signaling server listens on, and the order
-- in which a program is loaded, given the sockets and started.
use unisockets.Prelude.{
  ◌≡◌, ap, arith, not, ℕ, Bool, true, false, ◌&&◌, ◌||◌, List, [], ◌∷◌, Option, none, some, Text,
  codes, get_elem?, if◌then◌else◌,
}
use unisockets.Map.{get_or}
use unisockets.Text.{split, Lacks}
use unisockets.Number.{Number, nat, parse_int?}
use unisockets.Signaling.Address.{TcpAddress, parse_tcp_address, to_tcp_address}
use unisockets.Signaling.Address.RoundTrip.{parse_tcp-to_tcp}

-- The options that yargs gives.
pub record Options : Type 0 where
  pub run_signaling_server : Bool
  pub run_binary : Bool
  pub signaling_server_listen_address : Text
  pub signaling_server_connect_address : Text
  pub use_c : Bool
  pub use_go : Bool
  pub use_tiny_go : Bool
  pub use_jssi : Bool
  pub use_wasi : Bool

-- The steps of the async function that runs the binary. `set_memory` names the export.
pub data Step : Type 0 where
  wait_ready : Step
  get_imports : Step
  -- `lowerI64Imports` before `compile`
  compile_lowered : Step
  compile : Step
  instantiate : Step
  instantiate_asyncify : Step
  -- `global.jssiImports = socketEnvImports`
  set_global_imports : Step
  set_memory : Text → Step
  start : Step

-- `wait_ready` comes first whatever the options; without a language and an interface that fit, no
-- program starts.
unfoldable pub run_binary_steps : Options → List Step
run_binary_steps o =
    wait_ready
    ∷ (if o.use_c
        then if o.use_wasi
          then get_imports
            ∷ compile_lowered
            ∷ instantiate_asyncify
            ∷ set_memory (codes "memory")
            ∷ start
            ∷ []
          else []
        else if o.use_go
        then if o.use_jssi
          then get_imports
            ∷ compile
            ∷ instantiate
            ∷ set_global_imports
            ∷ set_memory (codes "mem")
            ∷ start
            ∷ []
          else []
        else if o.use_tiny_go
        then if o.use_jssi
          then get_imports
            ∷ compile
            ∷ instantiate
            ∷ set_global_imports
            ∷ set_memory (codes "memory")
            ∷ start
            ∷ []
          else if o.use_wasi
          then get_imports
            ∷ compile_lowered
            ∷ instantiate_asyncify
            ∷ set_memory (codes "memory")
            ∷ start
            ∷ []
          else []
        else [])

-- `split(":")[0]` and `parseInt(split(":")[1])` of the listen address.
unfoldable pub listen_host : Text → Text
listen_host address = get_or [] (get_elem? (split b':' address) 0)

unfoldable pub listen_port : Text → Number
listen_port address = parse_int? (get_elem? (split b':' address) 1)

-- What is opened: a client with a program, a server, or nothing.
pub data Started : Type 0 where
  client_opened : Text → List Step → Started
  server_opened : Text → Number → Started
  nothing : Started

unfoldable pub run_options : Options → Started
unfolding run_binary_steps listen_host listen_port
run_options o =
    if o.run_binary
    then client_opened o.signaling_server_connect_address (run_binary_steps o)
    else if o.run_signaling_server
    then server_opened (listen_host o.signaling_server_listen_address)
        (listen_port o.signaling_server_listen_address)
    else nothing

-- How far a program is.
pub record Progress : Type 0 where
  pub ready : Bool
  pub imports : Bool
  pub compiled : Bool
  pub instantiated : Bool
  pub provided : Bool
  pub memory : Bool
  pub started : Bool

abbrev pub begun : Progress
begun = record {
  ready = false;
  imports = false;
  compiled = false;
  instantiated = false;
  provided = false;
  memory = false;
  started = false;
}

-- The next step, where what it needs is done.
abbrev pub progress : Step → Progress → Option Progress
progress wait_ready p = some (record p { ready = true })
progress get_imports p = if p.ready then some (record p { imports = true }) else none
progress compile_lowered p = if p.imports then some (record p { compiled = true }) else none
progress compile p = if p.imports then some (record p { compiled = true }) else none
progress instantiate p = if p.compiled then some (record p { instantiated = true }) else none
progress instantiate_asyncify p =
    if p.compiled then some (record p { instantiated = true; provided = true }) else none
progress set_global_imports p = if p.imports then some (record p { provided = true }) else none
progress (set_memory name) p = if p.instantiated then some (record p { memory = true }) else none
progress start p =
    if p.provided && p.memory && not p.started then some (record p { started = true }) else none

abbrev pub progress_all : List Step → Progress → Option Progress
progress_all [] p = some p
progress_all (x ∷ l) p = elim (progress x p) [ none ↦ none | some q ↦ progress_all l q ]

abbrev pub has_started : Option Progress → Option Bool
has_started none = none
has_started (some p) = some p.started

-- Whether the options name a language and one of its interfaces; C comes first, then Go.
abbrev pub fits : Options → Bool
fits o =
    (o.use_c && o.use_wasi)
    || (not o.use_c
        && ((o.use_go && o.use_jssi)
            || (not o.use_go && (o.use_tiny_go && (o.use_jssi || o.use_wasi)))))

-- Whatever the options, a program is started only after the signaling client is ready, the imports of
-- the sockets are made and provided and the program's memory is set; and it is started exactly if the
-- options name a language and an interface that fit.
pub run_binary_lem :
    (o : Options) → has_started (progress_all (run_binary_steps o) begun) ≡ some (fits o)
unfolding run_binary_steps
run_binary_lem o = ground arith

-- The runner's own listen address, a host without a colon and a port, is read back as it was written.
pub listen_address_lem :
    (host : Text) (port : ℕ)
    → Lacks b':' host
    → let address = to_tcp_address host (nat port) in
      (listen_host address ≡ host) × (listen_port address ≡ nat port)
unfolding listen_host listen_port parse_tcp_address
listen_address_lem host port lacks = (
  ap (λ (t : TcpAddress). t.ip_address) (parse_tcp-to_tcp host port lacks),
  ap (λ (t : TcpAddress). t.port) (parse_tcp-to_tcp host port lacks),
)
