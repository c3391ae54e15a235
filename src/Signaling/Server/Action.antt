-- ===== src/Signaling/Server/Action.antt =====
-- The state of SignalingServer, and actions that change it and may throw. What was changed or
-- sent before a throw stays, so the state comes back beside the error too.
use unisockets.Prelude.{ℕ, List, [], ◌∷◌, ◌++◌, Option, none, some, Bool, Text, text_key}
use unisockets.Map.{Map}
use unisockets.Signaling.Errors.{Result, ok, client_closed}
unfoldable pub use unisockets.Run.{continue, pure, throw, gets, modify, zoom, ◌>>=◌, ◌>>◌}
use unisockets.Run.{Run}
use unisockets.Signaling.Operation.{Operation}
use unisockets.Signaling.Subnets.{Subnets}

-- A WebSocket, by its identity.
abbrev pub Socket : Type 0
Socket = ℕ

-- models/alias.ts
pub record MAlias : Type 0 where
  pub id : Text
  pub accepting : Bool

-- `closing` holds the listeners that registerGoodbye has put on the sockets' "close" event.
pub record Server : Type 0 where
  pub clients : Map Text Socket
  pub aliases : Map Text MAlias
  pub subnets : Subnets
  pub closing : List (Socket × Text)
  pub sent : List (Socket × Operation)

abbrev pub start : Server
start = record { clients = []; aliases = []; subnets = []; closing = []; sent = [] }

abbrev pub Action : Type 0 → Type 0
Action A = Run Server A

-- A method of the address pool, which may throw.
abbrev pub on_subnets : {A : Type 0} → (Subnets → Result A × Subnets) → Action A
on_subnets m = zoom (λ s. s.subnets) (λ t s. record s { subnets = t }) m

-- `client.send(JSON.stringify(operation))`
unfoldable pub push : Socket → Operation → Server → Server
push w op s = record s { sent = s.sent ++ (w, op) ∷ [] }

-- `send` of services/signaling-service.ts.
unfoldable pub send : Option Socket → Operation → Action (Unit {0})
unfolding throw modify
send none op = throw client_closed
send (some w) op = modify (push w op)

-- `this.clients.forEach(async (client) => await this.send(client, operation))`
unfoldable pub send_all : Map Text Socket → Operation → Server → Server
send_all [] op s = s
send_all ((id, w) ∷ rest) op s = send_all rest op (push w op s)

unfoldable pub broadcast : Operation → Action (Unit {0})
broadcast op s = (ok tt, send_all s.clients op s)
