-- ===== src/Signaling/Server/Messages.antt =====
-- What `forEach` over the clients sends, in one equation, and what a send leaves alone.
use unisockets.Prelude.{
  ◌≡◌, List, [], ◌∷◌, ◌++◌, append-nil, append_assoc, ap, Text, text_key, ◌==◌, if◌then◌else◌,
  Bool-cases, inl, inr, sym, ◌∙◌,
}
use unisockets.Map.{Map}
use unisockets.Signaling.Operation.{Operation}
use unisockets.Signaling.Server.Action.{Socket, Server, push, send_all}
use unisockets.Signaling.Server.Handlers.{greet_all}

-- One message to each client, in the order of the map.
abbrev pub messages : Map Text Socket → Operation → List (Socket × Operation)
messages [] op = []
messages ((id, w) ∷ rest) op = (w, op) ∷ messages rest op

abbrev pub greeting_message : Text → Text → Operation
greeting_message existing id =
    Operation.greeting (record { offerer_id = existing; answerer_id = id })

-- A greeting to each client but the one with the new address.
abbrev pub greetings : Map Text Socket → Text → List (Socket × Operation)
greetings [] id = []
greetings ((existing, w) ∷ rest) id =
    if existing == id
    then greetings rest id
    else (w, greeting_message existing id) ∷ greetings rest id

abbrev pub sending : List (Socket × Operation) → Server → Server
sending l s = record s { sent = s.sent ++ l }

sending-sending :
    (l k : List (Socket × Operation)) (s : Server) → sending k (sending l s) ≡ sending (l ++ k) s
sending-sending l k s = ap (λ x. record s { sent = x }) (append_assoc s.sent l k)

sending-nil : (s : Server) → sending [] s ≡ s
sending-nil s = ap (λ x. record s { sent = x }) (append-nil s.sent)

pub send_all-sending :
    (m : Map Text Socket) (op : Operation) (s : Server)
    → send_all m op s ≡ sending (messages m op) s
unfolding send_all push
send_all-sending [] op s = sym (sending-nil s)
send_all-sending ((id, w) ∷ rest) op s =
    send_all-sending rest op (push w op s) ∙ sending-sending ((w, op) ∷ []) (messages rest op) s

pub greet_all-sending :
    (m : Map Text Socket) (id : Text) (s : Server) → greet_all m id s ≡ sending (greetings m id) s
unfolding greet_all push
greet_all-sending [] id s = sym (sending-nil s)
greet_all-sending ((existing, w) ∷ rest) id s = elim (Bool-cases (existing == id)) [
  | inl e ↦ rw e (greet_all-sending rest id s)
  | inr e ↦ rw e (
      greet_all-sending rest id (push w (greeting_message existing id) s)
      ∙ sending-sending ((w, greeting_message existing id) ∷ []) (greetings rest id) s)
]
