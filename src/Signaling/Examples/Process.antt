-- ===== src/Signaling/Examples/Process.antt =====
-- The server's process with two sockets: the first knocks and then falls silent.
use unisockets.Prelude.{
  Bool, ◌≡◌, refl, true, false, not, List, [], ◌∷◌, some, Text, codes, text_key, nat_key, ◌==◌,
  if◌then◌else◌,
}
use unisockets.Map.{get, has, set, contains, keys}
use unisockets.Signaling.Errors.{Result, ok, err, foreign}
use unisockets.Signaling.Operation.{Operation}
use unisockets.Signaling.Service.{RawOperation, ReceivedOperation, receive, opcode_text}
use unisockets.Signaling.Server.Process.{
  Process, Event, connection, pong, message, closed, on_event, on_events, on_connection, on_message,
  on_parsed, on_received,
}
use unisockets.Signaling.Server.Action.{Socket, send, push, modify, gets, pure, throw, ◌>>=◌}
use unisockets.Signaling.Server.Handlers.{
  handle_operation, handle_knock, answer_knock, admit, acknowledge, register_goodbye, greet_all,
}
use unisockets.Signaling.Subnets.{create_ip_address, ensure_subnet}
use unisockets.Signaling.Address.{to_ip_address}
use unisockets.Number.{sort, greater, to_text, strict_eq}
use unisockets.Number.Gap.{next_free, first_gap}
use unisockets.Signaling.Server.Process.Heartbeat.{Beats, answers_each, turns, turns-terminated}
use unisockets.Signaling.Server.Process.Runs.{idle, is_under, on_events-connected, silent_leaves}
use unisockets.Signaling.Examples.{first_id, knock}

abbrev knock_text : Text
knock_text = codes "{\"opcode\":\"knock\",\"data\":{\"subnet\":\"10.0.0\"}}"

-- `JSON.parse` on the one message of the example.
abbrev parse : Text → Result (RawOperation Operation)
parse t =
    if t == knock_text
    then ok (record { opcode = codes "knock"; content = knock })
    else err (foreign (codes "SyntaxError"))

abbrev cast : ReceivedOperation Operation → Operation
cast o = o.content

abbrev joining : List Event
joining = connection 1 ∷ message 1 knock_text ∷ []

-- What the first events leave.
record HasJoined (p : Process) : Type 0 where
  entered : get first_id p.server.clients ≡ some 1

joining-HasJoined : HasJoined (on_events parse cast joining idle)
unfolding on_events on_event on_connection on_message on_parsed on_received receive opcode_text
    handle_operation handle_knock answer_knock admit acknowledge register_goodbye greet_all send
    push modify gets pure throw ◌>>=◌ create_ip_address ensure_subnet next_free first_gap sort
    greater to_ip_address to_text get set has keys strict_eq
joining-HasJoined = record { entered = refl }

first_connected : has 1 (on_event parse cast (connection 1) idle).peers ≡ true
unfolding on_event on_connection set has
first_connected = refl

first-Beats : Beats 1 true false (on_event parse cast (connection 1) idle)
unfolding on_event on_connection set get contains keys
first-Beats = record { flag = refl; terminated = refl; once = (refl, tt) }

first_new : has 1 (on_events parse cast (connection 2 ∷ []) idle).peers ≡ false
unfolding on_events on_event on_connection set has
first_new = refl

first_later :
    has 1 (on_event parse cast (connection 1) (on_events parse cast (connection 2 ∷ []) idle)).peers
    ≡ true
unfolding on_events on_event on_connection set has
first_later = refl

none_open : (w : Socket) → has {K = Socket} {V = Bool} w [] ≡ false
unfolding has
none_open w = refl

on_events-connected_example : has 1 (on_events parse cast joining idle).peers ≡ true
on_events-connected_example =
    on_events-connected parse cast joining first_id 1 (none_open 1, (first_connected, tt))
      joining-HasJoined.entered

abbrev others : List Event
others = connection 2 ∷ pong 2 ∷ []

abbrev answering : List Event
answering = pong 1 ∷ message 1 (codes "?") ∷ []

turns-terminated_example :
    contains 1
      (turns parse cast
        (others ∷ answering ∷ (pong 2 ∷ []) ∷ [])
        (on_event parse cast (connection 1) idle)).terminated
    ≡ not (answers_each 1 (answering ∷ (pong 2 ∷ []) ∷ []))
turns-terminated_example =
    turns-terminated parse cast 1 others (answering ∷ (pong 2 ∷ []) ∷ [])
      (on_event parse cast (connection 1) idle) first-Beats (refl, (tt, tt))
      ((tt, (tt, tt)), ((tt, tt), tt))

silent_leaves_example :
    let p = on_event parse cast (connection 1) (on_events parse cast (connection 2 ∷ []) idle) in
    let q = turns parse cast ((message 1 knock_text ∷ []) ∷ (pong 2 ∷ []) ∷ []) p in
    (contains 1 q.terminated ≡ true)
    × (is_under 1 (get first_id (on_event parse cast (closed 1) q).server.clients) ≡ false)
silent_leaves_example =
    silent_leaves parse cast (connection 2 ∷ []) (message 1 knock_text ∷ []) (pong 2 ∷ []) 1
      first_id (none_open 2, tt) first_new (first_later, tt) (tt, tt) (tt, tt) (tt, tt) refl
