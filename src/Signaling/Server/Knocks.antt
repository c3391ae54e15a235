-- ===== src/Signaling/Server/Knocks.antt =====
-- Several calls of handleKnock at once (services/signaling-server.ts): each stops at the await of
-- createIPAddress and at that of the acknowledgement, and the others go on there.
pub mod Introductions
pub mod Mesh
pub mod Runs
use unisockets.Prelude.{
  ℕ, true, false, List, [], ◌∷◌, ◌++◌, Option, none, some, Text, text_key, ◌==◌, if◌then◌else◌,
}
use unisockets.Map.{Map}
use unisockets.Signaling.Operation.{KnockData}
use unisockets.Signaling.Subnets.{overflow_id, create_ip_address}
use unisockets.Signaling.Server.Action.{Socket, Server}
use unisockets.Signaling.Server.Handlers.{acknowledge, admit}
use unisockets.Signaling.Server.Concurrent.{pick}

-- `waiting` are the calls that wait for the mutex, and `given` those whose client was sent its
-- address.
pub record Knocking : Type 0 where
  pub server : Server
  pub waiting : List (KnockData × Socket)
  pub given : Map Text Socket

-- A knock arrives; the call at an index of `waiting` gets the mutex; the one at an index of `given`
-- goes on.
pub data KnockTurn : Type 0 where
  arrive : KnockData → Socket → KnockTurn
  allocate : ℕ → KnockTurn
  go_on : ℕ → KnockTurn

-- createIPAddress under the mutex, and the acknowledgement; a refused knock ends there.
unfoldable pub give_address :
    Option ((KnockData × Socket) × List (KnockData × Socket)) → Knocking → Knocking
give_address none p = p
give_address (some ((d, w), others)) p =
    let (id, t) = create_ip_address d.subnet p.server.subnets in
    let s = record p.server { subnets = t } in
    if id == overflow_id
    then record p { server = (acknowledge w id true s).1; waiting = others }
    else record p {
      server = (acknowledge w id false s).1;
      waiting = others;
      given = p.given ++ (id, w) ∷ [];
    }

-- The greetings, the entry and the listener.
unfoldable pub admit_given : Option ((Text × Socket) × Map Text Socket) → Knocking → Knocking
admit_given none p = p
admit_given (some ((id, w), others)) p = record p {
  server = (admit id w p.server).1;
  given = others;
}

unfoldable pub knock_turn : KnockTurn → Knocking → Knocking
unfolding give_address admit_given
knock_turn (arrive d w) p = record p { waiting = p.waiting ++ (d, w) ∷ [] }
knock_turn (allocate i) p = give_address (pick i p.waiting) p
knock_turn (go_on i) p = admit_given (pick i p.given) p

unfoldable pub knock_turns : List KnockTurn → Knocking → Knocking
unfolding knock_turn
knock_turns [] p = p
knock_turns (x ∷ l) p = knock_turns l (knock_turn x p)
