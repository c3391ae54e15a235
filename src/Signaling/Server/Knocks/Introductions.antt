-- ===== src/Signaling/Server/Knocks/Introductions.antt =====
-- How often the server has introduced two clients to each other, by a greeting that names both.
use unisockets.Prelude.{
  ℕ, ◌+◌, ◌≡◌, Bool, false, ◌&&◌, ◌||◌, List, [], ◌∷◌, ◌++◌, Text, text_key, text_beq_iff, ◌==◌,
  if◌then◌else◌, arith,
}
use unisockets.Map.{Map, has, keys, Distinct}
use unisockets.Map.Keys.{contains-keys}
use unisockets.Signaling.Operation.{Operation}
use unisockets.Signaling.Server.Action.{Socket}
use unisockets.Signaling.Server.Messages.{greetings}

abbrev pub introduces : Text → Text → Operation → Bool
introduces a b (Operation.greeting d) =
    (d.offerer_id == a && d.answerer_id == b) || (d.offerer_id == b && d.answerer_id == a)
introduces a b _ = false

abbrev pub introductions : Text → Text → List (Socket × Operation) → ℕ
introductions a b [] = 0
introductions a b (m ∷ l) = (if introduces a b m.1 then 1 else 0) + introductions a b l

pub introductions-append :
    (a b : Text) (l k : List (Socket × Operation))
    → introductions a b (l ++ k) ≡ introductions a b l + introductions a b k
introductions-append a b [] k = omega arith
introductions-append a b (m ∷ l) k = omega (arith, introductions-append a b l k)

-- The greetings for a new client introduce it once to each client that is entered.
pub introductions-greetings :
    (a b id : Text) (m : Map Text Socket)
    → (a == b) ≡ false
    → Distinct (keys m)
    → introductions a b (greetings m id)
      ≡ (if (id == b && has a m) || (id == a && has b m) then 1 else 0)
unfolding has keys
introductions-greetings a b id [] e d = ground arith
introductions-greetings a b id ((k, w) ∷ m) e d = ground (
  arith,
  introductions-greetings a b id m e d.1,
  contains-keys k m,
  text_beq_iff a b,
  text_beq_iff k a,
  text_beq_iff k b,
  text_beq_iff id a,
  text_beq_iff id b,
  text_beq_iff k id,
)
