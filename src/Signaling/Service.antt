-- ===== src/Signaling/Service.antt =====
-- `receive` of pkg/web/signaling/services/signaling-service.ts. `JSON.parse` gives an object with
-- an `opcode` and a `data` of any shape; `receive` looks at the opcode alone.
pub mod Opcodes
use unisockets.Prelude.{ℕ, ◌≡◌, refl, Text, codes, text_key, ◌==◌, if◌then◌else◌}
use unisockets.Signaling.Errors.{Result, ok, err, unimplemented_operation}
use unisockets.Signaling.Operation.{Opcode}

-- What `JSON.parse` returns.
pub record RawOperation {ℓ} (D : Type ℓ) : Type ℓ where
  pub opcode : Text
  pub content : D

-- An instance of the class that belongs to the opcode, over the data as they came.
pub record ReceivedOperation {ℓ} (D : Type ℓ) : Type ℓ where
  pub opcode : Opcode
  pub content : D

-- The strings of ESIGNALING_OPCODES.
unfoldable pub opcode_text : Opcode → Text
opcode_text Opcode.goodbye = codes "goodbye"
opcode_text Opcode.knock = codes "knock"
opcode_text Opcode.acknowledged = codes "acknowledged"
opcode_text Opcode.greeting = codes "greeting"
opcode_text Opcode.offer = codes "offer"
opcode_text Opcode.answer = codes "answer"
opcode_text Opcode.candidate = codes "candidate"
opcode_text Opcode.bind = codes "bind"
opcode_text Opcode.accepting = codes "accepting"
opcode_text Opcode.alias = codes "alias"
opcode_text Opcode.shutdown = codes "shutdown"
opcode_text Opcode.connect = codes "connect"
opcode_text Opcode.accept = codes "accept"

module _ {ℓ} {D : Type ℓ} where
  -- The instance that a case of the switch returns.
  abbrev received : RawOperation D → Opcode → Result (ReceivedOperation D)
  received raw o = ok (record { opcode = o; content = raw.content })

  unfoldable pub receive : RawOperation D → Result (ReceivedOperation D)
  receive raw =
      if raw.opcode == opcode_text Opcode.goodbye
      then received raw Opcode.goodbye
      else if raw.opcode == opcode_text Opcode.knock
      then received raw Opcode.knock
      else if raw.opcode == opcode_text Opcode.acknowledged
      then received raw Opcode.acknowledged
      else if raw.opcode == opcode_text Opcode.greeting
      then received raw Opcode.greeting
      else if raw.opcode == opcode_text Opcode.offer
      then received raw Opcode.offer
      else if raw.opcode == opcode_text Opcode.answer
      then received raw Opcode.answer
      else if raw.opcode == opcode_text Opcode.candidate
      then received raw Opcode.candidate
      else if raw.opcode == opcode_text Opcode.bind
      then received raw Opcode.bind
      else if raw.opcode == opcode_text Opcode.accepting
      then received raw Opcode.accepting
      else if raw.opcode == opcode_text Opcode.alias
      then received raw Opcode.alias
      else if raw.opcode == opcode_text Opcode.shutdown
      then received raw Opcode.shutdown
      else if raw.opcode == opcode_text Opcode.connect
      then received raw Opcode.connect
      else if raw.opcode == opcode_text Opcode.accept
      then received raw Opcode.accept
      else err (unimplemented_operation raw.opcode)
