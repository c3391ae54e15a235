-- ===== src/Signaling/Operation.antt =====
-- The operations that server and clients exchange: pkg/web/signaling/operations. An operation is
-- one constructor for each class, which fixes the opcode, over its data.
use unisockets.Prelude.{Bool, Option, Text}

-- ESIGNALING_OPCODES
pub data Opcode : Type 0 where
  goodbye knock acknowledged greeting offer answer candidate : Opcode
  bind accepting alias shutdown connect accept : Opcode

pub record GoodbyeData : Type 0 where
  pub id : Text

-- `parentWs` is sent and never read.
pub record KnockData : Type 0 where
  pub subnet : Text
  pub parent_ws : Text

pub record AcknowledgementData : Type 0 where
  pub id : Text
  pub rejected : Bool

pub record GreetingData : Type 0 where
  pub offerer_id : Text
  pub answerer_id : Text

pub record OfferData : Type 0 where
  pub offerer_id : Text
  pub answerer_id : Text
  pub offer : Text

pub record AnswerData : Type 0 where
  pub offerer_id : Text
  pub answerer_id : Text
  pub answer : Text

pub record CandidateData : Type 0 where
  pub offerer_id : Text
  pub answerer_id : Text
  pub candidate : Text

pub record BindData : Type 0 where
  pub id : Text
  pub alias : Text

pub record AcceptingData : Type 0 where
  pub id : Text
  pub alias : Text

-- `none` is a property that the sender leaves out.
pub record AliasData : Type 0 where
  pub id : Text
  pub alias : Text
  pub set : Bool
  pub client_connection_id : Option Text
  pub is_connection_alias : Option Bool

pub record ShutdownData : Type 0 where
  pub id : Text
  pub alias : Text

pub record ConnectData : Type 0 where
  pub id : Text
  pub remote_alias : Text
  pub client_connection_id : Text

-- The server leaves `clientId` and `alias` out.
pub record AcceptData : Type 0 where
  pub bound_alias : Text
  pub client_alias : Text
  pub client_id : Option Text
  pub alias : Option Text

-- ISignalingOperation, over the thirteen classes.
pub data Operation : Type 0 where
  goodbye : GoodbyeData → Operation
  knock : KnockData → Operation
  acknowledgement : AcknowledgementData → Operation
  greeting : GreetingData → Operation
  offer : OfferData → Operation
  answer : AnswerData → Operation
  candidate : CandidateData → Operation
  bind : BindData → Operation
  accepting : AcceptingData → Operation
  alias : AliasData → Operation
  shutdown : ShutdownData → Operation
  connect : ConnectData → Operation
  accept : AcceptData → Operation

-- The `opcode` that each class sets.
abbrev pub opcode : Operation → Opcode
opcode (Operation.goodbye d) = Opcode.goodbye
opcode (Operation.knock d) = Opcode.knock
opcode (Operation.acknowledgement d) = Opcode.acknowledged
opcode (Operation.greeting d) = Opcode.greeting
opcode (Operation.offer d) = Opcode.offer
opcode (Operation.answer d) = Opcode.answer
opcode (Operation.candidate d) = Opcode.candidate
opcode (Operation.bind d) = Opcode.bind
opcode (Operation.accepting d) = Opcode.accepting
opcode (Operation.alias d) = Opcode.alias
opcode (Operation.shutdown d) = Opcode.shutdown
opcode (Operation.connect d) = Opcode.connect
opcode (Operation.accept d) = Opcode.accept
