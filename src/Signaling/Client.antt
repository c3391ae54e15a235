-- ===== src/Signaling/Client.antt =====
-- SignalingClient of pkg/web/signaling/services/signaling-client.ts: its fields, the dispatch of
-- what the server sends, and the promises of bind, shutdown, accept and connect. The constructor's
-- callbacks and the emitter's `emit` are effects, in the order in which they are called.
pub mod Handshake
pub mod Connection
use unisockets.Prelude.{
  ℕ, ◌+◌, Bool, true, false, ◌++◌, List, [], ◌∷◌, Option, none, some, Text, codes, text_key, ◌==◌,
  leb, if◌then◌else◌,
}
use unisockets.Signaling.Errors.{Result, ok, err, unimplemented_operation}
use unisockets.Signaling.Operation.{
  Operation, AliasData, AcceptData, BindData, ShutdownData, ConnectData, opcode,
}
use unisockets.Signaling.Service.{opcode_text}

pub record Client : Type 0 where
  pub id : Text
  pub is_connected : Bool

-- What notifyConnect writes into the emitter, as JSON.
pub record Payload : Type 0 where
  pub set : Bool
  pub alias : Text
  pub is_connection_alias : Bool

pub data Effect : Type 0 where
  on_goodbye : Text → Effect
  on_acknowledgement : Text → Bool → Effect
  get_offer : Text → Text → Text → Effect
  get_answer : Text → Text → Text → Text → Effect
  on_answer : Text → Text → Text → Effect
  on_candidate : Text → Text → Text → Effect
  on_alias : Text → Text → Bool → Effect
  emit_connection : Text → Payload → Effect
  emit_set : Text → Bool → Effect
  emit_accept : Text → Text → Effect

unfoldable pub get_alias_key : Text → Text → Text
get_alias_key id alias = codes "alias id=" ++ (id ++ (codes " alias=" ++ alias))

unfoldable pub get_connection_key : Text → Text
get_connection_key client_connection_id = codes "connection id=" ++ client_connection_id

unfoldable pub get_accept_key : Text → Text
get_accept_key bound_alias = codes "accept alias=" ++ bound_alias

notify_connect : Text → Bool → Text → Bool → Effect
notify_connect client_connection_id is_set alias is_connection_alias =
    emit_connection (get_connection_key client_connection_id)
      (record { set = is_set; alias = alias; is_connection_alias = is_connection_alias })

notify_bind_and_shutdown : Text → Text → Bool → Effect
notify_bind_and_shutdown id alias is_set = emit_set (get_alias_key id alias) is_set

notify_accept : Text → Text → Effect
notify_accept bound_alias client_alias = emit_accept (get_accept_key bound_alias) client_alias

-- `x ? true : false` of a property that may be missing.
abbrev truthy : Option Bool → Bool
truthy none = false
truthy (some b) = b

-- `if (data.clientConnectionId)`: an empty string is false too.
pub connection_of : Option Text → Option Text
connection_of none = none
connection_of (some []) = none
connection_of (some (c ∷ id)) = some (c ∷ id)

unfoldable pub handle_alias : AliasData → List Effect
unfolding connection_of notify_connect notify_bind_and_shutdown
handle_alias d = elim (connection_of d.client_connection_id) [
  | some connection ↦
      notify_connect connection d.set d.alias (truthy d.is_connection_alias)
      ∷ on_alias d.id d.alias d.set
      ∷ []
  | none ↦ notify_bind_and_shutdown d.id d.alias d.set ∷ on_alias d.id d.alias d.set ∷ []
]

-- `data.alias` is read where `data.clientId` is there; the server sends neither.
unfoldable pub handle_accept : AcceptData → List Effect
unfolding notify_accept
handle_accept d = elim d.client_id [
  | none ↦ notify_accept d.bound_alias d.client_alias ∷ []
  | some id ↦
      on_alias id (elim d.alias [ none ↦ [] | some a ↦ a ]) true
      ∷ notify_accept d.bound_alias d.client_alias
      ∷ []
]

unfoldable pub handle_operation : Operation → Client → Result (Client × List Effect)
unfolding handle_alias handle_accept
handle_operation (Operation.goodbye d) c = ok (c, on_goodbye d.id ∷ [])
handle_operation (Operation.acknowledgement d) c =
    ok (record c { id = d.id; is_connected = true }, on_acknowledgement d.id d.rejected ∷ [])
handle_operation (Operation.greeting d) c = ok (c, get_offer d.answerer_id d.offerer_id c.id ∷ [])
handle_operation (Operation.offer d) c =
    ok (c, get_answer d.answerer_id d.offerer_id c.id d.offer ∷ [])
handle_operation (Operation.answer d) c = ok (c, on_answer d.offerer_id d.answerer_id d.answer ∷ [])
handle_operation (Operation.candidate d) c =
    ok (c, on_candidate d.offerer_id d.answerer_id d.candidate ∷ [])
handle_operation (Operation.alias d) c = ok (c, handle_alias d)
handle_operation (Operation.accept d) c = ok (c, handle_accept d)
handle_operation (Operation.knock d) c =
    err (unimplemented_operation (opcode_text (opcode (Operation.knock d))))
handle_operation (Operation.bind d) c =
    err (unimplemented_operation (opcode_text (opcode (Operation.bind d))))
handle_operation (Operation.accepting d) c =
    err (unimplemented_operation (opcode_text (opcode (Operation.accepting d))))
handle_operation (Operation.shutdown d) c =
    err (unimplemented_operation (opcode_text (opcode (Operation.shutdown d))))
handle_operation (Operation.connect d) c =
    err (unimplemented_operation (opcode_text (opcode (Operation.connect d))))

-- A promise of an alias; what settles it first stays.
pub data Promise : Type 0 where
  pending : Promise
  resolved : Text → Promise
  rejected : Text → Promise

abbrev pub settle : Promise → Promise → Promise
settle pending p = p
settle (resolved a) p = resolved a
settle (rejected e) p = rejected e

-- The variables of the listener that `connect` registers.
pub record Attempt : Type 0 where
  pub i : ℕ
  pub alias : Text
  pub promise : Promise

abbrev pub attempt : Attempt
attempt = record { i = 0; alias = []; promise = pending }

-- The listener of `connect`, for the connection with this key.
unfoldable pub on_payload : Text → Payload → Attempt → Attempt
on_payload key p t =
    if p.set
    then (let alias = if p.is_connection_alias then p.alias else t.alias in
        record {
          i = t.i + 1;
          alias = alias;
          promise = if leb 2 (t.i + 1) then settle t.promise (resolved alias) else t.promise;
        })
    else record t { promise = settle t.promise (rejected key) }

-- The emitter calls the listener for the events with its key.
unfoldable pub listen : Text → List Effect → Attempt → Attempt
listen key [] t = t
listen key (emit_connection k p ∷ es) t = listen key es (if k == key then on_payload key p t else t)
listen key (_ ∷ es) t = listen key es t

-- What `bind`, `shutdown` and `connect` send; the id of a connection is a fresh UUID.
abbrev pub bind_data : Client → Text → BindData
bind_data c alias = record { id = c.id; alias = alias }

abbrev pub shutdown_data : Client → Text → ShutdownData
shutdown_data c alias = record { id = c.id; alias = alias }

abbrev pub connect_data : Client → Text → Text → ConnectData
connect_data c uuid remote_alias = record {
  id = c.id;
  client_connection_id = uuid;
  remote_alias = remote_alias;
}

-- The promises of `bind` and `shutdown`: the first event with the alias's key decides.
unfoldable pub once_set : Text → List Effect → Option Bool
once_set key [] = none
once_set key (emit_set k b ∷ es) = let rest = once_set key es in if k == key then some b else rest
once_set key (_ ∷ es) = once_set key es

-- `true` for a promise that is resolved, `false` for one that is rejected.
unfoldable pub bind_settles : Client → Text → List Effect → Option Bool
bind_settles c alias es = once_set (get_alias_key c.id alias) es

unfoldable pub shutdown_settles : Client → Text → List Effect → Option Bool
shutdown_settles c alias es = elim (once_set (get_alias_key c.id alias) es) [
  | none ↦ none
  | some true ↦ some false
  | some false ↦ some true
]

-- The promise of `accept`: the first event with the bound alias's key resolves it.
unfoldable pub once_accept : Text → List Effect → Option Text
once_accept key [] = none
once_accept key (emit_accept k a ∷ es) =
    let rest = once_accept key es in if k == key then some a else rest
once_accept key (_ ∷ es) = once_accept key es

unfoldable pub accept_settles : Text → List Effect → Option Text
unfolding once_accept
accept_settles bound_alias es = once_accept (get_accept_key bound_alias) es

-- Messages handled one after another; a message that is refused has no effect on the rest.
unfoldable pub handle_all : List Operation → Client → Client × List Effect
handle_all [] c = (c, [])
handle_all (op ∷ ops) c = elim (handle_operation op c) [
  | err e ↦ handle_all ops c
  | ok (c', es) ↦ let (c'', rest) = handle_all ops c' in (c'', es ++ rest)
]
