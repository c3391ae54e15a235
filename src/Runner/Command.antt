-- ===== src/Runner/Command.antt =====
-- The command line runner (cmd/unisockets_runner/main.ts): the table of aliases with the handlers
-- that it gives to the signaling client and to Sockets, and what it starts for which options.
pub mod Aliases
pub mod Start
pub mod Examples
use unisockets.Prelude.{
  ℕ, Bool, true, false, List, [], ◌∷◌, Option, none, some, Text, text_key, if◌then◌else◌,
}
use unisockets.Map.{Map, get, set, delete}
use unisockets.Signaling.Errors.{Result, ok, err, alias_does_not_exist}
use unisockets.Signaling.Client.{Effect}
unfoldable pub use unisockets.Run.{continue, pure, throw, gets, modify, zoom, ◌>>=◌, ◌>>◌}
use unisockets.Run.{Run}
use unisockets.Sockets.Memory.{Bytes}

-- `rest` is what the signaling client and the transporter change.
pub record Command (T : Type 0) : Type 0 where
  pub aliases : Map Text Text
  pub is_ready : Bool
  pub rest : T

-- The methods of Transporter and SignalingClient, with the arguments that the runner gives them:
-- fewer than the methods take now.
pub record Calls (T : Type 0) : Type 0 where
  pub get_offer : Text → Text → Run T Text
  pub handle_offer : Text → Text → Text → Run T Text
  pub handle_answer : Text → Text → Run T (Unit {0})
  pub handle_candidate : Text → Text → Run T (Unit {0})
  pub shutdown : Text → Run T (Unit {0})
  pub send : Text → Bytes → Run T (Unit {0})
  pub recv : Text → Run T Bytes
  pub bind : Text → Run T (Unit {0})
  pub accept : Text → Run T Text
  pub connect : Text → Run T Text

module _ {T : Type 0} where
  abbrev pub outside : {A : Type 0} → Run T A → Run (Command T) A
  outside m = zoom (λ s. s.rest) (λ t s. record s { rest = t }) m

  unfoldable pub handle_alias : Text → Text → Bool → Command T → Command T
  handle_alias id alias true s = record s { aliases = set alias id s.aliases }
  handle_alias id alias false s = record s { aliases = delete alias s.aliases }

  -- A rejected knock is only logged.
  unfoldable pub handle_acknowledgement : Text → Bool → Command T → Command T
  handle_acknowledgement id rejected s = record s { is_ready = true }

module _ {T : Type 0} (c : Calls T) where
  -- Its result goes back to the signaling client, which drops it.
  unfoldable pub get_offer : Text → Text → Run (Command T) Text
  get_offer answerer_id second = outside (c.get_offer answerer_id second)

  unfoldable pub handle_offer : Text → Text → Text → Run (Command T) Text
  handle_offer first second third = outside (c.handle_offer first second third)

  unfoldable pub handle_answer : Text → Text → Text → Run (Command T) (Unit {0})
  handle_answer offerer_id answerer_id answer = outside (c.handle_answer answerer_id answer)

  unfoldable pub handle_candidate : Text → Text → Text → Run (Command T) (Unit {0})
  handle_candidate offerer_id answerer_id candidate =
      outside (c.handle_candidate offerer_id candidate)

  unfoldable pub handle_goodbye : Text → Run (Command T) (Unit {0})
  handle_goodbye id = outside (c.shutdown id)

  -- The callbacks as they are given to `new SignalingClient`, which calls them with its own
  -- arguments; what `emit` resolves lies outside.
  unfoldable pub callback : Effect → Command T → Command T
  unfolding get_offer handle_offer handle_answer handle_candidate handle_goodbye handle_alias
      handle_acknowledgement
  callback (Effect.on_goodbye id) s = (handle_goodbye id s).1
  callback (Effect.on_acknowledgement id rejected) s = handle_acknowledgement id rejected s
  callback (Effect.get_offer answerer_id offerer_id my_id) s =
      (get_offer answerer_id offerer_id s).1
  callback (Effect.get_answer answerer_id offerer_id my_id offer) s =
      (handle_offer answerer_id offerer_id my_id s).1
  callback (Effect.on_answer offerer_id answerer_id answer) s =
      (handle_answer offerer_id answerer_id answer s).1
  callback (Effect.on_candidate offerer_id answerer_id candidate) s =
      (handle_candidate offerer_id answerer_id candidate s).1
  callback (Effect.on_alias id alias is_set) s = handle_alias id alias is_set s
  callback (Effect.emit_connection key payload) s = s
  callback (Effect.emit_set key is_set) s = s
  callback (Effect.emit_accept key alias) s = s

  unfoldable pub callbacks : List Effect → Command T → Command T
  unfolding callback
  callbacks [] s = s
  callbacks (x ∷ es) s = callbacks es (callback x s)

  unfoldable pub handle_external_bind : Text → Run (Command T) (Unit {0})
  handle_external_bind alias = outside (c.bind alias)

  unfoldable pub handle_external_accept : Text → Run (Command T) Text
  handle_external_accept alias = outside (c.accept alias)

  -- The alias of the connection is not returned.
  unfoldable pub handle_external_connect : Text → Run (Command T) (Unit {0})
  handle_external_connect alias = do client_alias ← outside (c.connect alias); pure tt

  unfoldable pub send_to : Option Text → Bytes → Run (Command T) (Unit {0})
  send_to none msg = pure tt
  send_to (some id) msg = outside (c.send id msg)

  -- An alias that is not held is only logged.
  unfoldable pub handle_external_send : Text → Bytes → Run (Command T) (Unit {0})
  unfolding send_to
  handle_external_send alias msg = do id ← gets (λ s. get alias s.aliases); send_to id msg

  unfoldable pub recv_from : Option Text → Run (Command T) Bytes
  recv_from none = throw alias_does_not_exist
  recv_from (some id) = outside (c.recv id)

  unfoldable pub handle_external_recv : Text → Run (Command T) Bytes
  unfolding recv_from
  handle_external_recv alias = do id ← gets (λ s. get alias s.aliases); recv_from id
