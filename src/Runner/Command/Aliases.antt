-- ===== src/Runner/Command/Aliases.antt =====
-- Where the command line runner sends a message.
use unisockets.Prelude.{
  ◌≡◌, refl, ap, ◌∙◌, true, false, List, [], ◌∷◌, Option, none, some, Text, text_key, ◌==◌,
  if◌then◌else◌,
}
use unisockets.Map.{get}
use unisockets.Map.Laws.{get-set, get-delete}
use unisockets.Signaling.Errors.{Result, ok, err, alias_does_not_exist}
use unisockets.Signaling.Client.{Effect}
use unisockets.Sockets.Memory.{Bytes}
use unisockets.Runner.Command.{
  Command, Calls, callback, callbacks, get_offer, handle_offer, handle_answer, handle_candidate,
  handle_goodbye, handle_alias, handle_acknowledgement, handle_external_send, handle_external_recv,
  send_to, recv_from, ◌>>=◌, gets, throw, pure, zoom,
}

-- What an effect says of the alias: the last word counts.
abbrev pub heard : Text → Effect → Option Text → Option Text
heard alias (Effect.on_alias id a true) held = if a == alias then some id else held
heard alias (Effect.on_alias id a false) held = if a == alias then none else held
heard alias _ held = held

abbrev pub held_after : Text → List Effect → Option Text → Option Text
held_after alias [] held = held
held_after alias (x ∷ es) held = held_after alias es (heard alias x held)

-- What a program's send and recv do when the alias is held for this client, or for none.
abbrev pub sends : {T : Type 0} → Calls T → Option Text → Bytes → T → Result (Unit {0}) × T
sends c none msg t = (ok tt, t)
sends c (some id) msg t = c.send id msg t

abbrev pub receives : {T : Type 0} → Calls T → Option Text → T → Result Bytes × T
receives c none t = (err alias_does_not_exist, t)
receives c (some id) t = c.recv id t

module _ {T : Type 0} (c : Calls T) where
  callback-heard :
      (x : Effect) (alias : Text) (s : Command T)
      → get alias (callback c x s).aliases ≡ heard alias x (get alias s.aliases)
  unfolding callback handle_alias handle_goodbye handle_acknowledgement get_offer handle_offer
      handle_answer handle_candidate zoom
  callback-heard (Effect.on_alias id a true) alias s = get-set a alias id s.aliases
  callback-heard (Effect.on_alias id a false) alias s = get-delete a alias s.aliases
  callback-heard _ alias s = refl

  callbacks-held :
      (es : List Effect) (alias : Text) (s : Command T)
      → get alias (callbacks c es s).aliases ≡ held_after alias es (get alias s.aliases)
  unfolding callbacks
  callbacks-held [] alias s = refl
  callbacks-held (x ∷ es) alias s =
      callbacks-held es alias (callback c x s) ∙ ap (held_after alias es) (callback-heard x alias s)

  external-at :
      (o : Option Text) (alias : Text) (msg : Bytes) (t : Command T)
      → get alias t.aliases ≡ o
      → let sent = handle_external_send c alias msg t in
        let received = handle_external_recv c alias t in
        ((sent.0, sent.1.rest) ≡ sends c o msg t.rest)
        × ((received.0, received.1.rest) ≡ receives c o t.rest)
  unfolding handle_external_send handle_external_recv send_to recv_from ◌>>=◌ gets pure throw zoom
  external-at none alias msg t e = rw e (refl, refl)
  external-at (some id) alias msg t e = rw e (refl, refl)

  -- After any callbacks of the signaling client, a message for an alias goes to the client for which
  -- the alias was set last, and a message from it is taken from that one's channel; if the alias was
  -- never set, or deleted since, what is sent is dropped without an error, and recv throws.
  pub callbacks-send :
      (es : List Effect) (alias : Text) (msg : Bytes) (s : Command T)
      → let t = callbacks c es s in
        let held = held_after alias es (get alias s.aliases) in
        let sent = handle_external_send c alias msg t in
        let received = handle_external_recv c alias t in
        ((sent.0, sent.1.rest) ≡ sends c held msg t.rest)
        × ((received.0, received.1.rest) ≡ receives c held t.rest)
  callbacks-send es alias msg s =
      external-at (held_after alias es (get alias s.aliases)) alias msg (callbacks c es s)
        (callbacks-held es alias s)
