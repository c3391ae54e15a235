-- ===== src/Runner/Worker.antt =====
-- A worker thread (cmd/unisockets_runner_web/worker.ts): its aliases, the messages that it posts to
-- the page's thread, and the callbacks that it gives to Sockets.
pub mod Sharing
pub mod Aliases
pub mod Binding
pub mod Routes
use unisockets.Prelude.{
  ℕ, ◌≡◌, ◌&&◌, not, Bool, true, false, List, [], ◌∷◌, ◌++◌, Option, none, some, Text, text_key,
  nat_key, if◌then◌else◌,
}
use unisockets.Map.{Map, get, has, set, delete, get_or}
use unisockets.Signaling.Errors.{ok, alias_does_not_exist}
use unisockets.Signaling.Client.{Effect}
use unisockets.Run.{Run, pure, throw, gets, modify, zoom, ◌>>=◌, ◌>>◌}
use unisockets.Sockets.Memory.{Bytes}
use unisockets.Sockets.Calls.{Bind, Sockets, Externals}

-- The messages to the page's thread, by their `cmd`.
pub data Request : Type 0 where
  get_offer_cmd : Text → Text → Text → Request
  get_answer_cmd : Text → Text → Text → Text → Request
  handle_answer_cmd : Text → Text → Request
  handle_candidate_cmd : Text → Text → Request
  alias_update : Text → Text → Bool → Request
  bind_update : ℕ → Text → Text → Request
  socket_descriptor : Text → Request
  fetch_binds : Text → Request
  wrtc_send : Text → Text → Bytes → Text → Request
  wrtc_recv : Text → Text → Request

-- `rest` is what lies outside: the signaling client, the resolver of answers and the ids.
pub record Worker (R : Type 0) : Type 0 where
  pub thread_id : ℕ
  pub aliases_holder : Map Text Text
  pub requests : List (ℕ × Request)
  pub rest : R

-- What the page's thread answers to `fetchBinds`.
pub record Info : Type 0 where
  pub binds : Map ℕ Bind
  pub aliases : Map Text Text

-- The signaling client, `v4`, and `asyncResolver.once`, which waits for the answer under a name. While
-- one waits, messages change the whole state.
pub record Outside (R : Type 0) : Type 0 where
  pub client_bind : Text → Run (Sockets (Worker R)) (Unit {0})
  pub client_accept : Text → Run (Sockets (Worker R)) Text
  pub client_connect : Text → Run (Sockets (Worker R)) (Option Text)
  pub client_shutdown : Text → Run (Sockets (Worker R)) (Unit {0})
  -- `open` and the wait for "ready", unless the client is connected.
  pub ready : Run (Sockets (Worker R)) (Unit {0})
  pub fresh_id : R → Text × R
  pub once_descriptor : Text → Run (Sockets (Worker R)) ℕ
  pub once_info : Text → Run (Sockets (Worker R)) Info
  pub once_sent : Text → Run (Sockets (Worker R)) (Unit {0})
  pub once_message : Text → Run (Sockets (Worker R)) Bytes
  pub client_id : R → Text
  pub encode : Text → Bytes

-- `tmp.aliases.forEach((value, key) => aliasesHolder.set(key, value))`
unfoldable pub set_aliases : Map Text Text → Map Text Text → Map Text Text
set_aliases [] holder = holder
set_aliases ((key, value) ∷ news) holder = set_aliases news (set key value holder)

module _ {R : Type 0} where
  unfoldable pub post_message : Request → Worker R → Worker R
  post_message r w = record w { requests = w.requests ++ (w.thread_id, r) ∷ [] }

  abbrev pub with_world : (Worker R → Worker R) → Sockets (Worker R) → Sockets (Worker R)
  with_world f s = record s { world = f s.world }

  -- A binding of another thread, which does not replace one that is there.
  unfoldable pub on_notify_bind_add : ℕ → Text → Text → Sockets (Worker R) → Sockets (Worker R)
  on_notify_bind_add fd alias connector_id s =
      let b : Bind = record { alias = alias; connector_id = connector_id } in
      if has fd s.binds then s else record s { binds = set fd b s.binds }

  unfoldable pub on_notify_alias_add : Text → Text → Bool → Worker R → Worker R
  on_notify_alias_add alias id is_delete w =
      if has alias w.aliases_holder && not is_delete then w else record w {
        aliases_holder =
            if is_delete then delete alias w.aliases_holder else set alias id w.aliases_holder;
      }

  unfoldable pub update_alias : Text → Text → Bool → Worker R → Worker R
  unfolding post_message
  update_alias id alias is_delete w = post_message (alias_update id alias is_delete) w

  unfoldable pub handle_alias : Text → Text → Bool → Worker R → Worker R
  unfolding update_alias
  handle_alias id alias true w =
      update_alias id alias false (record w { aliases_holder = set alias id w.aliases_holder })
  handle_alias id alias false w =
      update_alias id alias true (record w { aliases_holder = delete alias w.aliases_holder })

  unfoldable pub is_alias_contains : Text → Worker R → Bool
  is_alias_contains alias w = has alias w.aliases_holder

  unfoldable pub get_offer : Text → Text → Text → Worker R → Worker R
  unfolding post_message
  get_offer answerer_id offerer_id my_id w =
      post_message (get_offer_cmd answerer_id offerer_id my_id) w

  unfoldable pub handle_offer : Text → Text → Text → Text → Worker R → Worker R
  unfolding post_message
  handle_offer answerer_id offerer_id my_id offer w =
      post_message (get_answer_cmd answerer_id offerer_id my_id offer) w

  unfoldable pub handle_answer : Text → Text → Text → Worker R → Worker R
  unfolding post_message
  handle_answer offerer_id answerer_id answer w =
      post_message (handle_answer_cmd answerer_id answer) w

  unfoldable pub handle_candidate : Text → Text → Text → Worker R → Worker R
  unfolding post_message
  handle_candidate offerer_id answerer_id candidate w =
      post_message (handle_candidate_cmd offerer_id candidate) w

  unfoldable pub notify_bind_set : ℕ → Bind → Worker R → Worker R
  unfolding post_message
  notify_bind_set fd b w = post_message (bind_update fd b.alias b.connector_id) w

  -- The callbacks, as they are given to `new SignalingClient`. `handleGoodbye` only logs, and what
  -- `emit` resolves and "ready" lie outside.
  unfoldable pub callback : Effect → Worker R → Worker R
  unfolding get_offer handle_offer handle_answer handle_candidate handle_alias
  callback (Effect.get_offer answerer_id offerer_id my_id) w =
      get_offer answerer_id offerer_id my_id w
  callback (Effect.get_answer answerer_id offerer_id my_id offer) w =
      handle_offer answerer_id offerer_id my_id offer w
  callback (Effect.on_answer offerer_id answerer_id answer) w =
      handle_answer offerer_id answerer_id answer w
  callback (Effect.on_candidate offerer_id answerer_id candidate) w =
      handle_candidate offerer_id answerer_id candidate w
  callback (Effect.on_alias id alias is_set) w = handle_alias id alias is_set w
  callback (Effect.on_goodbye id) w = w
  callback (Effect.on_acknowledgement id rejected) w = w
  callback (Effect.emit_connection key payload) w = w
  callback (Effect.emit_set key is_set) w = w
  callback (Effect.emit_accept key alias) w = w

  unfoldable pub callbacks : List Effect → Worker R → Worker R
  unfolding callback
  callbacks [] w = w
  callbacks (x ∷ l) w = callbacks l (callback x w)

module _ {R : Type 0} (o : Outside R) where
  abbrev pub ask : Request → Run (Sockets (Worker R)) (Unit {0})
  ask r = modify (with_world (post_message r))

  -- `v4()`
  unfoldable pub new_id : Run (Sockets (Worker R)) Text
  new_id s =
      let (id, rest) = o.fresh_id s.world.rest in
      (ok id, with_world (λ w. record w { rest = rest }) s)

  unfoldable pub handle_external_socket : Run (Sockets (Worker R)) ℕ
  unfolding post_message new_id
  handle_external_socket = do
    o.ready
    request_id ← new_id
    ask (socket_descriptor request_id)
    o.once_descriptor request_id

  unfoldable pub update_binds : Run (Sockets (Worker R)) (Map ℕ Bind)
  unfolding post_message set_aliases new_id
  update_binds = do
    request_id ← new_id
    ask (fetch_binds request_id)
    info ← o.once_info request_id
    modify
        (with_world (λ w. record w { aliases_holder = set_aliases info.aliases w.aliases_holder }))
    pure info.binds

  -- Under the id that the alias is held for; an alias that is not held is only logged.
  unfoldable pub send_to : Option Text → Text → Bytes → Run (Sockets (Worker R)) (Unit {0})
  unfolding post_message new_id
  send_to none connector_id msg = pure tt
  send_to (some id) connector_id msg = do
    request_id ← new_id
    ask (wrtc_send id connector_id msg request_id)
    o.once_sent request_id

  unfoldable pub handle_external_send : Text → Text → Bytes → Run (Sockets (Worker R)) (Unit {0})
  unfolding send_to
  handle_external_send alias connector_id msg = do
    id ← gets (λ s. get alias s.world.aliases_holder)
    send_to id connector_id msg

  unfoldable pub recv_from : Option Text → Text → Run (Sockets (Worker R)) Bytes
  unfolding post_message
  recv_from none connector_id = throw alias_does_not_exist
  recv_from (some id) connector_id = do ask (wrtc_recv id connector_id); o.once_message id

  unfoldable pub handle_external_recv : Text → Text → Run (Sockets (Worker R)) Bytes
  unfolding recv_from
  handle_external_recv alias connector_id = do
    id ← gets (λ s. get alias s.world.aliases_holder)
    recv_from id connector_id

  unfoldable pub handle_external_bind : Text → Run (Sockets (Worker R)) (Unit {0})
  handle_external_bind alias = o.client_bind alias

  unfoldable pub handle_external_accept : Text → Run (Sockets (Worker R)) Text
  handle_external_accept alias = o.client_accept alias

  unfoldable pub handle_external_connect : Text → Run (Sockets (Worker R)) (Option Text)
  handle_external_connect alias = o.client_connect alias

  unfoldable pub handle_external_close : Text → Run (Sockets (Worker R)) (Unit {0})
  handle_external_close alias = o.client_shutdown alias

  -- The callbacks, as they are given to `new Sockets`.
  abbrev pub externals : Externals (Worker R)
  externals = record {
    external_bind = handle_external_bind;
    external_accept = handle_external_accept;
    external_connect = handle_external_connect;
    external_send = handle_external_send;
    external_recv = handle_external_recv;
    external_close = handle_external_close;
    external_socket = handle_external_socket;
    update_binds = update_binds;
    notify_bind_set = notify_bind_set;
    client_id = λ w. o.client_id w.rest;
    encode = o.encode;
  }
