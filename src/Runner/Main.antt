-- ===== src/Runner/Main.antt =====
-- The page's thread (cmd/unisockets_runner_web/main.ts): it holds the bindings and the aliases that
-- the threads of a program share, gives out descriptors and owns the transporter.
pub mod Notify
pub mod Descriptors
use unisockets.Prelude.{
  ℕ, zero, suc, ◌≡◌, ◌||◌, Bool, true, false, List, [], ◌∷◌, ◌++◌, Option, none, some, Text, codes,
  text_key, nat_key, ◌==◌, if◌then◌else◌,
}
use unisockets.Map.{Map, get, set, delete}
use unisockets.Signaling.Errors.{Result, ok, err}
use unisockets.Signaling.Operation.{Operation}
unfoldable pub use unisockets.Run.{continue, pure, throw, gets, modify, zoom, ◌>>=◌, ◌>>◌}
use unisockets.Run.{Run}
use unisockets.Sockets.Memory.{Bytes}
use unisockets.Sockets.Calls.{Bind, type_error}

-- A worker, by its identity.
abbrev pub Port : Type 0
Port = ℕ

-- What stands for a thread in a map: an object with a property `worker`, which may be undefined, or
-- a worker itself, which has no such property.
pub data Thread : Type 0 where
  holder : Option Port → Thread
  itself : Port → Thread

unfoldable pub worker_of : Thread → Option Port
worker_of (holder w) = w
worker_of (itself p) = none

-- The messages that are posted to a worker, by their `cmd`. A map is copied when it is posted.
pub data Message : Type 0 where
  notify_bind_add : ℕ → Text → Text → Message
  notify_alias_add : Text → Text → Bool → Message
  on_fetch_binds : Text → Map ℕ Bind → Map Text Text → Message
  on_socket_descriptor : ℕ → Text → Message
  on_wrtc_send_callback : Text → Message
  on_wrtc_recv : Bytes → Text → Message
  send_wrtc_config : Operation → Message

-- `pthreads` is Emscripten's table of threads, each with its worker if it has one.
pub record Main (T : Type 0) : Type 0 where
  pub pthreads : Map ℕ (Option Port)
  pub custom_threads : Map ℕ Thread
  pub socket_binds : Map ℕ Bind
  pub socket_aliases : Map Text Text
  pub socket_descriptors : ℕ
  pub transporter : T
  pub posted : List (Port × Message)

-- The methods of Transporter that are called here and awaited.
pub record Transporting (T : Type 0) : Type 0 where
  pub send : Text → Text → Bytes → Run T (Unit {0})
  pub recv : Text → Text → Run T Bytes
  pub handle_answer : Text → Text → Run T (Unit {0})
  pub handle_candidate : Text → Text → Run T (Unit {0})

-- A thread of Emscripten's that has a worker; else an object whose worker is what the page holds.
unfoldable pub custom_port : Option Thread → Option Port
custom_port none = none
custom_port (some (holder w)) = none
custom_port (some (itself p)) = some p

unfoldable pub port_or : Option (Option Port) → Option Port → Option Port
port_or (some (some p)) q = some p
port_or (some none) q = q
port_or none q = q

module _ {T : Type 0} where
  unfoldable pub post : Port → Message → Main T → Main T
  post p msg s = record s { posted = s.posted ++ (p, msg) ∷ [] }

  unfoldable pub safe_to_custom_thread_holder : ℕ → Option Thread → Main T → Main T
  safe_to_custom_thread_holder id none s = s
  safe_to_custom_thread_holder id (some worker) s = record s {
    custom_threads = set id worker s.custom_threads;
  }

  -- `if (...) return` leaves the whole function.
  unfoldable pub notify_from : Map ℕ Thread → ℕ → Message → Main T → Main T
  unfolding worker_of post
  notify_from [] id msg s = s
  notify_from ((key, value) ∷ rest) id msg s = elim (worker_of value) [
    | none ↦ s
    | some w ↦ if key == id then s else notify_from rest id msg (post w msg s)
  ]

  unfoldable pub notify_all_threads : ℕ → Message → Main T → Main T
  unfolding notify_from
  notify_all_threads id msg s = notify_from s.custom_threads id msg s

  unfoldable pub handle_bind_update : ℕ → Text → ℕ → Text → Main T → Main T
  unfolding notify_all_threads
  handle_bind_update fd alias id connector_id s =
      let b : Bind = record { alias = alias; connector_id = connector_id } in
      notify_all_threads id (notify_bind_add fd alias connector_id)
        (record s { socket_binds = set fd b s.socket_binds })

  unfoldable pub handle_alias_update : Text → Text → Bool → ℕ → Main T → Main T
  unfolding notify_all_threads
  handle_alias_update id alias is_delete id_p s =
      let aliases =
        if is_delete then delete alias s.socket_aliases else set alias id s.socket_aliases in
      notify_all_threads id_p (notify_alias_add alias id is_delete)
        (record s { socket_aliases = aliases })

  -- What can take a message of `getThread(id).worker`: only a worker has `postMessage`.
  unfoldable pub get_thread : ℕ → Main T → Option Port
  unfolding custom_port port_or
  get_thread id s = port_or (get id s.pthreads) (custom_port (get id s.custom_threads))

  unfoldable pub post_to : Option Port → Message → Run (Main T) (Unit {0})
  unfolding post
  post_to none msg = throw type_error
  post_to (some p) msg = modify (post p msg)

  unfoldable pub reply : ℕ → Message → Run (Main T) (Unit {0})
  unfolding get_thread post_to
  reply id msg = do p ← gets (get_thread id); post_to p msg

  unfoldable pub handle_fetch_binds : ℕ → Text → Run (Main T) (Unit {0})
  unfolding reply
  handle_fetch_binds id request_id s =
      reply id (on_fetch_binds request_id s.socket_binds s.socket_aliases) s

  unfoldable pub handle_socket_descriptor : ℕ → Text → Run (Main T) (Unit {0})
  unfolding reply
  handle_socket_descriptor id request_id = do
    modify (λ s. record s { socket_descriptors = suc s.socket_descriptors })
    fd ← gets (λ s. s.socket_descriptors)
    reply id (on_socket_descriptor fd request_id)

  abbrev pub on_transporter : {A : Type 0} → Run T A → Run (Main T) A
  on_transporter m = zoom (λ s. s.transporter) (λ t s. record s { transporter = t }) m

  -- The two callbacks of `handleOffer`: for each candidate, and for the offer when it is made.
  unfoldable pub on_offer_candidate : ℕ → Text → Text → Text → Run (Main T) (Unit {0})
  unfolding reply
  on_offer_candidate id answerer_id offerer_id candidate = reply id (
      send_wrtc_config (
        Operation.candidate
          (record { offerer_id = offerer_id; answerer_id = answerer_id; candidate = candidate })))

  unfoldable pub on_offer : ℕ → Text → Text → Text → Run (Main T) (Unit {0})
  unfolding reply
  on_offer id answerer_id my_id offer = reply id (
      send_wrtc_config
        (Operation.offer (record { offerer_id = my_id; answerer_id = answerer_id; offer = offer })))

  -- The callback of `getAnswer` for the answer; its candidates go out as those of an offer.
  unfoldable pub on_answer : ℕ → Text → Text → Text → Run (Main T) (Unit {0})
  unfolding reply
  on_answer id offerer_id my_id answer = reply id (
      send_wrtc_config (
        Operation.answer
          (record { offerer_id = offerer_id; answerer_id = my_id; answer = answer })))

-- What reaches the page's thread: the messages of the threads by their `cmd`, the callbacks of the
-- transporter, and a thread that is entered.
pub data Event : Type 0 where
  thread_entered : ℕ → Option Thread → Event
  bind_update : ℕ → Text → ℕ → Text → Event
  alias_update : Text → Text → Bool → ℕ → Event
  fetch_binds : ℕ → Text → Event
  socket_descriptor : ℕ → Text → Event
  wrtc_send : ℕ → Text → Text → Bytes → Text → Event
  wrtc_recv : ℕ → Text → Text → Event
  candidate_found : ℕ → Text → Text → Text → Event
  offer_made : ℕ → Text → Text → Text → Event
  answer_made : ℕ → Text → Text → Text → Event
  answer_arrived : Text → Text → Event
  candidate_arrived : Text → Text → Event

module _ {T : Type 0} (e : Transporting T) where
  unfoldable pub handle_wrtc_send : ℕ → Text → Text → Bytes → Text → Run (Main T) (Unit {0})
  unfolding reply
  handle_wrtc_send id remote_id local_id msg request_id = do
    on_transporter (e.send remote_id local_id msg)
    reply id (on_wrtc_send_callback request_id)

  unfoldable pub handle_wrtc_recv : ℕ → Text → Text → Run (Main T) (Unit {0})
  unfolding reply
  handle_wrtc_recv id remote_id local_id = do
    msg ← on_transporter (e.recv remote_id local_id)
    reply id (on_wrtc_recv msg remote_id)

  unfoldable pub handle_answer : Text → Text → Run (Main T) (Unit {0})
  handle_answer answerer_id answer = on_transporter (e.handle_answer answerer_id answer)

  unfoldable pub handle_candidate : Text → Text → Run (Main T) (Unit {0})
  handle_candidate offerer_id candidate = on_transporter (e.handle_candidate offerer_id candidate)

  -- An error of a handler is a rejection that nothing awaits.
  unfoldable pub step : Event → Main T → Main T
  step (thread_entered id worker) s = safe_to_custom_thread_holder id worker s
  step (bind_update fd alias id connector_id) s = handle_bind_update fd alias id connector_id s
  step (alias_update id alias is_delete id_p) s = handle_alias_update id alias is_delete id_p s
  step (fetch_binds id request_id) s = (handle_fetch_binds id request_id s).1
  step (socket_descriptor id request_id) s = (handle_socket_descriptor id request_id s).1
  step (wrtc_send id remote_id local_id msg request_id) s =
      (handle_wrtc_send id remote_id local_id msg request_id s).1
  step (wrtc_recv id remote_id local_id) s = (handle_wrtc_recv id remote_id local_id s).1
  step (candidate_found id answerer_id offerer_id candidate) s =
      (on_offer_candidate id answerer_id offerer_id candidate s).1
  step (offer_made id answerer_id my_id offer) s = (on_offer id answerer_id my_id offer s).1
  step (answer_made id offerer_id my_id answer) s = (on_answer id offerer_id my_id answer s).1
  step (answer_arrived answerer_id answer) s = (handle_answer answerer_id answer s).1
  step (candidate_arrived offerer_id candidate) s = (handle_candidate offerer_id candidate s).1

  unfoldable pub steps : List Event → Main T → Main T
  unfolding step
  steps [] s = s
  steps (x ∷ l) s = steps l (step x s)
