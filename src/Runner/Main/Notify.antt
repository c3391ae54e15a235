-- ===== src/Runner/Main/Notify.antt =====
-- Which threads the page's thread notifies and which it answers.
use unisockets.Prelude.{
  ℕ, ◌≡◌, refl, sym, ap, ◌∙◌, false, List, [], ◌∷◌, ◌++◌, map, append-nil, append_assoc, none, some,
  text_key, nat_key, ◌==◌, arith, ◌⊎◌, inl, inr,
}
use unisockets.Map.{Map, get, contains}
use unisockets.Map.Laws.{==_refl}
use unisockets.Signaling.Errors.{ok, err}
use unisockets.Sockets.Calls.{type_error}
use unisockets.Runner.Main.{
  Port, Thread, holder, itself, worker_of, Message, Main, post, notify_from, notify_all_threads,
  custom_port, port_or, get_thread, post_to, reply, gets, ◌>>=◌,
}

-- Threads that have a worker each.
abbrev pub working : List (ℕ × Port) → Map ℕ Thread
working l = map (λ e. (e.0, holder (some e.1))) l

abbrev pub to_each : Message → List (ℕ × Port) → List (Port × Message)
to_each msg l = map (λ e. (e.1, msg)) l

module _ {T : Type 0} (id : ℕ) (msg : Message) where
  notify_from-working :
      (l : List (ℕ × Port)) (m : Map ℕ Thread) (s : Main T)
      → contains id (map (λ e. e.0) l) ≡ false
      → ((t : Main T) → notify_from m id msg t ≡ t)
      → notify_from (working l ++ m) id msg s ≡ record s { posted = s.posted ++ to_each msg l }
  unfolding notify_from contains worker_of post
  notify_from-working [] m s apart stop =
      stop s ∙ ap (λ p. record s { posted = p }) (sym (append-nil s.posted))
  notify_from-working ((key, w) ∷ l) m s apart stop =
      let head : (key == id) ≡ false = ground (arith, apart) in
      let tail : contains id (map (λ e. e.0) l) ≡ false = ground (arith, apart) in
      rw head (
        notify_from-working l m (post w msg s) tail stop
        ∙ ap (λ p. record s { posted = p }) (append_assoc s.posted ((w, msg) ∷ []) (to_each msg l)))

sender_stops :
    {T : Type 0} (id : ℕ) (msg : Message) (own : Thread) (behind : Map ℕ Thread) (t : Main T)
    → notify_from ((id, own) ∷ behind) id msg t ≡ t
unfolding notify_from worker_of
sender_stops id msg (holder none) behind t = refl
sender_stops id msg (holder (some w)) behind t = rw (==_refl id) refl
sender_stops id msg (itself p) behind t = refl

-- Exactly the threads that were entered before the sending thread are notified, each once and in
-- their order: none behind it is, since the loop returns at the sender's own entry. When the sender
-- is not in the table, all are. Condition: the threads before it have workers.
pub notify_all_threads-before :
    {T : Type 0} (id : ℕ) (msg : Message) (l : List (ℕ × Port)) (own : Thread)
    (behind : Map ℕ Thread) (s : Main T)
    → contains id (map (λ e. e.0) l) ≡ false
    → (s.custom_threads ≡ working l ++ (id, own) ∷ behind) ⊎ (s.custom_threads ≡ working l)
    → notify_all_threads id msg s ≡ record s { posted = s.posted ++ to_each msg l }
unfolding notify_all_threads notify_from
notify_all_threads-before id msg l own behind s apart (inl there) =
    ap (λ m. notify_from m id msg s) there
    ∙ notify_from-working id msg l ((id, own) ∷ behind) s apart
        (λ t. sender_stops id msg own behind t)
notify_all_threads-before id msg l own behind s apart (inr away) =
    ap (λ m. notify_from m id msg s) (away ∙ sym (append-nil (working l)))
    ∙ notify_from-working id msg l [] s apart (λ t. refl)

-- A thread that Emscripten does not know and that the page's own table holds alone: as an object
-- with a worker it is notified of what another thread does and not answered, since an answer throws;
-- as a worker itself it is answered and not notified.
pub custom_threads-one_way :
    {T : Type 0} (id other : ℕ) (p : Port) (msg : Message) (s : Main T)
    → get id s.pthreads ≡ none
    → (id == other) ≡ false
    → let object : Main T = record s { custom_threads = (id, holder (some p)) ∷ [] } in
      let worker : Main T = record s { custom_threads = (id, itself p) ∷ [] } in
      (notify_all_threads other msg object ≡ post p msg object)
      × (reply id msg object ≡ (err type_error, object))
      × (notify_all_threads other msg worker ≡ worker)
      × (reply id msg worker ≡ (ok tt, post p msg worker))
unfolding notify_all_threads notify_from worker_of reply get_thread post_to custom_port port_or get
    gets ◌>>=◌
custom_threads-one_way id other p msg s unknown apart =
    (rw apart refl, rw (unknown, ==_refl id) refl, refl, rw (unknown, ==_refl id) refl)
