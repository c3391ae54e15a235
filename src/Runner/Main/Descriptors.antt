-- ===== src/Runner/Main/Descriptors.antt =====
-- The descriptors that the page's thread gives out.
use unisockets.Prelude.{
  ℕ, suc, ◌≤◌, ◌≡◌, refl, sym, ap, ◌∙◌, subst, append-nil, Bool, true, false, List, [], ◌∷◌, ◌++◌,
  All, Option, none, some, Text, text_key, nat_key, ◌==◌, arith, if◌then◌else◌,
}
use unisockets.Map.{Map, contains, Distinct}
use unisockets.Run.{Run}
use unisockets.Run.Keeps.{Keeps, Keeps-throw, Keeps-modify, Keeps-gets, Keeps-bind, Keeps-zoom}
use unisockets.Runner.Main.{
  Port, Thread, holder, itself, worker_of, Message, notify_bind_add, notify_alias_add,
  on_fetch_binds, on_socket_descriptor, on_wrtc_send_callback, on_wrtc_recv, send_wrtc_config, Main,
  Transporting, post, safe_to_custom_thread_holder, notify_from, notify_all_threads,
  handle_bind_update, handle_alias_update, get_thread, post_to, reply, handle_fetch_binds,
  handle_socket_descriptor, on_offer_candidate, on_offer, on_answer, handle_wrtc_send,
  handle_wrtc_recv, handle_answer, handle_candidate, gets, modify, throw, on_transporter, ◌>>=◌,
  Event, thread_entered, bind_update, alias_update, fetch_binds, socket_descriptor, wrtc_send,
  wrtc_recv, candidate_found, offer_made, answer_made, answer_arrived, candidate_arrived, step,
  steps,
}

-- The descriptors among the messages.
unfoldable pub descriptors : List (Port × Message) → List ℕ
descriptors [] = []
descriptors ((p, on_socket_descriptor fd request_id) ∷ l) = fd ∷ descriptors l
descriptors ((p, notify_bind_add fd alias id) ∷ l) = descriptors l
descriptors ((p, notify_alias_add alias id gone) ∷ l) = descriptors l
descriptors ((p, on_fetch_binds request_id b a) ∷ l) = descriptors l
descriptors ((p, on_wrtc_send_callback request_id) ∷ l) = descriptors l
descriptors ((p, on_wrtc_recv msg alias) ∷ l) = descriptors l
descriptors ((p, send_wrtc_config op) ∷ l) = descriptors l

-- The descriptors are below the counter or equal to it, and none was given out twice.
pub record IsIssued (l : List ℕ) (n : ℕ) : Type 0 where
  pub below : All (λ fd. fd ≤ n) l
  pub distinct : Distinct l

descriptors-append :
    (l m : List (Port × Message)) → descriptors (l ++ m) ≡ descriptors l ++ descriptors m
unfolding descriptors
descriptors-append [] m = refl
descriptors-append ((p, on_socket_descriptor fd request_id) ∷ l) m =
    ap (λ k. fd ∷ k) (descriptors-append l m)
descriptors-append ((p, notify_bind_add fd alias id) ∷ l) m = descriptors-append l m
descriptors-append ((p, notify_alias_add alias id gone) ∷ l) m = descriptors-append l m
descriptors-append ((p, on_fetch_binds request_id b a) ∷ l) m = descriptors-append l m
descriptors-append ((p, on_wrtc_send_callback request_id) ∷ l) m = descriptors-append l m
descriptors-append ((p, on_wrtc_recv msg alias) ∷ l) m = descriptors-append l m
descriptors-append ((p, send_wrtc_config op) ∷ l) m = descriptors-append l m

contains-add :
    (l : List ℕ) (k n : ℕ) → contains k l ≡ false → k ≤ n → contains k (l ++ suc n ∷ []) ≡ false
unfolding contains
contains-add [] k n out h = ground arith
contains-add (fd ∷ l) k n out h =
    let tail : contains k l ≡ false = ground (arith, out) in
    ground (arith, out, contains-add l k n tail h)

-- The next number is a new one.
IsIssued-next : (l : List ℕ) (n : ℕ) → IsIssued l n → IsIssued (l ++ suc n ∷ []) (suc n)
unfolding contains
IsIssued-next [] n h = record { below = (omega arith, tt); distinct = (refl, tt) }
IsIssued-next (fd ∷ l) n h =
    let rest = IsIssued-next l n (record { below = h.below.1; distinct = h.distinct.1 }) in
    record {
      below = (omega (arith, h.below.0), rest.below);
      distinct = (contains-add l fd n h.distinct.0 h.below.0, rest.distinct);
    }

IsIssued-skip : (l : List ℕ) (n : ℕ) → IsIssued l n → IsIssued l (suc n)
IsIssued-skip [] n h = record { below = tt; distinct = tt }
IsIssued-skip (fd ∷ l) n h =
    let rest = IsIssued-skip l n (record { below = h.below.1; distinct = h.distinct.1 }) in
    record { below = (omega (arith, h.below.0), rest.below); distinct = h.distinct }

-- The message gives out no descriptor.
abbrev IsPlain : Message → Type 0
IsPlain msg = (p : Port) → descriptors ((p, msg) ∷ []) ≡ []

module _ {T : Type 0} where
  -- The descriptors posted so far.
  pub record IsFresh (s : Main T) : Type 0 where
    pub issued : IsIssued (descriptors s.posted) s.socket_descriptors

  if-IsFresh : (b : Bool) (s t : Main T) → IsFresh s → IsFresh t → IsFresh (if b then s else t)
  if-IsFresh true s t h k = h
  if-IsFresh false s t h k = k

  post-IsFresh :
      (p : Port) (msg : Message) (s : Main T) → IsPlain msg → IsFresh s → IsFresh (post p msg s)
  unfolding post
  post-IsFresh p msg s plain h = record {
    issued =
        subst (λ l. IsIssued l s.socket_descriptors)
          (sym (
            descriptors-append s.posted ((p, msg) ∷ [])
            ∙ ap (λ l. descriptors s.posted ++ l) (plain p)
            ∙ append-nil (descriptors s.posted)))
          h.issued;
  }

  notify_from-IsFresh :
      (m : Map ℕ Thread) (id : ℕ) (msg : Message) (s : Main T)
      → IsPlain msg
      → IsFresh s
      → IsFresh (notify_from m id msg s)
  unfolding notify_from worker_of
  notify_from-IsFresh [] id msg s plain h = h
  notify_from-IsFresh ((key, holder none) ∷ rest) id msg s plain h = h
  notify_from-IsFresh ((key, itself p) ∷ rest) id msg s plain h = h
  notify_from-IsFresh ((key, holder (some w)) ∷ rest) id msg s plain h =
      if-IsFresh (key == id) s _ h
        (notify_from-IsFresh rest id msg (post w msg s) plain (post-IsFresh w msg s plain h))

  Keeps-post_to : (o : Option Port) (msg : Message) → IsPlain msg → Keeps IsFresh (post_to o msg)
  unfolding post_to
  Keeps-post_to none msg plain = Keeps-throw _
  Keeps-post_to (some p) msg plain = Keeps-modify _ (λ s h. post-IsFresh p msg s plain h)

  Keeps-reply : (id : ℕ) (msg : Message) → IsPlain msg → Keeps IsFresh (reply id msg)
  unfolding reply
  Keeps-reply id msg plain = Keeps-bind _ _ (Keeps-gets _) (λ o. Keeps-post_to o msg plain)

  Keeps-on_transporter : {A : Type 0} (m : Run T A) → Keeps IsFresh (on_transporter m)
  Keeps-on_transporter m = Keeps-zoom _ _ m (λ s h. record { issued = h.issued })

  given-IsFresh :
      (o : Option Port) (request_id : Text) (s : Main T)
      → IsFresh s
      → let n = suc s.socket_descriptors in
        IsFresh
          (post_to o (on_socket_descriptor n request_id) (record s { socket_descriptors = n })).1
  unfolding post_to throw modify post descriptors
  given-IsFresh none request_id s h = record {
    issued = IsIssued-skip (descriptors s.posted) s.socket_descriptors h.issued;
  }
  given-IsFresh (some p) request_id s h = record {
    issued =
        subst (λ l. IsIssued l (suc s.socket_descriptors))
          (sym (
            descriptors-append s.posted
              ((p, on_socket_descriptor (suc s.socket_descriptors) request_id) ∷ [])))
          (IsIssued-next (descriptors s.posted) s.socket_descriptors h.issued);
  }

  socket_descriptor-IsFresh :
      (id : ℕ) (request_id : Text) (s : Main T)
      → IsFresh s
      → IsFresh (handle_socket_descriptor id request_id s).1
  unfolding handle_socket_descriptor reply gets modify ◌>>=◌
  socket_descriptor-IsFresh id request_id s h =
      given-IsFresh (get_thread id (record s { socket_descriptors = suc s.socket_descriptors }))
        request_id s h

module _ {T : Type 0} (e : Transporting T) where
  step-IsFresh : (x : Event) (s : Main T) → IsFresh s → IsFresh (step e x s)
  unfolding step safe_to_custom_thread_holder handle_bind_update handle_alias_update
      notify_all_threads handle_fetch_binds handle_wrtc_send handle_wrtc_recv on_offer_candidate
      on_offer on_answer handle_answer handle_candidate descriptors
  step-IsFresh (thread_entered id none) s h = h
  step-IsFresh (thread_entered id (some worker)) s h = record { issued = h.issued }
  step-IsFresh (bind_update fd alias id connector_id) s h =
      notify_from-IsFresh s.custom_threads id (notify_bind_add fd alias connector_id) _ (λ p. refl)
        (record { issued = h.issued })
  step-IsFresh (alias_update id alias is_delete id_p) s h =
      notify_from-IsFresh s.custom_threads id_p (notify_alias_add alias id is_delete) _ (λ p. refl)
        (record { issued = h.issued })
  step-IsFresh (fetch_binds id request_id) s h =
      (Keeps-reply id (on_fetch_binds request_id s.socket_binds s.socket_aliases) (λ p. refl)).stays
        s h
  step-IsFresh (socket_descriptor id request_id) s h = socket_descriptor-IsFresh id request_id s h
  step-IsFresh (wrtc_send id remote_id local_id msg request_id) s h =
      (Keeps-bind _ _ (Keeps-on_transporter (e.send remote_id local_id msg))
          (λ _. Keeps-reply id (on_wrtc_send_callback request_id) (λ p. refl))).stays
        s h
  step-IsFresh (wrtc_recv id remote_id local_id) s h =
      (Keeps-bind _ _ (Keeps-on_transporter (e.recv remote_id local_id))
          (λ msg. Keeps-reply id (on_wrtc_recv msg remote_id) (λ p. refl))).stays
        s h
  step-IsFresh (candidate_found id answerer_id offerer_id candidate) s h =
      (Keeps-reply id _ (λ p. refl)).stays s h
  step-IsFresh (offer_made id answerer_id my_id offer) s h =
      (Keeps-reply id _ (λ p. refl)).stays s h
  step-IsFresh (answer_made id offerer_id my_id answer) s h =
      (Keeps-reply id _ (λ p. refl)).stays s h
  step-IsFresh (answer_arrived answerer_id answer) s h =
      (Keeps-on_transporter (e.handle_answer answerer_id answer)).stays s h
  step-IsFresh (candidate_arrived offerer_id candidate) s h =
      (Keeps-on_transporter (e.handle_candidate offerer_id candidate)).stays s h

  steps-IsFresh : (l : List Event) (s : Main T) → IsFresh s → IsFresh (steps e l s)
  unfolding steps
  steps-IsFresh [] s h = h
  steps-IsFresh (x ∷ l) s h = steps-IsFresh l (step e x s) (step-IsFresh x s h)

-- Whatever messages of the threads and callbacks of the transporter reach the page's thread, in any
-- order, it gives out no descriptor twice and none above its counter.
pub steps-Distinct :
    {T : Type 0} (e : Transporting T) (l : List Event) (s : Main T)
    → s.posted ≡ []
    → let t = steps e l s in
      Distinct (descriptors t.posted) × All (λ fd. fd ≤ t.socket_descriptors) (descriptors t.posted)
unfolding descriptors
steps-Distinct e l s none_yet =
    let start : IsFresh s = record {
      issued =
          subst (λ k. IsIssued (descriptors k) s.socket_descriptors) (sym none_yet)
            (record { below = tt; distinct = tt });
    } in
    let done = steps-IsFresh e l s start in (done.issued.distinct, done.issued.below)
