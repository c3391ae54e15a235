-- ===== src/Transport/Pairing.antt =====
-- Channels and their queues: queueAndEmitMessage looks for the channel before it takes the queue.
use unisockets.Prelude.{
  ◌≡◌, refl, ◌∙◌, true, Bool-cases, Option-cases, inl, inr, List, [], ◌∷◌, ◌++◌, Text, text_key,
  arith,
}
use unisockets.Map.{Map, get, get_or, set}
use unisockets.Map.Laws.{is_some}
use unisockets.Signaling.Errors.{Result, ok, err}
use unisockets.Transport.{
  Peer, Transporter, Channel, Bytes, lookup, enter, data_channel_configuration, handle_candidate,
  add_candidate, queue_candidate, retry_candidate, retry_all, add_queued_candidates, answer_set,
  handle_answer, shutdown, queue_message, push_message, receive_queued, receive_emitted, shifted,
}
use unisockets.Transport.Nested.{lookup-enter, lookup-delete}

module _ (peer : Peer) where
  -- Where there is a channel there is a queue.
  pub record IsPaired (t : Transporter peer) : Type 0 where
    pub queue :
        (r l : Text)
        → is_some (lookup r l t.channels) ≡ true
        → is_some (lookup r l t.queued_messages) ≡ true

  -- The channels and the queues are as they were.
  abbrev Same : Transporter peer → Transporter peer → Type 0
  Same t t' = (t'.channels ≡ t.channels) × (t'.queued_messages ≡ t.queued_messages)

  Same-IsPaired : (t t' : Transporter peer) → Same t t' → IsPaired t → IsPaired t'
  Same-IsPaired t t' (c, q) h = record { queue = λ r l. rw (c, q) (h.queue r l) }

  configuration-IsPaired :
      (r l : Text) (channel : Channel) (t : Transporter peer)
      → IsPaired t
      → IsPaired (data_channel_configuration peer r l channel t)
  unfolding data_channel_configuration
  configuration-IsPaired r l channel t h = record {
    queue = λ r' l'. ground (
      arith,
      lookup-enter r l r' l' channel t.channels,
      lookup-enter r l r' l' (get_or [] (lookup r l t.queued_messages)) t.queued_messages,
      h.queue r' l',
    );
  }

  entered-IsPaired :
      (r l : Text) (q : List Bytes) (t : Transporter peer)
      → IsPaired t
      → IsPaired (record t { queued_messages = enter r l q t.queued_messages })
  entered-IsPaired r l q t h = record {
    queue = λ r' l'. ground (arith, lookup-enter r l r' l' q t.queued_messages, h.queue r' l');
  }

  shutdown-IsPaired :
      (id : Text) (t : Transporter peer) → IsPaired t → IsPaired (shutdown peer id t)
  unfolding shutdown
  shutdown-IsPaired id t h = record {
    queue = λ r l. ground (
      arith,
      lookup-delete id r l t.channels,
      lookup-delete id r l t.queued_messages,
      h.queue r l,
    );
  }

  queue_message-IsPaired :
      (r l : Text) (m : Bytes) (t : Transporter peer)
      → IsPaired t
      → IsPaired (queue_message peer r l m t).1
  unfolding queue_message push_message
  queue_message-IsPaired r l m t h = elim (Option-cases (lookup r l t.channels)) [
    | inl e ↦ rw (e, queue_message) h
    | inr (c, e) ↦ elim (Option-cases (lookup r l t.queued_messages)) [
      | inl f ↦ rw (e, f, queue_message, push_message) h
      | inr (q, f) ↦ rw (e, f, queue_message, push_message) (entered-IsPaired r l (q ++ m ∷ []) t h)
    ]
  ]

  handle_candidate-Same :
      (id candidate : Text) (t : Transporter peer) → Same t (handle_candidate peer id candidate t).1
  unfolding handle_candidate add_candidate queue_candidate
  handle_candidate-Same id candidate t = elim (Option-cases (get id t.connections)) [
    | inl e ↦ rw (e, handle_candidate) (refl, refl)
    | inr (c, e) ↦ elim (Bool-cases (peer.described c)) [
      | inl f ↦ rw (e, f, handle_candidate) (refl, refl)
      | inr f ↦ rw (e, f, handle_candidate) (refl, refl)
    ]
  ]

  retry_all-Same :
      (id : Text) (q : List Text) (t : Transporter peer) → Same t (retry_all peer id q t)
  unfolding retry_all retry_candidate
  retry_all-Same id [] t = (refl, refl)
  retry_all-Same id (candidate ∷ q) t =
      let (c, m) = retry_all-Same id q (retry_candidate peer id candidate t) in
      let (c', m') = handle_candidate-Same id candidate _ in (c ∙ c', m ∙ m')

  answer_set-Same :
      (id : Text) (r : Result (Unit {0})) (t : Transporter peer) → Same t (answer_set peer id r t).1
  unfolding answer_set add_queued_candidates
  answer_set-Same id (err e) t = (refl, refl)
  answer_set-Same id (ok _) t = retry_all-Same id (get_or [] (get id t.queued_candidates)) t

  handle_answer-Same :
      (id answer : Text) (t : Transporter peer) → Same t (handle_answer peer id answer t).1
  unfolding handle_answer
  handle_answer-Same id answer t = elim (Option-cases (get id t.connections)) [
    | inl e ↦ rw (e, handle_answer) (refl, refl)
    | inr (c, e) ↦
        let (r, c') = peer.set_remote_description answer c in
        rw (e, handle_answer)
          (answer_set-Same id r (record t { connections = set id c' t.connections }))
  ]

  receive_queued-IsPaired :
      (r l : Text) (t : Transporter peer) → IsPaired t → IsPaired (receive_queued peer r l t).1
  unfolding receive_queued
  receive_queued-IsPaired r l t h = elim (Option-cases (lookup r l t.queued_messages)) [
    | inl e ↦ rw (e, receive_queued) h
    | inr ([], e) ↦ rw (e, receive_queued) h
    | inr (m ∷ q, e) ↦ rw (e, receive_queued) (entered-IsPaired r l q t h)
  ]

  receive_emitted-IsPaired :
      (r l : Text) (m : Bytes) (t : Transporter peer)
      → IsPaired t
      → IsPaired (receive_emitted peer r l m t).1
  unfolding receive_emitted
  receive_emitted-IsPaired r l m t h = elim (Option-cases (lookup r l t.queued_messages)) [
    | inl e ↦ rw (e, receive_emitted) h
    | inr (q, e) ↦ rw (e, receive_emitted) (entered-IsPaired r l (shifted peer q) t h)
  ]

  pub empty : Transporter peer
  empty = record {
    connections = [];
    channels = [];
    queued_messages = [];
    queued_candidates = [];
    closed_connections = [];
    closed_channels = [];
  }

  pub data Step : Transporter peer → Transporter peer → Type 0 where
    configures :
        (r l : Text) (channel : Channel) (t : Transporter peer)
        → Step t (data_channel_configuration peer r l channel t)
    candidate : (id c : Text) (t : Transporter peer) → Step t (handle_candidate peer id c t).1
    answers : (id answer : Text) (t : Transporter peer) → Step t (handle_answer peer id answer t).1
    shuts : (id : Text) (t : Transporter peer) → Step t (shutdown peer id t)
    arrives :
        (r l : Text) (m : Bytes) (t : Transporter peer) → Step t (queue_message peer r l m t).1
    receives : (r l : Text) (t : Transporter peer) → Step t (receive_queued peer r l t).1
    wakes :
        (r l : Text) (m : Bytes) (t : Transporter peer) → Step t (receive_emitted peer r l m t).1
    -- A new connection, for an offer that is made or answered.
    connects :
        (t : Transporter peer) (m : Map Text peer.Connection)
        → Step t (record t { connections = m })

  pub data Reach : Transporter peer → Type 0 where
    init : Reach empty
    next : {t t' : Transporter peer} → Reach t → Step t t' → Reach t'

  Step-IsPaired : {t t' : Transporter peer} → Step t t' → IsPaired t → IsPaired t'
  Step-IsPaired (configures r l channel t) h = configuration-IsPaired r l channel t h
  Step-IsPaired (candidate id c t) h = Same-IsPaired t _ (handle_candidate-Same id c t) h
  Step-IsPaired (answers id answer t) h = Same-IsPaired t _ (handle_answer-Same id answer t) h
  Step-IsPaired (shuts id t) h = shutdown-IsPaired id t h
  Step-IsPaired (arrives r l m t) h = queue_message-IsPaired r l m t h
  Step-IsPaired (receives r l t) h = receive_queued-IsPaired r l t h
  Step-IsPaired (wakes r l m t) h = receive_emitted-IsPaired r l m t h
  Step-IsPaired (connects t m) h = Same-IsPaired t _ (refl, refl) h

  -- In every state that the transporter reaches, a data channel that is entered has a queue.
  pub Reach-IsPaired : {t : Transporter peer} → Reach t → IsPaired t
  unfolding empty lookup get
  Reach-IsPaired init = record { queue = λ r l e. cc }
  Reach-IsPaired (next r st) = Step-IsPaired st (Reach-IsPaired r)
