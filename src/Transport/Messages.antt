-- ===== src/Transport/Messages.antt =====
-- The queue of a data channel: queueAndEmitMessage and recv.
use unisockets.Prelude.{
  subst, ℕ, zero, suc, ◌≡◌, refl, sym, ap, ◌∙◌, List, [], ◌∷◌, ◌++◌, append-nil, append_assoc,
  Option, some, Text, text_key, arith, length,
}
use unisockets.Map.Laws.{==_refl}
use unisockets.Signaling.Errors.{ok}
use unisockets.Transport.{
  Peer, Transporter, Channel, Bytes, lookup, enter, queue_message, push_message, receive_queued,
}
use unisockets.Transport.Nested.{lookup-enter}

module _ (peer : Peer) (remote_id local_id : Text) where
  -- Messages that come in one after another.
  unfoldable pub queue_all : List Bytes → Transporter peer → Transporter peer
  queue_all [] t = t
  queue_all (m ∷ ms) t = queue_all ms (queue_message peer remote_id local_id m t).1

  -- That many calls of recv, as far as a message is queued.
  unfoldable pub receive_all : ℕ → Transporter peer → List (Option Bytes) × Transporter peer
  receive_all zero t = ([], t)
  receive_all (suc n) t =
      let (m, t') = receive_queued peer remote_id local_id t in
      let (ms, t'') = receive_all n t' in (m ∷ ms, t'')

  -- The queue of the channel.
  abbrev pub queue_of : Transporter peer → Option (List Bytes)
  queue_of t = lookup remote_id local_id t.queued_messages

  abbrev pub all_some : List Bytes → List (Option Bytes)
  all_some [] = []
  all_some (m ∷ ms) = some m ∷ all_some ms

  own_entry :
      (l : List Bytes) (t : Transporter peer)
      → lookup remote_id local_id (enter remote_id local_id l t.queued_messages) ≡ some l
  own_entry l t = ground (
    arith,
    lookup-enter remote_id local_id remote_id local_id l t.queued_messages,
    ==_refl remote_id,
    ==_refl local_id,
  )

  queue_message_lem :
      (channel : Channel) (m : Bytes) (l : List Bytes) (t : Transporter peer)
      → lookup remote_id local_id t.channels ≡ some channel
      → queue_of t ≡ some l
      → queue_message peer remote_id local_id m t ≡ (
        ok tt,
        record t { queued_messages = enter remote_id local_id (l ++ m ∷ []) t.queued_messages },
      )
  unfolding queue_message push_message
  queue_message_lem channel m l t e f = rw (e, f, queue_message, push_message) refl

  queue_of-queue_all :
      (channel : Channel) (ms l : List Bytes) (t : Transporter peer)
      → lookup remote_id local_id t.channels ≡ some channel
      → queue_of t ≡ some l
      → queue_of (queue_all ms t) ≡ some (l ++ ms)
  unfolding queue_all
  queue_of-queue_all channel [] l t e f = f ∙ ap some (sym (append-nil l))
  queue_of-queue_all channel (m ∷ ms) l t e f =
      rw (queue_message_lem channel m l t e f, queue_all)
        (queue_of-queue_all channel ms (l ++ m ∷ [])
            (record t {
              queued_messages = enter remote_id local_id (l ++ m ∷ []) t.queued_messages;
            })
            e (own_entry (l ++ m ∷ []) t)
          ∙ ap some (append_assoc l (m ∷ []) ms))

  receive_queued_lem :
      (m : Bytes) (l : List Bytes) (t : Transporter peer)
      → queue_of t ≡ some (m ∷ l)
      → receive_queued peer remote_id local_id t
        ≡ (some m, record t { queued_messages = enter remote_id local_id l t.queued_messages })
  unfolding receive_queued
  receive_queued_lem m l t f = rw (f, receive_queued) refl

  receive_all-queued :
      (ms : List Bytes) (t : Transporter peer)
      → queue_of t ≡ some ms
      → ((receive_all (length ms) t).0 ≡ all_some ms)
        × (queue_of (receive_all (length ms) t).1 ≡ some [])
  unfolding receive_all
  receive_all-queued [] t f = (refl, f)
  receive_all-queued (m ∷ ms) t f =
      let t' = record t { queued_messages = enter remote_id local_id ms t.queued_messages } in
      let (got, rest) = receive_all-queued ms t' (own_entry ms t) in
      subst
        (λ p.
          (p.0 ∷ (receive_all (length ms) p.1).0 ≡ all_some (m ∷ ms))
          × (queue_of (receive_all (length ms) p.1).1 ≡ some []))
        (sym (receive_queued_lem m ms t f)) (ap (λ l. some m ∷ l) got, rest)

  -- What comes in on an open channel with an empty queue is received in the same order by as many
  -- calls of recv, none of which has to wait, and leaves the queue empty.
  pub receive_all-queue_all :
      (channel : Channel) (ms : List Bytes) (t : Transporter peer)
      → lookup remote_id local_id t.channels ≡ some channel
      → queue_of t ≡ some []
      → ((receive_all (length ms) (queue_all ms t)).0 ≡ all_some ms)
        × (queue_of (receive_all (length ms) (queue_all ms t)).1 ≡ some [])
  receive_all-queue_all channel ms t e f =
      receive_all-queued ms (queue_all ms t) (queue_of-queue_all channel ms [] t e f)
