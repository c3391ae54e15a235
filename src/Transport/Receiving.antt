-- ===== src/Transport/Receiving.antt =====
-- Calls of recv of pkg/web/transport/transporter.ts that wait under the message's key, and the message
-- that wakes them.
use unisockets.Prelude.{
  ℕ, zero, suc, ◌≡◌, refl, sym, ap, ◌∙◌, List, [], ◌∷◌, ◌++◌, append-nil, append_assoc, Option,
  none, some, Text, codes, text_key, ◌==◌, if◌then◌else◌,
}
use unisockets.Map.{Map}
use unisockets.Map.Laws.{==_refl}
use unisockets.Signaling.Errors.{Result, ok, err}
use unisockets.Transport.{
  Peer, Channel, Bytes, Transporter, lookup, enter, queue_message, push_message, receive_queued,
  receive_emitted, shifted,
}
use unisockets.Transport.Nested.{lookup-enter}

unfoldable pub get_message_key : Text → Text → Text
get_message_key remote_id local_id =
    codes "message remoteId=" ++ remote_id ++ codes ", localId=" ++ local_id

module _ (peer : Peer) where
  -- `waiting` are the calls that wait, by their ids, and `received` what the calls have returned or
  -- thrown, in the order in which they ended.
  pub record Receives : Type 0 where
    pub transporter : Transporter peer
    pub waiting : List (Text × Text)
    pub received : List (Text × Text × Result Bytes)

  unfoldable pub recv_or_await : Text → Text → Option Bytes → Transporter peer → Receives → Receives
  recv_or_await remote_id local_id none t s = record s {
    waiting = s.waiting ++ (remote_id, local_id) ∷ [];
  }
  recv_or_await remote_id local_id (some msg) t s = record s {
    transporter = t;
    received = s.received ++ (remote_id, local_id, ok msg) ∷ [];
  }

  unfoldable pub recv : Text → Text → Receives → Receives
  unfolding recv_or_await
  recv remote_id local_id s =
      let (msg, t) = receive_queued peer remote_id local_id s.transporter in
      recv_or_await remote_id local_id msg t s

  unfoldable pub wake : Text → Text → Bytes → Receives → Receives
  wake remote_id local_id msg s =
      let (r, t) = receive_emitted peer remote_id local_id msg s.transporter in
      record s { transporter = t; received = s.received ++ (remote_id, local_id, r) ∷ [] }

  -- `emit` of a key with a message wakes every call that waits under it.
  unfoldable pub emit_message : Text → Bytes → List (Text × Text) → Receives → Receives
  unfolding wake
  emit_message key msg [] s = s
  emit_message key msg ((r, k) ∷ l) s = emit_message key msg l (
      if get_message_key r k == key
      then wake r k msg s
      else record s { waiting = s.waiting ++ (r, k) ∷ [] })

  unfoldable pub emit_after :
      Text → Text → Bytes → Result (Unit {0}) → Transporter peer → Receives → Receives
  unfolding emit_message get_message_key
  emit_after remote_id local_id msg (err e) t s = s
  emit_after remote_id local_id msg (ok v) t s =
      emit_message (get_message_key remote_id local_id) msg s.waiting
        (record s { transporter = t; waiting = [] })

  unfoldable pub queue_and_emit_message : Text → Text → Bytes → Receives → Receives
  unfolding emit_after
  queue_and_emit_message remote_id local_id msg s =
      let (r, t) = queue_message peer remote_id local_id msg s.transporter in
      emit_after remote_id local_id msg r t s

  -- That many calls of recv, one after another.
  unfoldable pub recv_times : ℕ → Text → Text → Receives → Receives
  unfolding recv
  recv_times zero remote_id local_id s = s
  recv_times (suc n) remote_id local_id s =
      recv_times n remote_id local_id (recv remote_id local_id s)

module _ (peer : Peer) (r k : Text) where
  abbrev pub copies {ℓ} : {A : Type ℓ} → ℕ → A → List A
  copies zero a = []
  copies (suc n) a = a ∷ copies n a

  queue_same :
      (q : List Bytes) (m : Map Text (Map Text (List Bytes))) → lookup r k (enter r k q m) ≡ some q
  queue_same q m = lookup-enter r k r k q m ∙ (rw (==_refl r, ==_refl k) refl)

  recv-empty :
      (s : Receives peer)
      → lookup r k s.transporter.queued_messages ≡ some []
      → recv peer r k s ≡ record s { waiting = s.waiting ++ (r, k) ∷ [] }
  unfolding recv recv_or_await receive_queued
  recv-empty s h = rw (h, receive_queued) refl

  recv_times-empty :
      (n : ℕ) (s : Receives peer)
      → lookup r k s.transporter.queued_messages ≡ some []
      → recv_times peer n r k s ≡ record s { waiting = s.waiting ++ copies n (r, k) }
  unfolding recv_times
  recv_times-empty zero s h = ap (λ w. record s { waiting = w }) (sym (append-nil s.waiting))
  recv_times-empty (suc n) s h =
      ap (recv_times peer n r k) (recv-empty s h)
      ∙ recv_times-empty n (record s { waiting = s.waiting ++ (r, k) ∷ [] }) h
      ∙ ap (λ w. record s { waiting = w }) (append_assoc s.waiting ((r, k) ∷ []) (copies n (r, k)))

  -- A queue from which that many calls have taken a message, if there was one.
  abbrev shifts : ℕ → List Bytes → List Bytes
  shifts zero q = q
  shifts (suc n) q = shifts n (shifted peer q)

  shifts-nil : (n : ℕ) → shifts n [] ≡ []
  shifts-nil zero = refl
  shifts-nil (suc n) = shifts-nil n

  -- The state after a call was woken.
  abbrev woken : Bytes → List Bytes → Receives peer → Receives peer
  woken msg q s = record s {
    transporter = record s.transporter {
      queued_messages = enter r k (shifted peer q) s.transporter.queued_messages;
    };
    received = s.received ++ (r, k, ok msg) ∷ [];
  }

  wake-woken :
      (msg : Bytes) (q : List Bytes) (s : Receives peer)
      → lookup r k s.transporter.queued_messages ≡ some q
      → wake peer r k msg s ≡ woken msg q s
  unfolding wake receive_emitted
  wake-woken msg q s h = rw (h, receive_emitted) refl

  emit_message-copies :
      (n : ℕ) (msg : Bytes) (q : List Bytes) (s : Receives peer)
      → lookup r k s.transporter.queued_messages ≡ some q
      → let u = emit_message peer (get_message_key r k) msg (copies n (r, k)) s in
        (u.received ≡ s.received ++ copies n (r, k, ok msg))
        × (u.waiting ≡ s.waiting)
        × (lookup r k u.transporter.queued_messages ≡ some (shifts n q))
  unfolding emit_message
  emit_message-copies zero msg q s h = (sym (append-nil s.received), refl, h)
  emit_message-copies (suc n) msg q s h =
      let t = woken msg q s in
      let (got, left, queue) =
        emit_message-copies n msg (shifted peer q) t
          (queue_same (shifted peer q) s.transporter.queued_messages) in
      let step : emit_message peer (get_message_key r k) msg (copies (suc n) (r, k)) s
          ≡ emit_message peer (get_message_key r k) msg (copies n (r, k)) t =
        ap
          (λ b.
            emit_message peer (get_message_key r k) msg (copies n (r, k))
              (if b then wake peer r k msg s else record s { waiting = s.waiting ++ (r, k) ∷ [] }))
          (==_refl (get_message_key r k))
        ∙ ap (emit_message peer (get_message_key r k) msg (copies n (r, k)))
            (wake-woken msg q s h) in
      (
        ap (λ u. u.received) step
            ∙ got
            ∙ append_assoc s.received ((r, k, ok msg) ∷ []) (copies n (r, k, ok msg)),
        ap (λ u. u.waiting) step ∙ left,
        ap (λ u. lookup r k u.transporter.queued_messages) step ∙ queue,
      )

  -- When calls of recv find the queue of an entered channel empty, they wait; the next message is
  -- returned by every one of them, none waits any more, and the queue is empty again. So one call
  -- gets its message once, and two calls both get the same message. Condition: at least one call,
  -- and none waits before.
  pub recv_times-queue_and_emit_message :
      (n : ℕ) (channel : Channel) (msg : Bytes) (s : Receives peer)
      → lookup r k s.transporter.channels ≡ some channel
      → lookup r k s.transporter.queued_messages ≡ some []
      → s.waiting ≡ []
      → let u = queue_and_emit_message peer r k msg (recv_times peer (suc n) r k s) in
        (u.received ≡ s.received ++ copies (suc n) (r, k, ok msg))
        × (u.waiting ≡ [])
        × (lookup r k u.transporter.queued_messages ≡ some [])
  unfolding queue_and_emit_message emit_after queue_message push_message
  recv_times-queue_and_emit_message n channel msg s entered empty idle =
      let t : Transporter peer = record s.transporter {
        queued_messages = enter r k (msg ∷ []) s.transporter.queued_messages;
      } in
      let s' : Receives peer = record s { transporter = t; waiting = [] } in
      let (got, left, queue) =
        emit_message-copies (suc n) msg (msg ∷ []) s'
          (queue_same (msg ∷ []) s.transporter.queued_messages) in
      let pushed : queue_message peer r k msg s.transporter ≡ (ok tt, t) =
        rw (entered, empty, queue_message, push_message) refl in
      let step : queue_and_emit_message peer r k msg (recv_times peer (suc n) r k s)
          ≡ emit_message peer (get_message_key r k) msg (copies (suc n) (r, k)) s' =
        ap (queue_and_emit_message peer r k msg) (recv_times-empty (suc n) s empty)
        ∙ ap
            (λ p.
              emit_after peer r k msg p.0 p.1
                (record s { waiting = s.waiting ++ copies (suc n) (r, k) }))
            pushed
        ∙ ap (λ w. emit_message peer (get_message_key r k) msg (w ++ copies (suc n) (r, k)) s')
            idle in
      (
        ap (λ u. u.received) step ∙ got,
        ap (λ u. u.waiting) step ∙ left,
        ap (λ u. lookup r k u.transporter.queued_messages) step ∙ queue ∙ ap some (shifts-nil n),
      )
