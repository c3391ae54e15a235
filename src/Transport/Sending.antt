-- ===== src/Transport/Sending.antt =====
-- send of pkg/web/transport/transporter.ts, which waits under the channel's key until the channel is
-- there and open. `waiting` are the sends that wait, in the order in which they began.
use unisockets.Prelude.{
  ◌≡◌, refl, sym, ap, ◌∙◌, true, false, List, [], ◌∷◌, ◌++◌, append-nil, append_assoc, map, Option,
  none, some, Text, codes, text_key, nat_key, ◌==◌, inl, inr, ◌⊎◌, if◌then◌else◌,
}
use unisockets.Map.{Map, get, get_or, set, contains}
use unisockets.Map.Laws.{==_refl, get-set}
use unisockets.Transport.{
  Peer, Channel, Bytes, Transporter, lookup, enter, data_channel_configuration,
}

-- A send by its arguments.
pub record Sending : Type 0 where
  pub remote_id : Text
  pub local_id : Text
  pub msg : Bytes

unfoldable pub get_channel_key : Text → Text → Text
get_channel_key remote_id local_id =
    codes "channel remoteId=" ++ remote_id ++ codes ", localId=" ++ local_id

abbrev pub key_of : Sending → Text
key_of m = get_channel_key m.remote_id m.local_id

module _ (peer : Peer) where
  -- `opened` are the channels whose `readyState` is "open"; `sent` is what was sent on a channel,
  -- and `failed` the sends that have thrown.
  pub record Sends : Type 0 where
    pub transporter : Transporter peer
    pub opened : List Channel
    pub sent : List (Channel × Bytes)
    pub waiting : List Sending
    pub failed : List Sending

  unfoldable pub await_channel : Sending → Sends → Sends
  await_channel m s = record s { waiting = s.waiting ++ m ∷ [] }

  -- The loop's test, and what follows it.
  unfoldable pub send_or_await : Sending → Option Channel → Sends → Sends
  unfolding await_channel
  send_or_await m none s = await_channel m s
  send_or_await m (some channel) s =
      if contains channel s.opened
      then record s { sent = s.sent ++ (channel, m.msg) ∷ [] }
      else await_channel m s

  unfoldable pub send : Sending → Sends → Sends
  unfolding send_or_await
  send m s = send_or_await m (lookup m.remote_id m.local_id s.transporter.channels) s

  -- After the await: `this.channels.get(remoteId).get(localId)` throws without a map for the remote.
  unfoldable pub resume_in : Sending → Option (Map Text Channel) → Sends → Sends
  unfolding send_or_await
  resume_in m none s = record s { failed = s.failed ++ m ∷ [] }
  resume_in m (some inner) s = send_or_await m (get m.local_id inner) s

  unfoldable pub resume : Sending → Sends → Sends
  unfolding resume_in
  resume m s = resume_in m (get m.remote_id s.transporter.channels) s

  -- `emit` of a key resumes the sends that wait under it.
  unfoldable pub emit : Text → List Sending → Sends → Sends
  unfolding resume await_channel
  emit key [] s = s
  emit key (m ∷ l) s = emit key l (if key_of m == key then resume m s else await_channel m s)

  -- The `onopen` of a channel that is entered for the two ids.
  unfoldable pub on_open : Text → Text → Channel → Sends → Sends
  unfolding emit get_channel_key
  on_open remote_id local_id channel s =
      emit (get_channel_key remote_id local_id) s.waiting
        (record s { opened = channel ∷ s.opened; waiting = [] })

  -- The sends of several messages under two ids, one after another.
  unfoldable pub send_each : Text → Text → List Bytes → Sends → Sends
  unfolding send
  send_each remote_id local_id [] s = s
  send_each remote_id local_id (msg ∷ l) s =
      send_each remote_id local_id l
        (send (record { remote_id = remote_id; local_id = local_id; msg = msg }) s)

module _ (peer : Peer) (r k : Text) where
  abbrev pub sendings : List Bytes → List Sending
  sendings l = map (λ msg. record { remote_id = r; local_id = k; msg = msg }) l

  abbrev pub on_channel : Channel → List Bytes → List (Channel × Bytes)
  on_channel channel l = map (λ msg. (channel, msg)) l

  -- No open channel is entered under the two ids.
  abbrev pub NotOpen : Sends peer → Type 0
  NotOpen s =
      (lookup r k s.transporter.channels ≡ none)
      ⊎ ((channel : Channel) × (lookup r k s.transporter.channels ≡ some channel)
          × (contains channel s.opened ≡ false))

  send-NotOpen :
      (msg : Bytes) (s : Sends peer)
      → NotOpen s
      → let m : Sending = record { remote_id = r; local_id = k; msg = msg } in
        send peer m s ≡ await_channel peer m s
  unfolding send send_or_await
  send-NotOpen msg s (inl nothing) = rw (nothing, send_or_await) refl
  send-NotOpen msg s (inr (channel, there, shut)) = rw (there, send_or_await) (rw (shut) refl)

  -- Without an open channel each send waits.
  send_each-waiting :
      (l : List Bytes) (s : Sends peer)
      → NotOpen s
      → send_each peer r k l s ≡ record s { waiting = s.waiting ++ sendings l }
  unfolding send_each await_channel
  send_each-waiting [] s h = ap (λ w. record s { waiting = w }) (sym (append-nil s.waiting))
  send_each-waiting (msg ∷ l) s h =
      let m : Sending = record { remote_id = r; local_id = k; msg = msg } in
      ap (send_each peer r k l) (send-NotOpen msg s h)
      ∙ send_each-waiting l (await_channel peer m s) h
      ∙ ap (λ w. record s { waiting = w }) (append_assoc s.waiting (m ∷ []) (sendings l))

  resume-open :
      (channel : Channel) (inner : Map Text Channel) (msg : Bytes) (s : Sends peer)
      → get r s.transporter.channels ≡ some inner
      → get k inner ≡ some channel
      → contains channel s.opened ≡ true
      → resume peer (record { remote_id = r; local_id = k; msg = msg }) s
        ≡ record s { sent = s.sent ++ (channel, msg) ∷ [] }
  unfolding resume resume_in send_or_await
  resume-open channel inner msg s there entered is_open = rw (there, entered, is_open) refl

  emit-open :
      (channel : Channel) (inner : Map Text Channel) (l : List Bytes) (s : Sends peer)
      → get r s.transporter.channels ≡ some inner
      → get k inner ≡ some channel
      → contains channel s.opened ≡ true
      → emit peer (get_channel_key r k) (sendings l) s
        ≡ record s { sent = s.sent ++ on_channel channel l }
  unfolding emit
  emit-open channel inner [] s there entered is_open =
      ap (λ x. record s { sent = x }) (sym (append-nil s.sent))
  emit-open channel inner (msg ∷ l) s there entered is_open =
      let m : Sending = record { remote_id = r; local_id = k; msg = msg } in
      ap
        (λ b.
          emit peer (get_channel_key r k) (sendings l)
            (if b then resume peer m s else await_channel peer m s))
        (==_refl (get_channel_key r k))
      ∙ ap (emit peer (get_channel_key r k) (sendings l))
          (resume-open channel inner msg s there entered is_open)
      ∙ emit-open channel inner l (record s { sent = s.sent ++ (channel, msg) ∷ [] }) there entered
          is_open
      ∙ ap (λ x. record s { sent = x })
          (append_assoc s.sent ((channel, msg) ∷ []) (on_channel channel l))

  -- Messages that are sent while no open channel is there wait; once a channel is entered for the
  -- two ids and opens, each of them is sent on it exactly once, in the order of the sends, and none
  -- waits any more or has thrown. Condition: nothing waits at the start.
  pub send_each-on_open :
      (channel : Channel) (l : List Bytes) (s : Sends peer)
      → NotOpen s
      → s.waiting ≡ []
      → let u = send_each peer r k l s in
        on_open peer r k channel
          (record u { transporter = data_channel_configuration peer r k channel u.transporter })
        ≡ record s {
          transporter = data_channel_configuration peer r k channel s.transporter;
          opened = channel ∷ s.opened;
          sent = s.sent ++ on_channel channel l;
          waiting = [];
        }
  unfolding on_open data_channel_configuration contains enter
  send_each-on_open channel l s shut idle =
      let inner = set k channel (get_or [] (get r s.transporter.channels)) in
      let s' : Sends peer = record s {
        transporter = data_channel_configuration peer r k channel s.transporter;
        opened = channel ∷ s.opened;
        waiting = [];
      } in
      ap
        (λ u.
          on_open peer r k channel
            (record u { transporter = data_channel_configuration peer r k channel u.transporter }))
        (send_each-waiting l s shut)
      ∙ ap (λ w. emit peer (get_channel_key r k) (w ++ sendings l) s') idle
      ∙ emit-open channel inner l s'
          (get-set r r inner s.transporter.channels ∙ (rw (==_refl r) refl))
          (get-set k k channel (get_or [] (get r s.transporter.channels)) ∙ (rw (==_refl k) refl))
          (rw (==_refl channel) refl)
