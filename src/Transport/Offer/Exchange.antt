-- ===== src/Transport/Offer/Exchange.antt =====
-- What offers do to the candidates that were queued and to a connection that is there.
use unisockets.Prelude.{
  ℕ, ◌≡◌, ◌⊎◌, Option, refl, sym, ap, ◌∙◌, false, List, [], ◌∷◌, ◌++◌, append-nil, append_assoc,
  subst, inl, inr, Option-cases, ◌≢◌, none, some, Text, text_key,
}
use unisockets.Map.{Map, get, set, get_or}
use unisockets.Map.Laws.{==_refl}
use unisockets.Signaling.Errors.{Result, Error, ok, err, Result-cases}
use unisockets.Transport.{
  Peer, Transporter, lookup, enter, data_channel_configuration, queue_candidate, handle_candidate,
}
use unisockets.Transport.Nested.{lookup-enter}
use unisockets.Transport.Candidates.{
  waiting, add_all, add_queued_candidates-add_all, own_entry, handle_candidates,
}
use unisockets.Transport.Offer.{
  Negotiation, already_exists, sdp_or_invalid, live, add_channel, ensure_channel, get_offer,
  offer_set, answer_created, answer_new, handle_offer,
}

module _ (peer : Peer) (n : Negotiation peer) where
  open peer use {Connection, set_remote_description}

  -- The connection after setRemoteDescription, and after createAnswer and setLocalDescription.
  abbrev pub offered : Text → Connection
  offered offer = (set_remote_description offer n.new_connection).1

  abbrev pub answered : Text → Connection
  answered offer = (n.create_answer (offered offer)).1

  -- The ways in which a new offer with the candidates `l` in the queue can end.
  abbrev pub Answers : Text → Text → List Text → Result Text × Transporter peer → Type 0
  Answers id offer l (x, u) =
      ((sdp : Option Text) × ((set_remote_description offer n.new_connection).0 ≡ ok tt)
        × ((n.create_answer (offered offer)).0 ≡ ok sdp)
        × (x ≡ sdp_or_invalid sdp)
        × (get id u.connections ≡ some (add_all peer id l (answered offer)))
        × (waiting peer id u ≡ []))
      ⊎ ((e : Error) × ((set_remote_description offer n.new_connection).0 ≡ err e)
          × (x ≡ err e)
          × (get id u.connections ≡ some (offered offer))
          × (waiting peer id u ≡ l))
      ⊎ ((e : Error) × ((set_remote_description offer n.new_connection).0 ≡ ok tt)
          × ((n.create_answer (offered offer)).0 ≡ err e)
          × (x ≡ err e)
          × (get id u.connections ≡ some (answered offer))
          × (waiting peer id u ≡ l))

  answer_new-answered :
      (id offer : Text) (sdp : Option Text) (t : Transporter peer)
      → (set_remote_description offer n.new_connection).0 ≡ ok tt
      → (n.create_answer (offered offer)).0 ≡ ok sdp
      → ((answer_new peer n id offer t).0 ≡ sdp_or_invalid sdp)
        × (get id (answer_new peer n id offer t).1.connections
            ≡ some (add_all peer id (waiting peer id t) (answered offer)))
        × (waiting peer id (answer_new peer n id offer t).1 ≡ [])
  unfolding answer_new offer_set answer_created
  answer_new-answered id offer sdp t done made =
      let c : Connection = answered offer in
      let (added, left) =
        add_queued_candidates-add_all peer id c (record t { connections = set id c t.connections })
          (own_entry peer id c t.connections)
          (n.described-answer (offered offer) ∙ peer.described-set offer n.new_connection done) in
      rw (done, made, answer_new, offer_set, answer_created) (refl, added, left)

  -- What becomes of a new offer and of the candidates that were queued before it.
  pub answer_new-Answers :
      (id offer : Text) (t : Transporter peer)
      → Answers id offer (waiting peer id t) (answer_new peer n id offer t)
  unfolding answer_new offer_set answer_created
  answer_new-Answers id offer t =
      elim (Result-cases (set_remote_description offer n.new_connection).0) [
        | inr (e, failed) ↦ inr (
            inl (
              e,
              failed,
              (rw (failed, answer_new, offer_set) refl),
              (rw (failed, answer_new, offer_set)
                  (own_entry peer id (offered offer) t.connections)),
              (rw (failed, answer_new, offer_set) refl),
            ))
        | inl (_, done) ↦ elim (Result-cases (n.create_answer (offered offer)).0) [
          | inl (sdp, made) ↦
              (let (x, added, left) = answer_new-answered id offer sdp t done made in
                inl (sdp, done, made, x, added, left))
          | inr (e, failed) ↦ inr (
              inr (
                e,
                done,
                failed,
                (rw (done, failed, answer_new, offer_set, answer_created) refl),
                (rw (done, failed, answer_new, offer_set, answer_created)
                    (own_entry peer id (answered offer) t.connections)),
                (rw (done, failed, answer_new, offer_set, answer_created) refl),
              ))
        ]
      ]

  queued_without :
      (candidate id : Text) (t : Transporter peer)
      → get id t.connections ≡ none
      → handle_candidate peer id candidate t ≡ (ok tt, queue_candidate peer id candidate t)
  unfolding handle_candidate
  queued_without candidate id t h = rw (h, handle_candidate) refl

  handle_candidates_without :
      (l : List Text) (id : Text) (t : Transporter peer)
      → get id t.connections ≡ none
      → (get id (handle_candidates peer id l t).connections ≡ none)
        × (waiting peer id (handle_candidates peer id l t) ≡ waiting peer id t ++ l)
  unfolding handle_candidates queue_candidate
  handle_candidates_without [] id t h = (h, sym (append-nil (waiting peer id t)))
  handle_candidates_without (candidate ∷ l) id t h =
      let (same, more) = handle_candidates_without l id (queue_candidate peer id candidate t) h in
      subst
        (λ u.
          (get id (handle_candidates peer id l u).connections ≡ none)
          × (waiting peer id (handle_candidates peer id l u) ≡ waiting peer id t ++ candidate ∷ l))
        (ap (λ y. y.1) (sym (queued_without candidate id t h)))
        (
          same,
          more
              ∙ ap (λ q. get_or [] q ++ l)
                  (own_entry peer id (waiting peer id t ++ candidate ∷ []) t.queued_candidates)
              ∙ append_assoc (waiting peer id t) (candidate ∷ []) l,
        )

  abbrev pub lookup_queue : Text → Text → Transporter peer → List (List ℕ)
  lookup_queue remote_id local_id t = get_or [] (lookup remote_id local_id t.queued_messages)

  -- Candidates that come before the offer of a new connection wait for its answer. If the promises of
  -- setRemoteDescription, createAnswer and setLocalDescription are fulfilled, the candidates are tried
  -- on the connection after its remote description, in the order in which they came, and none stays
  -- queued; the call returns the answer, or throws where its SDP is missing. If one is rejected, the
  -- call throws that, the candidates stay queued, and the new connection stays in the map.
  -- Condition: there is no connection, and nothing is queued at the start.
  pub handle_offer-early :
      (l : List Text) (id local_id offer : Text) (t : Transporter peer)
      → get id t.connections ≡ none
      → waiting peer id t ≡ []
      → Answers id offer l (handle_offer peer n id local_id offer (handle_candidates peer id l t))
  unfolding handle_offer live
  handle_offer-early l id local_id offer t h empty =
      let t' = handle_candidates peer id l t in
      let (same, queue) = handle_candidates_without l id t h in
      rw (same, handle_offer, live)
        (subst (λ q. Answers id offer q (answer_new peer n id offer t'))
          (queue ∙ ap (λ q. q ++ l) empty) (answer_new-Answers id offer t'))

  live-get :
      (remote_id : Text) (c : Connection) (t : Transporter peer)
      → get remote_id t.connections ≡ some c
      → n.is_closed c ≡ false
      → live peer n remote_id t ≡ some c
  unfolding live
  live-get remote_id c t there open_c = rw (there, open_c, live) refl

  entered_same {ℓ} :
      {V : Type ℓ} (r l : Text) (v : V) (m : Map Text (Map Text V))
      → lookup r l (enter r l v m) ≡ some v
  entered_same r l v m = lookup-enter r l r l v m ∙ (rw (==_refl r, ==_refl l) refl)

  ensure_channel-entered :
      (r l : Text) (c : Connection) (t : Transporter peer)
      → lookup r l (ensure_channel peer n r l c t).channels ≢ none
  unfolding ensure_channel add_channel data_channel_configuration
  ensure_channel-entered r l c t = elim (Option-cases (lookup r l t.channels)) [
    | inl none_yet ↦
        rw (none_yet, ensure_channel)
          (rw (entered_same r l (n.create_data_channel l c).0 t.channels) (λ e. cc))
    | inr (channel, there) ↦ rw (there, ensure_channel) (rw there (λ e. cc))
  ]

  ensure_channel-lookup_queue :
      (r l : Text) (c : Connection) (t : Transporter peer)
      → lookup_queue r l (ensure_channel peer n r l c t) ≡ lookup_queue r l t
  unfolding ensure_channel add_channel data_channel_configuration
  ensure_channel-lookup_queue r l c t = elim (Option-cases (lookup r l t.channels)) [
    | inl none_yet ↦
        rw (none_yet, ensure_channel)
          (ap (get_or []) (entered_same r l (lookup_queue r l t) t.queued_messages))
    | inr (channel, there) ↦ rw (there, ensure_channel) refl
  ]

  -- An offer for a connection that is there and not closed throws, from either side, and replaces no
  -- connection by a new one; the channel is there afterwards, and what is queued for it stays.
  pub get_offer-live :
      (remote_id local_id offer : Text) (c : Connection) (t : Transporter peer)
      → get remote_id t.connections ≡ some c
      → n.is_closed c ≡ false
      → let u = ensure_channel peer n remote_id local_id c t in
        (get_offer peer n remote_id local_id t ≡ (err (already_exists remote_id local_id), u))
        × (handle_offer peer n remote_id local_id offer t
            ≡ (err (already_exists remote_id local_id), u))
        × (lookup remote_id local_id u.channels ≢ none)
        × (lookup_queue remote_id local_id u ≡ lookup_queue remote_id local_id t)
  unfolding get_offer handle_offer
  get_offer-live remote_id local_id offer c t there open_c =
      let here = live-get remote_id c t there open_c in
      (
        rw (here, get_offer) refl,
        rw (here, handle_offer) refl,
        ensure_channel-entered remote_id local_id c t,
        ensure_channel-lookup_queue remote_id local_id c t,
      )
