-- ===== src/Transport/Offer.antt =====
-- getOffer, handleOffer and handleConnectionStatusChange. A call runs from start to end: what reaches
-- the transporter while it awaits is not modelled.
pub mod Exchange
use unisockets.Prelude.{
  ℕ, ◌≡◌, refl, sym, ap, ◌∙◌, Bool, true, false, List, [], ◌∷◌, ◌++◌, append-nil, append_assoc,
  subst, inl, inr, Option-cases, ◌≢◌, Option, none, some, Text, codes, text_key, ◌==◌,
  if◌then◌else◌,
}
use unisockets.Map.{Map, get, set, get_or}
use unisockets.Map.Laws.{==_refl}
use unisockets.Signaling.Errors.{Result, ok, err, Error, foreign, sdp_invalid}
use unisockets.Transport.{
  Peer, Channel, Transporter, lookup, enter, data_channel_configuration, add_queued_candidates,
  queue_candidate, handle_candidate, shutdown,
}
use unisockets.Transport.Nested.{lookup-enter}
use unisockets.Transport.Candidates.{
  waiting, add_all, add_queued_candidates-add_all, own_entry, handle_candidates,
}

-- What the offers need of RTCPeerConnection. `create_offer` and `create_answer` also set the local
-- description, which does not take the remote one away; each may be rejected.
module _ (peer : Peer) where
  open peer use {Connection, described}

  pub record Negotiation : Type 0 where
    pub new_connection : Connection
    pub is_closed : Connection → Bool
    pub create_data_channel : Text → Connection → Channel × Connection
    pub create_offer : Connection → Result (Option Text) × Connection
    pub create_answer : Connection → Result (Option Text) × Connection
    pub described-answer : (c : Connection) → described (create_answer c).1 ≡ described c

-- `throw "Connection already exist for localId - " + localId + "; remoteId - " + remoteId`
abbrev pub already_exists : Text → Text → Error
already_exists remote_id local_id = foreign (
    codes "Connection already exist for localId - "
    ++ local_id
    ++ codes "; remoteId - "
    ++ remote_id)

abbrev pub sdp_or_invalid : Option Text → Result Text
sdp_or_invalid none = err sdp_invalid
sdp_or_invalid (some sdp) = ok sdp

-- What getOffer returns or throws, and whether it closes the connection: an SDP that is missing does.
abbrev sdp_result : Result (Option Text) → Result Text
sdp_result (err e) = err e
sdp_result (ok sdp) = sdp_or_invalid sdp

abbrev closes : Result (Option Text) → Bool
closes (err e) = false
closes (ok none) = true
closes (ok (some sdp)) = false

module _ (peer : Peer) (n : Negotiation peer) where
  open peer use {Connection, set_remote_description}

  -- `connections.has(remoteId) && connections.get(remoteId).connectionState != "closed"`
  unfoldable pub live : Text → Transporter peer → Option Connection
  live remote_id t = elim (get remote_id t.connections) [
    | none ↦ none
    | some c ↦ if n.is_closed c then none else some c
  ]

  unfoldable pub add_channel : Text → Text → Connection → Transporter peer → Transporter peer
  add_channel remote_id local_id c t =
      let (channel, c') = n.create_data_channel local_id c in
      data_channel_configuration peer remote_id local_id channel
        (record t { connections = set remote_id c' t.connections })

  -- On a connection that is there, a channel is made unless one is entered.
  unfoldable pub ensure_channel : Text → Text → Connection → Transporter peer → Transporter peer
  unfolding add_channel
  ensure_channel remote_id local_id c t = elim (lookup remote_id local_id t.channels) [
    | none ↦ add_channel remote_id local_id c t
    | some channel ↦ t
  ]

  -- Without an SDP the connection is closed, and stays in the map.
  unfoldable pub offer_new : Text → Text → Transporter peer → Result Text × Transporter peer
  offer_new remote_id local_id t =
      let (channel, c) = n.create_data_channel local_id n.new_connection in
      let (sdp, c') = n.create_offer c in
      (
        sdp_result sdp,
        data_channel_configuration peer remote_id local_id channel (record t {
          connections = set remote_id c' t.connections;
          closed_connections = t.closed_connections ++ (if closes sdp then c' ∷ [] else []);
        }),
      )

  unfoldable pub get_offer : Text → Text → Transporter peer → Result Text × Transporter peer
  unfolding live ensure_channel offer_new
  get_offer remote_id local_id t = elim (live remote_id t) [
    | none ↦ offer_new remote_id local_id t
    | some c ↦ (err (already_exists remote_id local_id), ensure_channel remote_id local_id c t)
  ]

  -- What follows setLocalDescription in handleOffer.
  unfoldable pub answer_created :
      Text → Result (Option Text) → Transporter peer → Result Text × Transporter peer
  answer_created remote_id (err e) t = (err e, t)
  answer_created remote_id (ok sdp) t = (sdp_or_invalid sdp, add_queued_candidates peer remote_id t)

  -- What follows setRemoteDescription in handleOffer.
  unfoldable pub offer_set :
      Text → Result (Unit {0}) → Connection → Transporter peer → Result Text × Transporter peer
  unfolding answer_created
  offer_set remote_id (err e) c t =
      (err e, record t { connections = set remote_id c t.connections })
  offer_set remote_id (ok _) c t =
      let (sdp, c') = n.create_answer c in
      answer_created remote_id sdp (record t { connections = set remote_id c' t.connections })

  -- Where a promise is rejected, the connection stays in the map.
  unfoldable pub answer_new : Text → Text → Transporter peer → Result Text × Transporter peer
  unfolding offer_set
  answer_new remote_id offer t =
      let (r, c) = set_remote_description offer n.new_connection in offer_set remote_id r c t

  unfoldable pub handle_offer :
      Text → Text → Text → Transporter peer → Result Text × Transporter peer
  unfolding live ensure_channel answer_new
  handle_offer remote_id local_id offer t = elim (live remote_id t) [
    | none ↦ answer_new remote_id offer t
    | some c ↦ (err (already_exists remote_id local_id), ensure_channel remote_id local_id c t)
  ]

  unfoldable pub handle_connection_status_change : Text → Text → Transporter peer → Transporter peer
  handle_connection_status_change connection_state id t =
      if connection_state == codes "closed" then shutdown peer id t else t
