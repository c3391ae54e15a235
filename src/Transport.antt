-- ===== src/Transport.antt =====
-- Transporter of pkg/web/transport/transporter.ts: its four maps, and the methods that change them.
-- RTCPeerConnection is a parameter; what is closed is entered in a list, in the order of the calls.
pub mod Nested
pub mod Candidates
pub mod Messages
pub mod Shutdown
pub mod Pairing
pub mod Offer
pub mod Sending
pub mod Receiving
pub mod Examples
use unisockets.Prelude.{
  ℕ, Bool, true, false, ◌≡◌, ◌&&◌, not, if◌then◌else◌, List, [], ◌∷◌, ◌++◌, map, Option, none, some,
  Text, codes, text_key, ◌==◌,
}
use unisockets.Map.{Map, get, get_or, has, set, delete}
use unisockets.Signaling.Errors.{
  Result, ok, err, channel_does_not_exist, connection_does_not_exist, foreign,
}

-- What the transporter needs of RTCPeerConnection. Its promises may be rejected, with the connection
-- as it is then. A connection has a remote description once a setRemoteDescription is fulfilled, and
-- an addIceCandidate, with the JSON.parse before it, does not take it away.
pub record Peer : Type 1 where
  pub Connection : Type 0
  pub described : Connection → Bool
  pub set_remote_description : Text → Connection → Result (Unit {0}) × Connection
  pub add_ice_candidate : Text → Connection → Result (Unit {0}) × Connection
  pub described-set :
      (sdp : Text) (c : Connection)
      → (set_remote_description sdp c).0 ≡ ok tt
      → described (set_remote_description sdp c).1 ≡ true
  pub described-add :
      (candidate : Text) (c : Connection)
      → described (add_ice_candidate candidate c).1 ≡ described c

-- A data channel, by the number of its creation.
abbrev pub Channel : Type 0
Channel = ℕ

-- A Uint8Array.
abbrev pub Bytes : Type 0
Bytes = List ℕ

-- `has(remoteId) && get(remoteId).has(localId)`, and the value there.
unfoldable pub lookup {ℓ} : {V : Type ℓ} → Text → Text → Map Text (Map Text V) → Option V
lookup remote_id local_id m = get local_id (get_or [] (get remote_id m))

-- `set` in the inner map, which is made if it is not there.
unfoldable pub enter {ℓ} :
    {V : Type ℓ} → Text → Text → V → Map Text (Map Text V) → Map Text (Map Text V)
enter remote_id local_id v m = set remote_id (set local_id v (get_or [] (get remote_id m))) m

unfoldable pub values {ℓ} : {V : Type ℓ} → Map Text V → List V
values [] = []
values ((k, v) ∷ m) = v ∷ values m

module _ (peer : Peer) where
  open peer use {Connection, described, set_remote_description, add_ice_candidate}

  pub record Transporter : Type 0 where
    pub connections : Map Text Connection
    pub channels : Map Text (Map Text Channel)
    pub queued_messages : Map Text (Map Text (List Bytes))
    pub queued_candidates : Map Text (List Text)
    pub closed_connections : List Connection
    pub closed_channels : List Channel

  -- A new channel is entered; what is queued for it stays, and a queue is made if there is none.
  unfoldable pub data_channel_configuration : Text → Text → Channel → Transporter → Transporter
  data_channel_configuration remote_id local_id channel t = record t {
    channels = enter remote_id local_id channel t.channels;
    queued_messages =
        enter remote_id local_id (get_or [] (lookup remote_id local_id t.queued_messages))
          t.queued_messages;
  }

  unfoldable pub add_candidate :
      Text → Text → Connection → Transporter → Result (Unit {0}) × Transporter
  add_candidate id candidate c t =
      let (r, c') = add_ice_candidate candidate c in
      (r, record t { connections = set id c' t.connections })

  unfoldable pub queue_candidate : Text → Text → Transporter → Transporter
  queue_candidate id candidate t = record t {
    queued_candidates =
        set id (get_or [] (get id t.queued_candidates) ++ candidate ∷ []) t.queued_candidates;
  }

  unfoldable pub handle_candidate : Text → Text → Transporter → Result (Unit {0}) × Transporter
  unfolding add_candidate queue_candidate
  handle_candidate id candidate t = elim (get id t.connections) [
    | none ↦ (ok tt, queue_candidate id candidate t)
    | some c ↦
        if described c
        then add_candidate id candidate c t
        else (ok tt, queue_candidate id candidate t)
  ]

  unfoldable pub without_candidate : Text → List Text → List Text
  without_candidate candidate [] = []
  without_candidate candidate (c ∷ l) =
      let rest = without_candidate candidate l in if c == candidate then rest else c ∷ rest

  -- One call of the callback of addQueuedCandidates. `forEach` does not await it, so what it rejects
  -- with stops nothing.
  unfoldable pub retry_candidate : Text → Text → Transporter → Transporter
  unfolding without_candidate
  retry_candidate id candidate t =
      (handle_candidate id candidate (record t {
        queued_candidates =
            set id (without_candidate candidate (get_or [] (get id t.queued_candidates)))
              t.queued_candidates;
      })).1

  -- `forEach` goes through the list that was queued at the start.
  unfoldable pub retry_all : Text → List Text → Transporter → Transporter
  unfolding retry_candidate
  retry_all id [] t = t
  retry_all id (candidate ∷ l) t = retry_all id l (retry_candidate id candidate t)

  unfoldable pub add_queued_candidates : Text → Transporter → Transporter
  unfolding retry_all
  add_queued_candidates id t = retry_all id (get_or [] (get id t.queued_candidates)) t

  -- What follows setRemoteDescription.
  unfoldable pub answer_set :
      Text → Result (Unit {0}) → Transporter → Result (Unit {0}) × Transporter
  answer_set id (err e) t = (err e, t)
  answer_set id (ok _) t = (ok tt, add_queued_candidates id t)

  unfoldable pub handle_answer : Text → Text → Transporter → Result (Unit {0}) × Transporter
  unfolding answer_set
  handle_answer id answer t = elim (get id t.connections) [
    | none ↦ (err connection_does_not_exist, t)
    | some c ↦
        let (r, c') = set_remote_description answer c in
        answer_set id r (record t { connections = set id c' t.connections })
  ]

  unfoldable pub shutdown : Text → Transporter → Transporter
  shutdown id t = record {
    connections = delete id t.connections;
    channels = delete id t.channels;
    queued_messages = delete id t.queued_messages;
    queued_candidates = delete id t.queued_candidates;
    closed_connections =
        t.closed_connections ++ elim (get id t.connections) [ none ↦ [] | some c ↦ c ∷ [] ];
    closed_channels = t.closed_channels ++ values (get_or [] (get id t.channels));
  }

  -- `close` shuts every connection down, in the order of the map.
  unfoldable pub close_all : Map Text Connection → Transporter → Transporter
  unfolding shutdown
  close_all [] t = t
  close_all ((id, c) ∷ rest) t = close_all rest (shutdown id t)

  unfoldable pub close : Transporter → Transporter
  unfolding close_all
  close t = close_all t.connections t

  -- `messages?.push(msg)`, which does nothing where there is no queue.
  unfoldable pub push_message :
      Text → Text → Bytes → Option (List Bytes) → Transporter → Transporter
  push_message remote_id local_id msg none t = t
  push_message remote_id local_id msg (some l) t = record t {
    queued_messages = enter remote_id local_id (l ++ msg ∷ []) t.queued_messages;
  }

  -- queueAndEmitMessage up to its await: the message is at the end of the queue.
  unfoldable pub queue_message : Text → Text → Bytes → Transporter → Result (Unit {0}) × Transporter
  unfolding push_message
  queue_message remote_id local_id msg t = elim (lookup remote_id local_id t.channels) [
    | none ↦ (err channel_does_not_exist, t)
    | some channel ↦
        (ok tt, push_message remote_id local_id msg (lookup remote_id local_id t.queued_messages) t)
  ]

  abbrev pub shifted : List Bytes → List Bytes
  shifted [] = []
  shifted (m ∷ l) = l

  -- recv where a message is queued; `none` where the caller has to wait.
  unfoldable pub receive_queued : Text → Text → Transporter → Option Bytes × Transporter
  receive_queued remote_id local_id t = elim (lookup remote_id local_id t.queued_messages) [
    | none ↦ (none, t)
    | some [] ↦ (none, t)
    | some (m ∷ l) ↦
        (some m, record t { queued_messages = enter remote_id local_id l t.queued_messages })
  ]

  -- The rest of a recv that has waited, with the message that was emitted. It throws where there is
  -- no map for the remote id.
  unfoldable pub receive_emitted : Text → Text → Bytes → Transporter → Result Bytes × Transporter
  receive_emitted remote_id local_id msg t = elim (lookup remote_id local_id t.queued_messages) [
    | none ↦
        ((if has remote_id t.queued_messages then ok msg else err (foreign (codes "TypeError"))), t)
    | some l ↦ (
      ok msg,
      record t { queued_messages = enter remote_id local_id (shifted l) t.queued_messages },
    )
  ]
