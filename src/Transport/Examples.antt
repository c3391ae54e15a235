-- ===== src/Transport/Examples.antt =====
-- The theorems on the transporter, with connections that keep a list of their candidates.
use unisockets.Prelude.{
  ◌≡◌, ◌⊎◌, refl, Bool, true, false, List, [], ◌∷◌, ◌++◌, some, Text, text_key, codes, length,
}
use unisockets.Prelude.{inl}
use unisockets.Signaling.Errors.{Result, Error, ok, err, foreign}
use unisockets.Map.{get}
use unisockets.Transport.{
  data_channel_configuration, queue_message, handle_answer, Peer, Transporter, lookup, Bytes,
}
use unisockets.Transport.Candidates.{waiting, add_all, handle_candidates, early_candidates_added}
use unisockets.Transport.Messages.{
  queue_all, receive_all, all_some, queue_of, receive_all-queue_all,
}
use unisockets.Transport.Pairing.{
  IsPaired, empty, Reach, init, next, configures, arrives, Reach-IsPaired,
}
use unisockets.Transport.Offer.{Negotiation, handle_offer}
use unisockets.Transport.Offer.Exchange.{Answers, handle_offer-early}
use unisockets.Transport.Sending.{Sends, send_each, on_open, send_each-on_open}
use unisockets.Transport.Receiving.{
  Receives, recv_times, queue_and_emit_message, recv_times-queue_and_emit_message,
}

-- An empty text is no SDP, and is rejected.
abbrev set_listing : Text → Bool × List Text → Result (Unit {0}) × (Bool × List Text)
set_listing [] c = (err (foreign (codes "OperationError")), c)
set_listing (x ∷ sdp) c = (ok tt, (true, c.1))

set_listing-described :
    (sdp : Text) (c : Bool × List Text)
    → (set_listing sdp c).0 ≡ ok tt
    → (set_listing sdp c).1.0 ≡ true
set_listing-described [] c e = cc
set_listing-described (x ∷ sdp) c e = refl

abbrev listing : Peer
listing = record {
  Connection = Bool × List Text;
  described = λ c. c.0;
  set_remote_description = set_listing;
  add_ice_candidate = λ candidate c. (ok tt, (c.0, c.1 ++ candidate ∷ []));
  described-set = set_listing-described;
  described-add = λ candidate c. refl;
}

abbrev other : Text
other = codes "10.0.0.1"

abbrev own : Text
own = codes "10.0.0.0"

-- One connection without a remote description, with a channel and an empty queue.
abbrev offered : Transporter listing
offered = record {
  connections = (other, (false, [])) ∷ [];
  channels = (other, (own, 7) ∷ []) ∷ [];
  queued_messages = (other, (own, []) ∷ []) ∷ [];
  queued_candidates = [];
  closed_connections = [];
  closed_channels = [];
}

-- The same with two candidates in the queue.
abbrev early : Transporter listing
early = record offered { queued_candidates = (other, codes "a" ∷ codes "b" ∷ []) ∷ [] }

abbrev two : List Bytes
two = (1 ∷ []) ∷ (2 ∷ 3 ∷ []) ∷ []

receive_all-queue_all_example :
    ((receive_all listing other own (length two) (queue_all listing other own two offered)).0
      ≡ all_some listing other own two)
    × (queue_of listing other own
          (receive_all listing other own (length two) (queue_all listing other own two offered)).1
        ≡ some [])
unfolding lookup get
receive_all-queue_all_example = receive_all-queue_all listing other own 7 two offered refl refl

abbrev opened : Transporter listing
opened = data_channel_configuration listing other own 7 (empty listing)

opened-Reach : Reach listing (queue_message listing other own (1 ∷ []) opened).1
opened-Reach =
    next (next init (configures other own 7 (empty listing))) (arrives other own (1 ∷ []) opened)

Reach-IsPaired_example : IsPaired listing (queue_message listing other own (1 ∷ []) opened).1
Reach-IsPaired_example = Reach-IsPaired listing opened-Reach

early_candidates_added_example :
    let u =
      handle_answer listing other []
        (handle_candidates listing other (codes "a" ∷ codes "b" ∷ []) offered) in
    (((set_listing [] (false, [])).0 ≡ ok tt)
      × (u.0 ≡ ok tt)
      × (get other u.1.connections
          ≡ some
              (add_all listing other (codes "a" ∷ codes "b" ∷ []) (set_listing [] (false, [])).1))
      × (waiting listing other u.1 ≡ []))
    ⊎ ((e : Error) × ((set_listing [] (false, [])).0 ≡ err e)
        × (u.0 ≡ err e)
        × (get other u.1.connections ≡ some (set_listing [] (false, [])).1)
        × (waiting listing other u.1 ≡ codes "a" ∷ codes "b" ∷ []))
unfolding get
early_candidates_added_example =
    early_candidates_added listing other (codes "a" ∷ codes "b" ∷ []) [] (false, []) offered refl
      refl refl

abbrev negotiating : Negotiation listing
negotiating = record {
  new_connection = (false, []);
  is_closed = λ c. false;
  create_data_channel = λ label c. (9, c);
  create_offer = λ c. (ok (some (codes "offer")), c);
  create_answer = λ c. (ok (some (codes "answer")), c);
  described-answer = λ c. refl;
}

abbrev alone : Transporter listing
alone = record {
  connections = [];
  channels = [];
  queued_messages = [];
  queued_candidates = [];
  closed_connections = [];
  closed_channels = [];
}

handle_offer-early_example :
    Answers listing negotiating other (codes "sdp") (codes "a" ∷ codes "b" ∷ []) (
      handle_offer listing negotiating other own
        (codes "sdp")
        (handle_candidates listing other (codes "a" ∷ codes "b" ∷ []) alone))
unfolding get
handle_offer-early_example =
    handle_offer-early listing negotiating (codes "a" ∷ codes "b" ∷ []) other own (codes "sdp")
      alone refl refl

-- Nothing is connected yet.
abbrev silent : Sends listing
silent = record { transporter = alone; opened = []; sent = []; waiting = []; failed = [] }

send_each-on_open_example :
    let u = send_each listing other own ((1 ∷ []) ∷ (2 ∷ []) ∷ []) silent in
    on_open listing other own 9
      (record u { transporter = data_channel_configuration listing other own 9 u.transporter })
    ≡ record silent {
      transporter = data_channel_configuration listing other own 9 alone;
      opened = 9 ∷ [];
      sent = (9, 1 ∷ []) ∷ (9, 2 ∷ []) ∷ [];
      waiting = [];
    }
unfolding lookup get
send_each-on_open_example =
    send_each-on_open listing other own 9 ((1 ∷ []) ∷ (2 ∷ []) ∷ []) silent (inl refl) refl

abbrev listening : Receives listing
listening = record { transporter = offered; waiting = []; received = [] }

-- Two calls wait, and both return the message.
recv_times-queue_and_emit_message_example :
    let u =
      queue_and_emit_message listing other own
        (1 ∷ [])
        (recv_times listing 2 other own listening) in
    (u.received ≡ (other, own, ok (1 ∷ [])) ∷ (other, own, ok (1 ∷ [])) ∷ [])
    × (u.waiting ≡ [])
    × (lookup other own u.transporter.queued_messages ≡ some [])
unfolding lookup get
recv_times-queue_and_emit_message_example =
    recv_times-queue_and_emit_message listing other own 1 7 (1 ∷ []) listening refl refl refl
