-- ===== src/Transport/Shutdown.antt =====
-- shutdown and close of the transporter.
use unisockets.Prelude.{
  ◌≡◌, refl, [], ◌∷◌, ◌++◌, none, some, Text, text_key, ◌==◌, if◌then◌else◌, arith,
}
use unisockets.Map.{Map, get, get_or, has}
use unisockets.Map.Laws.{get-delete, has-get}
use unisockets.Transport.{Peer, Transporter, lookup, values, shutdown, close_all, close}
use unisockets.Transport.Nested.{lookup-delete}

module _ (peer : Peer) where
  open peer use {Connection}

  -- What of the transporter belongs to a remote id, and what was closed.
  pub record ShutDown (id : Text) (t t' : Transporter peer) : Type 0 where
    pub connections :
        (x : Text) → get x t'.connections ≡ (if id == x then none else get x t.connections)
    pub channels :
        (x l : Text) → lookup x l t'.channels ≡ (if id == x then none else lookup x l t.channels)
    pub messages :
        (x l : Text)
        → lookup x l t'.queued_messages ≡ (if id == x then none else lookup x l t.queued_messages)
    pub candidates :
        (x : Text)
        → get x t'.queued_candidates ≡ (if id == x then none else get x t.queued_candidates)
    pub closed :
        (c : Connection)
        → get id t.connections ≡ some c
        → t'.closed_connections ≡ t.closed_connections ++ c ∷ []
    pub closed_all :
        t'.closed_channels ≡ t.closed_channels ++ values (get_or [] (get id t.channels))

  -- After shutdown nothing under the remote id is left in the four maps, everything else is as it
  -- was, and the connection, if there was one, and all the channels have been closed.
  pub shutdown-ShutDown : (id : Text) (t : Transporter peer) → ShutDown id t (shutdown peer id t)
  unfolding shutdown
  shutdown-ShutDown id t = record {
    connections = λ x. get-delete id x t.connections;
    channels = λ x l. lookup-delete id x l t.channels;
    messages = λ x l. lookup-delete id x l t.queued_messages;
    candidates = λ x. get-delete id x t.queued_candidates;
    closed = λ c e. rw e refl;
    closed_all = refl;
  }

  get-close_all :
      (m : Map Text Connection) (x : Text) (t : Transporter peer)
      → get x (close_all peer m t).connections ≡ (if has x m then none else get x t.connections)
  unfolding close_all has
  get-close_all [] x t = refl
  get-close_all ((id, c) ∷ rest) x t =
      ground
        (arith, get-close_all rest x (shutdown peer id t), (shutdown-ShutDown id t).connections x)

  -- After close no connection is left.
  pub close-empty : (x : Text) (t : Transporter peer) → get x (close peer t).connections ≡ none
  unfolding close
  close-empty x t = ground (arith, get-close_all t.connections x t, has-get x t.connections)
