-- ===== src/Signaling/Server/Process/Heartbeat.antt =====
-- The ping interval: which sockets are terminated, and when.
use unisockets.Prelude.{
  ◌≡◌, refl, List, [], ◌∷◌, ◌++◌, Bool, true, false, not, ◌||◌, ◌&&◌, Option, some, Text, All,
  arith, subst, nat_key, nat_beq_iff, ◌==◌,
}
use unisockets.Map.{Map, get, keys, contains, Distinct}
use unisockets.Map.Laws.{get-set, get-delete, has-get}
use unisockets.Map.Keys.{keys-set-Distinct, keys-delete-Distinct, contains-keys}
use unisockets.Signaling.Errors.{Result}
use unisockets.Signaling.Operation.{Operation}
use unisockets.Signaling.Service.{RawOperation, ReceivedOperation}
use unisockets.Signaling.Server.Action.{Socket}
use unisockets.Signaling.Server.Process.{
  Process, Event, connection, pong, message, closed, tick, on_event, on_events, on_connection,
  on_pong, on_message, on_closed, on_tick, check_peer, check_peers,
}

-- Whether the socket answers a ping among these events.
abbrev pub answers : Socket → List Event → Bool
answers w [] = false
answers w (pong v ∷ es) = v == w || answers w es
answers w (_ ∷ es) = answers w es

abbrev pub answers_each : Socket → List (List Event) → Bool
answers_each w [] = true
answers_each w (es ∷ rounds) = answers w es && answers_each w rounds

-- The socket stays connected, and the interval does not fire.
abbrev pub IsQuiet : Socket → Event → Type 0
IsQuiet w (connection v) = (v == w) ≡ false
IsQuiet w (closed v) = (v == w) ≡ false
IsQuiet w tick = true ≡ false
IsQuiet w _ = Unit

contains-append :
    (w : Socket) (l k : List Socket) → contains w (l ++ k) ≡ (contains w l || contains w k)
unfolding contains
contains-append w [] k = refl
contains-append w (v ∷ l) k = ground (arith, contains-append w l k)

-- What the interval leaves of a socket.
abbrev is_silent : Option Bool → Bool
is_silent (some false) = true
is_silent _ = false

abbrev after_tick : Option Bool → Option Bool → Option Bool
after_tick (some true) o = some false
after_tick _ o = o

get-check_peers :
    (w : Socket) (m : Map Socket Bool) (p : Process)
    → Distinct (keys m)
    → get w (check_peers m p).peers ≡ after_tick (get w m) (get w p.peers)
unfolding check_peers check_peer get keys
get-check_peers w [] p d = refl
get-check_peers w ((v, true) ∷ m) p d = ground (
  arith,
  get-check_peers w m (check_peer v true p) d.1,
  get-set v w false p.peers,
  contains-keys v m,
  has-get v m,
  nat_beq_iff v w,
)
get-check_peers w ((v, false) ∷ m) p d = ground (
  arith,
  get-check_peers w m (check_peer v false p) d.1,
  contains-keys v m,
  has-get v m,
  nat_beq_iff v w,
)

terminated-check_peers :
    (w : Socket) (m : Map Socket Bool) (p : Process)
    → Distinct (keys m)
    → contains w (check_peers m p).terminated ≡ (contains w p.terminated || is_silent (get w m))
unfolding check_peers check_peer get keys contains
terminated-check_peers w [] p d = ground arith
terminated-check_peers w ((v, true) ∷ m) p d = ground (
  arith,
  terminated-check_peers w m (check_peer v true p) d.1,
  contains-keys v m,
  has-get v m,
  nat_beq_iff v w,
)
terminated-check_peers w ((v, false) ∷ m) p d = ground (
  arith,
  terminated-check_peers w m (check_peer v false p) d.1,
  contains-append w p.terminated (v ∷ []),
  contains-keys v m,
  has-get v m,
  nat_beq_iff v w,
)

pub check_peers-Distinct :
    (m : Map Socket Bool) (p : Process)
    → Distinct (keys p.peers)
    → Distinct (keys (check_peers m p).peers)
unfolding check_peers check_peer
check_peers-Distinct [] p d = d
check_peers-Distinct ((v, true) ∷ m) p d =
    check_peers-Distinct m (check_peer v true p) (keys-set-Distinct v false p.peers d)
check_peers-Distinct ((v, false) ∷ m) p d = check_peers-Distinct m (check_peer v false p) d

-- What the interval knows of a socket, and whether it was terminated.
pub record Beats (w : Socket) (is_alive gone : Bool) (p : Process) : Type 0 where
  pub flag : get w p.peers ≡ some is_alive
  pub terminated : contains w p.terminated ≡ gone
  pub once : Distinct (keys p.peers)

on_tick-Beats :
    (w : Socket) (b g : Bool) (p : Process) → Beats w b g p → Beats w false (g || not b) (on_tick p)
unfolding on_tick
on_tick-Beats w b g p h = record {
  flag = ground (arith, get-check_peers w p.peers p h.once, h.flag);
  terminated = ground (arith, terminated-check_peers w p.peers p h.once, h.flag, h.terminated);
  once = check_peers-Distinct p.peers p h.once;
}

on_pong-Beats :
    (w v : Socket) (b g : Bool) (p : Process)
    → Beats w b g p
    → Beats w (b || v == w) g (on_pong v p)
unfolding on_pong
on_pong-Beats w v b g p h = record {
  flag = ground (arith, get-set v w true p.peers, has-get v p.peers, nat_beq_iff v w, h.flag);
  terminated = h.terminated;
  once = ground (arith, keys-set-Distinct v true p.peers h.once, h.once);
}

on_connection-Beats :
    (w v : Socket) (b g : Bool) (p : Process)
    → (v == w) ≡ false
    → Beats w b g p
    → Beats w b g (on_connection v p)
unfolding on_connection
on_connection-Beats w v b g p e h = record {
  flag = ground (arith, get-set v w true p.peers, e, h.flag);
  terminated = h.terminated;
  once = keys-set-Distinct v true p.peers h.once;
}

on_closed-Beats :
    (w v : Socket) (b g : Bool) (p : Process)
    → (v == w) ≡ false
    → Beats w b g p
    → Beats w b g (on_closed v p)
unfolding on_closed
on_closed-Beats w v b g p e h = record {
  flag = ground (arith, get-delete v w p.peers, e, h.flag);
  terminated = h.terminated;
  once = keys-delete-Distinct v p.peers h.once;
}

module _ {D : Type 0} (parse : Text → Result (RawOperation D))
    (cast : ReceivedOperation D → Operation) where
  on_events-Beats :
      (w : Socket) (es : List Event) (b g : Bool) (p : Process)
      → All (IsQuiet w) es
      → Beats w b g p
      → Beats w (b || answers w es) g (on_events parse cast es p)
  unfolding on_events on_event on_message
  on_events-Beats w [] b g p q h = subst (λ x. Beats w x g p) (ground arith) h
  on_events-Beats w (connection v ∷ es) b g p q h =
      on_events-Beats w es b g (on_connection v p) q.1 (on_connection-Beats w v b g p q.0 h)
  on_events-Beats w (pong v ∷ es) b g p q h =
      subst (λ x. Beats w x g (on_events parse cast es (on_pong v p))) (ground arith)
        (on_events-Beats w es (b || v == w) g (on_pong v p) q.1 (on_pong-Beats w v b g p h))
  on_events-Beats w (message v text ∷ es) b g p q h =
      on_events-Beats w es b g (on_message parse cast v text p) q.1
        (record { flag = h.flag; terminated = h.terminated; once = h.once })
  on_events-Beats w (closed v ∷ es) b g p q h =
      on_events-Beats w es b g (on_closed v p) q.1 (on_closed-Beats w v b g p q.0 h)
  on_events-Beats w (tick ∷ es) b g p q h = ground (arith, q.0)

  -- Events up to the next ping, and the ping.
  unfoldable pub turn : List Event → Process → Process
  turn es p = on_event parse cast tick (on_events parse cast es p)

  unfoldable pub turns : List (List Event) → Process → Process
  unfolding turn
  turns [] p = p
  turns (es ∷ rounds) p = turns rounds (turn es p)

  pub turn-Beats :
      (w : Socket) (es : List Event) (b g : Bool) (p : Process)
      → All (IsQuiet w) es
      → Beats w b g p
      → Beats w false (g || not (b || answers w es)) (turn es p)
  unfolding turn on_event
  turn-Beats w es b g p q h =
      on_tick-Beats w (b || answers w es) g (on_events parse cast es p)
        (on_events-Beats w es b g p q h)

  pub turns-Beats :
      (w : Socket) (rounds : List (List Event)) (g : Bool) (p : Process)
      → All (All (IsQuiet w)) rounds
      → Beats w false g p
      → Beats w false (g || not (answers_each w rounds)) (turns rounds p)
  unfolding turns
  turns-Beats w [] g p q h = subst (λ x. Beats w false x p) (ground arith) h
  turns-Beats w (es ∷ rounds) g p q h =
      subst (λ x. Beats w false x (turns rounds (turn es p))) (ground arith)
        (turns-Beats w rounds (g || not (answers w es)) (turn es p) q.1
          (turn-Beats w es false g p q.0 h))

  -- A socket that has just connected and stays connected is terminated within a number of pings
  -- exactly if there is a ping but the last to which it does not answer before the next one.
  -- Conditions: it is marked alive, was not terminated before, and is in the set once.
  pub turns-terminated :
      (w : Socket) (first : List Event) (rounds : List (List Event)) (p : Process)
      → Beats w true false p
      → All (IsQuiet w) first
      → All (All (IsQuiet w)) rounds
      → contains w (turns (first ∷ rounds) p).terminated ≡ not (answers_each w rounds)
  unfolding turns
  turns-terminated w first rounds p h q qs =
      (turns-Beats w rounds false (turn first p) qs
        (turn-Beats w first true false p q h)).terminated
