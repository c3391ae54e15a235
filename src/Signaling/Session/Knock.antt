-- ===== src/Signaling/Session/Knock.antt =====
-- The knock that SignalingClient sends when its socket opens, against handleKnock of the server.
use unisockets.Prelude.{
  Bool, ℕ, ◌≤◌, ◌≡◌, refl, ap, ◌∙◌, true, false, ◌⊎◌, inl, inr, List, [], ◌∷◌, ◌++◌, All, some,
  Text, text_key, ◌==◌, Bool-cases, nat_beq, nat_beq_refl,
}
use unisockets.Map.{Map, get}
use unisockets.Map.Laws.{==_refl, get-set}
use unisockets.Number.{nat}
use unisockets.Signaling.Errors.{Result}
use unisockets.Signaling.Operation.{Operation, KnockData}
use unisockets.Signaling.Address.{to_ip_address}
use unisockets.Signaling.Subnets.{overflow_id}
use unisockets.Signaling.Subnets.WellFormed.{IsWellFormed}
use unisockets.Signaling.Subnets.View.{suffix_taken}
use unisockets.Signaling.Client.{Client, handle_operation, handle_all}
use unisockets.Signaling.Client.Handshake.{inbox}
use unisockets.Signaling.Server.Action.{Socket, Server}
use unisockets.Signaling.Server.Handlers.{handle_knock}
use unisockets.Signaling.Server.Messages.{greetings, greeting_message}
use unisockets.Signaling.Server.Knocking.{Knocks, handle_knock-Knocks, acknowledgement}
use unisockets.Signaling.Session.{inbox_head, inbox_tail}

-- What handleConnect sends.
unfoldable pub knock_data : Text → Text → KnockData
knock_data subnet parent_ws = record { subnet = subnet; parent_ws = parent_ws }

-- The socket is none of the clients'.
abbrev pub IsNew : Socket → Map Text Socket → Type 0
IsNew w m = All (λ e. nat_beq e.1 w ≡ false) m

inbox-greetings :
    (w : Socket) (m : Map Text Socket) (id : Text) → IsNew w m → inbox w (greetings m id) ≡ []
inbox-greetings w [] id h = refl
inbox-greetings w ((existing, v) ∷ rest) id h = elim (Bool-cases (existing == id)) [
  | inl same ↦ rw same (inbox-greetings w rest id h.1)
  | inr other ↦ rw other (
      inbox_tail v w (greeting_message existing id) (greetings rest id) h.0
      ∙ inbox-greetings w rest id h.1)
]

-- The client after what has been sent to its socket.
abbrev pub answered : Socket → Server → Client → Client
answered w s c = (handle_all (inbox w s.sent) c).0

-- The two ways in which a knock can end for the client.
abbrev pub Acknowledged : Text → Socket → Server → Server → Client → Type 0
Acknowledged subnet w s s' c =
    ((n : ℕ) × (n ≤ 255)
      × (suffix_taken subnet (nat n) s.subnets ≡ false)
      × (c ≡ record { id = to_ip_address subnet (nat n); is_connected = true })
      × (get c.id s'.clients ≡ some w))
    ⊎ (((k : ℕ) → k ≤ 255 → suffix_taken subnet (nat k) s.subnets ≡ true)
        × (c ≡ record { id = overflow_id; is_connected = true })
        × (s'.clients ≡ s.clients))

-- The first message to the client decides.
answered-acknowledgement :
    (w : Socket) (id : Text) (rejected : Bool) (l : List (Socket × Operation)) (c : Client)
    → inbox w l ≡ []
    → (handle_all (inbox w ((w, acknowledgement id rejected) ∷ l)) c).0
      ≡ record { id = id; is_connected = true }
unfolding handle_all handle_operation
answered-acknowledgement w id rejected l c rest =
    ap (λ ops. (handle_all ops c).0)
      (inbox_head w w (acknowledgement id rejected) l (nat_beq_refl w)
        ∙ ap (λ ops. acknowledgement id rejected ∷ ops) rest)

acknowledged :
    (d : KnockData) (w : Socket) (s : Server) (r : Result (Unit {0}) × Server) (c : Client)
    → IsNew w s.clients
    → s.sent ≡ []
    → Knocks d w s r
    → Acknowledged d.subnet w s r.1 (answered w r.1 c)
acknowledged d w s r c new fresh (inl (full, e, (pool, same, e'))) = inr (
  full,
  ap (λ t. answered w t c) e'
      ∙ ap (λ l. (handle_all (inbox w (l ++ (w, acknowledgement overflow_id true) ∷ [])) c).0) fresh
      ∙ answered-acknowledgement w overflow_id true [] c refl,
  ap (λ t. t.clients) e',
)
acknowledged d w s r c new fresh (inr (n, le, free, below, e, (pool, takes, e'))) =
    let id = to_ip_address d.subnet (nat n) in
    let known : answered w r.1 c ≡ record { id = id; is_connected = true } =
      ap (λ t. answered w t c) e'
      ∙ ap
          (λ l.
            (handle_all (inbox w (l ++ (w, acknowledgement id false) ∷ greetings s.clients id))
              c).0)
          fresh
      ∙ answered-acknowledgement w id false (greetings s.clients id) c
          (inbox-greetings w s.clients id new) in
    inl (
      n,
      le,
      free,
      known,
      ap (λ k. get k.id r.1.clients) known
          ∙ ap (λ t. get id t.clients) e'
          ∙ get-set id id w s.clients
          ∙ (rw (==_refl id) refl),
    )

-- Once a client has handled what the server sends for the knock of its new socket, its id is a free
-- address of the subnet under which the server has entered its socket; or all suffixes up to 255
-- are taken, and the client still counts as connected, under the id that stands for the overflow,
-- while the server has not entered it. Condition: the pool is well formed, the socket is none of the
-- other clients', and nothing was sent before.
pub knock_data-Acknowledged :
    (subnet parent_ws : Text) (w : Socket) (s : Server) (c : Client)
    → IsWellFormed s.subnets
    → IsNew w s.clients
    → s.sent ≡ []
    → let s' = (handle_knock (knock_data subnet parent_ws) w s).1 in
      Acknowledged subnet w s s' (answered w s' c)
unfolding knock_data
knock_data-Acknowledged subnet parent_ws w s c pool new fresh =
    let d = knock_data subnet parent_ws in
    acknowledged d w s (handle_knock d w s) c new fresh (handle_knock-Knocks d w s pool)
