-- ===== src/Signaling/Server/Knocking.antt =====
-- handleKnock: who is told of a new client, and when a knock is refused.
use unisockets.Prelude.{
  ℕ, ◌≤◌, ◌<◌, ◌≡◌, refl, ap, ◌∙◌, ◌⊎◌, inl, inr, true, false, Bool, [], ◌∷◌, ◌++◌, append_assoc,
  Text, text_key, ◌==◌, arith,
}
use unisockets.Map.{set}
use unisockets.Map.Laws.{get-set, ==_refl}
use unisockets.Number.{nat, number_key}
use unisockets.Signaling.Errors.{Result, ok}
use unisockets.Signaling.Operation.{Operation, KnockData}
use unisockets.Signaling.Address.{to_ip_address}
use unisockets.Signaling.Subnets.{Subnets, overflow_id, create_ip_address}
use unisockets.Signaling.Subnets.WellFormed.{IsWellFormed}
use unisockets.Signaling.Subnets.View.{suffix_taken}
use unisockets.Signaling.Subnets.Effects.{TakesSuffix, SameView}
use unisockets.Signaling.Subnets.Allocation.{create_ip_address-CreatesIp}
use unisockets.Signaling.Server.Action.{Socket, Server, ◌>>=◌, send, push}
use unisockets.Signaling.Server.Handlers.{
  handle_knock, answer_knock, admit, acknowledge, register_goodbye,
}
use unisockets.Signaling.Server.Messages.{sending, greetings, greet_all-sending}

-- The text that marks an overflow has no dot, so no address is equal to it.
pub to_ip-ne-overflow : (net : Text) (n : ℕ) → (to_ip_address net (nat n) == overflow_id) ≡ false
unfolding to_ip_address
to_ip-ne-overflow [] n = ground arith
to_ip-ne-overflow (a ∷ []) n = ground arith
to_ip-ne-overflow (a ∷ b ∷ []) n = ground arith
to_ip-ne-overflow (a ∷ b ∷ c ∷ net) n = ground arith

abbrev pub acknowledgement : Text → Bool → Operation
acknowledgement id rejected = Operation.acknowledgement (record { id = id; rejected = rejected })

pub admit_lem :
    (id : Text) (w : Socket) (s : Server)
    → admit id w s ≡ (
      ok tt,
      record (sending (greetings s.clients id) s) {
        clients = set id w s.clients;
        closing = s.closing ++ (w, id) ∷ [];
      },
    )
unfolding admit ◌>>=◌ register_goodbye
admit_lem id w s =
    rw (greet_all-sending s.clients id s) (ground (arith, get-set id id w s.clients, ==_refl id))

-- What a knock does, in the two ways in which it can end.
abbrev pub Knocks : KnockData → Socket → Server → Result (Unit {0}) × Server → Type 0
Knocks d w s (r, s') =
    (((k : ℕ) → k ≤ 255 → suffix_taken d.subnet (nat k) s.subnets ≡ true)
      × (r ≡ ok tt)
      × ((pool : Subnets) × SameView s.subnets pool
          × (s' ≡ record s {
            subnets = pool;
            sent = s.sent ++ (w, acknowledgement overflow_id true) ∷ [];
          })))
    ⊎ ((n : ℕ) × (n ≤ 255)
        × (suffix_taken d.subnet (nat n) s.subnets ≡ false)
        × ((k : ℕ) → k < n → suffix_taken d.subnet (nat k) s.subnets ≡ true)
        × (r ≡ ok tt)
        × ((pool : Subnets) × TakesSuffix d.subnet (nat n) s.subnets pool
            × (s' ≡ record s {
              clients = set (to_ip_address d.subnet (nat n)) w s.clients;
              subnets = pool;
              closing = s.closing ++ (w, to_ip_address d.subnet (nat n)) ∷ [];
              sent =
                  s.sent
                  ++ (w, acknowledgement (to_ip_address d.subnet (nat n)) false)
                    ∷ greetings s.clients (to_ip_address d.subnet (nat n));
            })))

answer_overflow :
    (w : Socket) (s : Server)
    → answer_knock overflow_id w s ≡ (ok tt, sending ((w, acknowledgement overflow_id true) ∷ []) s)
unfolding answer_knock acknowledge send push
answer_overflow w s = refl

answer_address :
    (id : Text) (w : Socket) (s : Server)
    → (id == overflow_id) ≡ false
    → answer_knock id w s ≡ (
      ok tt,
      record s {
        clients = set id w s.clients;
        closing = s.closing ++ (w, id) ∷ [];
        sent = s.sent ++ (w, acknowledgement id false) ∷ greetings s.clients id;
      },
    )
unfolding answer_knock acknowledge send push ◌>>=◌
answer_address id w s e = rw e (
    admit_lem id w (sending ((w, acknowledgement id false) ∷ []) s)
    ∙ ap
        (λ l. (
          ok tt,
          record s { clients = set id w s.clients; closing = s.closing ++ (w, id) ∷ []; sent = l },
        ))
        (append_assoc s.sent ((w, acknowledgement id false) ∷ []) (greetings s.clients id)))

knock_answered :
    (d : KnockData) (w : Socket) (s : Server)
    → handle_knock d w s
      ≡ answer_knock
          (create_ip_address d.subnet s.subnets).0
          w
          (record s { subnets = (create_ip_address d.subnet s.subnets).1 })
unfolding handle_knock ◌>>=◌
knock_answered d w s = refl

-- A knock on a well-formed pool gets the least free address of the subnet: the socket is told
-- first, every other client gets a greeting, and the client and its listener are registered. It
-- is refused, and nobody else told, exactly if the suffixes 0 to 255 are all taken.
pub handle_knock-Knocks :
    (d : KnockData) (w : Socket) (s : Server)
    → IsWellFormed s.subnets
    → Knocks d w s (handle_knock d w s)
handle_knock-Knocks d w s v =
    let t = (create_ip_address d.subnet s.subnets).1 in
    rw (knock_answered d w s) (elim (create_ip_address-CreatesIp d.subnet s.subnets v) [
      | inl (full, e, same) ↦
          rw e
            (rw (answer_overflow w (record s { subnets = t })) (inl (full, refl, (t, same, refl))))
      | inr (n, le, e, free, below, takes) ↦ rw e (
          rw
            (answer_address (to_ip_address d.subnet (nat n)) w (record s { subnets = t })
              (to_ip-ne-overflow d.subnet n))
            (inr (n, le, free, below, refl, (t, takes, refl))))
    ])
