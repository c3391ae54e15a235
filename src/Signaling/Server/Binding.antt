-- ===== src/Signaling/Server/Binding.antt =====
-- handleBind, by whether the alias is taken and what claimTCPAddress answers.
use unisockets.Prelude.{
  ◌≡◌, refl, ◌⊎◌, inl, inr, true, false, [], ◌∷◌, ◌++◌, Option, none, some, Text, text_key, ◌==◌,
  if◌then◌else◌, Bool-cases,
}
use unisockets.Map.{get, has, set}
use unisockets.Map.Laws.{get-set}
use unisockets.Signaling.Errors.{
  Result, ok, err, client_closed, port_already_allocated, subnet_does_not_exist,
}
use unisockets.Signaling.Operation.{Operation, BindData}
use unisockets.Signaling.Address.{parse_ip_address, parse_tcp_address}
use unisockets.Signaling.Subnets.{Subnets, claim_tcp_address}
use unisockets.Signaling.Subnets.WellFormed.{IsWellFormed}
use unisockets.Signaling.Subnets.Preservation.{IsTcpAddress}
use unisockets.Signaling.Subnets.View.{port_taken}
use unisockets.Signaling.Subnets.Effects.{TakesPort, SameView, SameView-refl}
use unisockets.Signaling.Subnets.Ports.{ClaimsTcp, claim_tcp_address-ClaimsTcp}
use unisockets.Signaling.Server.Action.{
  Socket, Server, ◌>>=◌, ◌>>◌, continue, modify, send, push, broadcast,
}
use unisockets.Signaling.Server.Handlers.{handle_bind, reject_bind, accept_bind, alias_message}
use unisockets.Signaling.Server.Messages.{messages, sending, send_all-sending}

-- What `send` does: one message to a socket that is there, a throw otherwise.
abbrev pub reply : Option Socket → Operation → Server → Result (Unit {0}) × Server
reply none op s = (err client_closed, s)
reply (some w) op s = (ok tt, sending ((w, op) ∷ []) s)

pub send-reply : (w : Option Socket) (op : Operation) (s : Server) → send w op s ≡ reply w op s
unfolding send push
send-reply none op s = refl
send-reply (some w) op s = refl

-- The alias was free, and is now bound by this client, not accepting; every client is told.
pub record Bound (d : BindData) (s s' : Server) : Type 0 where
  pub alias :
      (x : Text)
      → get x s'.aliases
        ≡ (if d.alias == x then some (record { id = d.id; accepting = false }) else get x s.aliases)
  pub clients : s'.clients ≡ s.clients
  pub told : s'.sent ≡ s.sent ++ messages s.clients (alias_message d.id d.alias true)
  pub pool :
      TakesPort
        (parse_ip_address (parse_tcp_address d.alias).ip_address).subnet
        (parse_ip_address (parse_tcp_address d.alias).ip_address).suffix
        (parse_tcp_address d.alias).port
        s.subnets
        s'.subnets

-- Nothing but the pool's representation changed, and nothing was sent.
pub record Untouched (s s' : Server) : Type 0 where
  pub aliases : s'.aliases ≡ s.aliases
  pub clients : s'.clients ≡ s.clients
  pub told : s'.sent ≡ s.sent
  pub pool : SameView s.subnets s'.subnets

-- The four ways in which handleBind can end, each with the condition under which it does.
abbrev pub Binds : BindData → Server → Result (Unit {0}) × Server → Type 0
Binds d s (r, s') =
    let t = parse_tcp_address d.alias in
    let a = parse_ip_address t.ip_address in
    ((has d.alias s.aliases ≡ true)
      × ((r, s') ≡ reply (get d.id s.clients) (alias_message d.id d.alias false) s))
    ⊎ ((has d.alias s.aliases ≡ false)
        × (has a.subnet s.subnets ≡ true)
        × (port_taken a.subnet a.suffix t.port s.subnets ≡ false)
        × (r ≡ ok tt)
        × Bound d s s')
    ⊎ ((has d.alias s.aliases ≡ false)
        × (port_taken a.subnet a.suffix t.port s.subnets ≡ true)
        × (r ≡ err port_already_allocated)
        × Untouched s s')
    ⊎ ((has d.alias s.aliases ≡ false)
        × (has a.subnet s.subnets ≡ false)
        × (r ≡ err subnet_does_not_exist)
        × Untouched s s')

reject_bind-reply :
    (d : BindData) (s : Server)
    → reject_bind d s ≡ reply (get d.id s.clients) (alias_message d.id d.alias false) s
unfolding reject_bind ◌>>=◌
reject_bind-reply d s = send-reply _ _ s

-- What accept_bind makes of the result of the claim.
after_claim : BindData → Server → Result (Unit {0}) × Subnets → Result (Unit {0}) × Server
after_claim d s (ok _, t) = (
  ok tt,
  sending (messages s.clients (alias_message d.id d.alias true)) (record s {
    subnets = t;
    aliases = set d.alias (record { id = d.id; accepting = false }) s.aliases;
  }),
)
after_claim d s (err e, t) = (err e, record s { subnets = t })

continue_claim :
    (d : BindData) (s : Server) (r : Result (Unit {0})) (t : Subnets)
    → continue
        (λ _.
          modify (λ u. record u {
            aliases = set d.alias (record { id = d.id; accepting = false }) u.aliases;
          })
          >> broadcast (alias_message d.id d.alias true))
        (r, record s { subnets = t })
      ≡ after_claim d s (r, t)
unfolding ◌>>=◌ broadcast after_claim
continue_claim d s (ok _) t = rw send_all-sending
continue_claim d s (err e) t = refl

accept_bind-after_claim :
    (d : BindData) (s : Server)
    → accept_bind d s ≡ after_claim d s (claim_tcp_address d.alias s.subnets)
unfolding accept_bind ◌>>=◌
accept_bind-after_claim d s =
    continue_claim d s (claim_tcp_address d.alias s.subnets).0
      (claim_tcp_address d.alias s.subnets).1

-- A claim that is refused leaves everything as it was; one that succeeds binds the alias.
after_claim-Binds :
    (d : BindData) (s : Server) (r : Result (Unit {0})) (t : Subnets)
    → has d.alias s.aliases ≡ false
    → ClaimsTcp d.alias s.subnets (r, t)
    → Binds d s (after_claim d s (r, t))
unfolding after_claim
after_claim-Binds d s (ok _) t free (inl (e, known, open_port, takes)) = inr (
    inl (
      free,
      known,
      open_port,
      refl,
      record {
        alias = λ x. get-set d.alias x (record { id = d.id; accepting = false }) s.aliases;
        clients = refl;
        told = refl;
        pool = takes;
      },
    ))
after_claim-Binds d s (ok _) t free (inr (inl (e, held, same))) = cc
after_claim-Binds d s (ok _) t free (inr (inr (e, unknown, same))) = cc
after_claim-Binds d s (err x) t free (inl (e, known, open_port, takes)) = cc
after_claim-Binds d s (err x) t free (inr (inl (e, held, same))) =
    inr (
      inr
        (inl (free, held, e, record { aliases = refl; clients = refl; told = refl; pool = same })))
after_claim-Binds d s (err x) t free (inr (inr (e, unknown, same))) = inr (
    inr (
      inr (
        free,
        unknown,
        e,
        record {
          aliases = refl;
          clients = refl;
          told = refl;
          pool = rw same (SameView-refl s.subnets);
        },
      )))

handle_bind_taken :
    (d : BindData) (s : Server)
    → has d.alias s.aliases ≡ true
    → handle_bind d s ≡ reply (get d.id s.clients) (alias_message d.id d.alias false) s
unfolding handle_bind
handle_bind_taken d s taken = rw taken (reject_bind-reply d s)

handle_bind_free :
    (d : BindData) (s : Server)
    → has d.alias s.aliases ≡ false
    → handle_bind d s ≡ after_claim d s (claim_tcp_address d.alias s.subnets)
unfolding handle_bind
handle_bind_free d s free = rw free (accept_bind-after_claim d s)

-- handleBind: an alias that is taken is refused with one message to the sender, or, if the sender is
-- gone, the handler throws with nothing changed and nothing sent; a free one whose subnet is there and
-- whose port is not taken is bound with its port and announced to every client; and if the port is
-- taken or the subnet is not there, the handler throws with nothing sent, and the aliases, the clients
-- and what the pool holds as taken stay as they were.
-- Conditions: the alias has a natural suffix and port, and the pool is well formed.
pub handle_bind-Binds :
    (d : BindData) (s : Server)
    → IsTcpAddress d.alias
    → IsWellFormed s.subnets
    → Binds d s (handle_bind d s)
handle_bind-Binds d s valid v = elim (Bool-cases (has d.alias s.aliases)) [
  | inl taken ↦ inl (taken, handle_bind_taken d s taken)
  | inr free ↦ rw (handle_bind_free d s free) (
      after_claim-Binds d s (claim_tcp_address d.alias s.subnets).0 _ free
        (claim_tcp_address-ClaimsTcp d.alias s.subnets valid v))
]
