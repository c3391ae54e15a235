-- ===== src/Signaling/Server/Ownership.antt =====
-- handleAccepting and handleShutdown, by whether the sender has bound the alias.
use unisockets.Prelude.{
  ◌≡◌, refl, ◌⊎◌, inl, inr, true, false, ◌&&◌, ◌++◌, none, some, Text, text_key, ◌==◌,
  if◌then◌else◌, Bool-cases, arith,
}
use unisockets.Map.{get, set, delete}
use unisockets.Map.Laws.{get-set, get-delete}
use unisockets.Signaling.Errors.{Result, ok}
use unisockets.Signaling.Operation.{AcceptingData, ShutdownData}
use unisockets.Signaling.Subnets.{remove_ip_address, remove_tcp_address}
use unisockets.Signaling.Server.Action.{MAlias, Server, ◌>>=◌, broadcast}
use unisockets.Signaling.Server.Handlers.{
  handle_accepting, handle_shutdown, accept_shutdown, reject_shutdown, owns, alias_message,
}
use unisockets.Signaling.Server.Messages.{messages, sending, send_all-sending}
use unisockets.Signaling.Server.Binding.{reply, send-reply}

-- `owns` is the test that the alias is there and has this id.
pub owns_iff :
    (id x : Text) (s : Server) {a : MAlias} → get x s.aliases ≡ some a → owns id x s ≡ (a.id == id)
unfolding owns
owns_iff id x s {a} e = ground arith

pub handle_accepting_owner :
    (d : AcceptingData) (s : Server)
    → owns d.id d.alias s ≡ true
    → handle_accepting d s ≡ (
      ok tt,
      record s { aliases = set d.alias (record { id = d.id; accepting = true }) s.aliases },
    )
unfolding handle_accepting
handle_accepting_owner d s e = rw e

pub handle_accepting_other :
    (d : AcceptingData) (s : Server)
    → owns d.id d.alias s ≡ false
    → handle_accepting d s ≡ (ok tt, s)
unfolding handle_accepting
handle_accepting_other d s e = rw e

-- The state that an accepted shutdown leaves.
abbrev pub shut_down : ShutdownData → Server → Server
shut_down d s = sending (messages s.clients (alias_message d.id d.alias false)) (record s {
  aliases = delete d.alias s.aliases;
  subnets = remove_ip_address d.alias (remove_tcp_address d.alias s.subnets);
})

pub handle_shutdown_owner :
    (d : ShutdownData) (s : Server)
    → owns d.id d.alias s ≡ true
    → handle_shutdown d s ≡ (ok tt, shut_down d s)
unfolding handle_shutdown accept_shutdown ◌>>=◌ broadcast
handle_shutdown_owner d s e = rw e (rw send_all-sending)

pub handle_shutdown_other :
    (d : ShutdownData) (s : Server)
    → owns d.id d.alias s ≡ false
    → handle_shutdown d s ≡ reply (get d.id s.clients) (alias_message d.id d.alias true) s
unfolding handle_shutdown reject_shutdown ◌>>=◌
handle_shutdown_other d s e = rw e (send-reply _ _ s)

-- handleAccepting turns an alias to accepting for its owner, and changes no alias for others.
pub handle_accepting_lem :
    (d : AcceptingData) (s : Server) (x : Text)
    → get x (handle_accepting d s).1.aliases ≡ (
        if d.alias == x && owns d.id d.alias s
        then some (record { id = d.id; accepting = true })
        else get x s.aliases)
handle_accepting_lem d s x = elim (Bool-cases (owns d.id d.alias s)) [
  | inl e ↦
      rw (handle_accepting_owner d s e)
        (ground (arith, e, get-set d.alias x (record { id = d.id; accepting = true }) s.aliases))
  | inr e ↦ rw (handle_accepting_other d s e) (ground (arith, e))
]

-- The two ways in which handleShutdown can end.
abbrev pub ShutsDown : ShutdownData → Server → Result (Unit {0}) × Server → Type 0
ShutsDown d s (r, s') =
    ((owns d.id d.alias s ≡ true)
      × (r ≡ ok tt)
      × ((x : Text) → get x s'.aliases ≡ (if d.alias == x then none else get x s.aliases))
      × (s'.clients ≡ s.clients)
      × (s'.sent ≡ s.sent ++ messages s.clients (alias_message d.id d.alias false)))
    ⊎ ((owns d.id d.alias s ≡ false)
        × ((r, s') ≡ reply (get d.id s.clients) (alias_message d.id d.alias true) s))

-- handleShutdown deletes an alias for its owner and tells every client; for others it changes no
-- alias, no address and no client, and answers the sender alone, or throws if that one is gone.
pub handle_shutdown-ShutsDown :
    (d : ShutdownData) (s : Server) → ShutsDown d s (handle_shutdown d s)
handle_shutdown-ShutsDown d s = elim (Bool-cases (owns d.id d.alias s)) [
  | inl e ↦
      rw (handle_shutdown_owner d s e)
        (inl (e, refl, (λ x. get-delete d.alias x s.aliases), refl, refl))
  | inr e ↦ inr (e, handle_shutdown_other d s e)
]
