-- ===== src/Signaling/Server/Concurrent/Schedules.antt =====
-- However calls of handleBind interleave, no alias is bound twice.
use unisockets.Prelude.{
  ℕ, zero, suc, ◌≡◌, refl, sym, ap, subst, inl, inr, Bool, true, false, List, [], ◌∷◌, All, Option,
  none, some, get_elem?, text_key, Bool-cases,
}
use unisockets.Map.{get, has, set, contains, Distinct}
use unisockets.Signaling.Operation.{BindData}
use unisockets.Signaling.Subnets.{Subnets}
use unisockets.Signaling.Subnets.WellFormed.{IsWellFormed}
use unisockets.Signaling.Subnets.Preservation.{IsTcpAddress}
use unisockets.Signaling.Server.Action.{Server, MAlias, gets, modify, broadcast, ◌>>=◌}
use unisockets.Signaling.Server.Handlers.{reject_bind, alias_message}
use unisockets.Signaling.Server.Messages.{send_all-sending}
use unisockets.Signaling.Server.Binding.{reply, send-reply}
use unisockets.Signaling.Server.Concurrent.{
  Ongoing, Turn, begin, claim, finish, pick, mark, announce_bind, begin_bind, finish_bind, turn,
  turns,
}
use unisockets.Signaling.Server.Concurrent.Lists.{
  All-append, All-weaken, Given, pick-Given, names, names-mark, names-Given, Unset, mark-Unset,
}
use unisockets.Signaling.Server.Concurrent.Claims.{is_held}
use unisockets.Signaling.Server.Concurrent.Orderly.{
  IsOrderly, Orderly, Fresh, Fresh-set, claim_bind-Orderly,
}

-- The parts of the server that the calls stand on.
Same : Server → Server → Type 0
Same s t = (t.subnets ≡ s.subnets) × (t.aliases ≡ s.aliases)

reply-Same :
    (o : Option ℕ) (d : BindData) (s : Server)
    → Same s (reply o (alias_message d.id d.alias false) s).1
unfolding Same
reply-Same none d s = (refl, refl)
reply-Same (some w) d s = (refl, refl)

reject_bind-Same : (d : BindData) (s : Server) → Same s (reject_bind d s).1
unfolding reject_bind gets ◌>>=◌
reject_bind-Same d s =
    subst (λ r. Same s r.1)
      (sym (send-reply (get d.id s.clients) (alias_message d.id d.alias false) s))
      (reply-Same (get d.id s.clients) d s)

Orderly-Same :
    (s : Server) (t : Server) (checked : List BindData) (granted : List (BindData × Bool))
    → Same s t
    → IsOrderly s checked granted
    → IsOrderly t checked granted
unfolding Same
Orderly-Same s t checked granted (subnets, aliases) h = record {
  pool = subst IsWellFormed (sym subnets) h.pool;
  natural = h.natural;
  fresh = subst (λ a. All (Fresh a granted) checked) (sym aliases) h.fresh;
  held = subst (λ a. All (λ g. is_held g.0.alias a ≡ true) granted) (sym subnets) h.held;
  distinct = h.distinct;
  unset = subst (λ a. All (Unset a) granted) (sym aliases) h.unset;
}

begin_bind-Orderly :
    (d : BindData) (s : Ongoing) → IsTcpAddress d.alias → Orderly s → Orderly (begin_bind d s)
unfolding begin_bind
begin_bind-Orderly d s natural h = elim (Bool-cases (has d.alias s.server.aliases)) [
  | inl set_already ↦ rw set_already (
      Orderly-Same s.server (reject_bind d s.server).1 s.checked s.granted
        (reject_bind-Same d s.server) h)
  | inr free ↦ rw free record {
    pool = h.pool;
    natural = All-append _ s.checked d h.natural natural;
    fresh = All-append _ s.checked d h.fresh (inl free);
    held = h.held;
    distinct = h.distinct;
    unset = h.unset;
  }
]

mark-held :
    (i : ℕ) (l : List (BindData × Bool)) (s : Subnets)
    → All (λ g. is_held g.0.alias s ≡ true) l
    → All (λ g. is_held g.0.alias s ≡ true) (mark i l)
unfolding mark
mark-held i [] s h = tt
mark-held zero (g ∷ l) s h = h
mark-held (suc i) (g ∷ l) s h = (h.0, mark-held i l s h.1)

announce_bind-Same :
    (d : BindData) (s : Server)
    → Same
        (record s { aliases = set d.alias (record { id = d.id; accepting = false }) s.aliases })
        (announce_bind d s).1
unfolding announce_bind broadcast modify ◌>>=◌ Same
announce_bind-Same d s =
    let s' : Server = record s {
      aliases = set d.alias (record { id = d.id; accepting = false }) s.aliases;
    } in
    let told = send_all-sending s.clients (alias_message d.id d.alias true) s' in
    (ap (λ x. x.subnets) told, ap (λ x. x.aliases) told)

abbrev bound_by : BindData → MAlias
bound_by d = record { id = d.id; accepting = false }

finish_bind-Orderly :
    (i : ℕ) (o : Option (BindData × Bool)) (s : Ongoing)
    → Given (λ g. contains g.0.alias (names s.granted) ≡ true) o
    → Given (λ g. All (Unset (set g.0.alias (bound_by g.0) s.server.aliases)) (mark i s.granted)) o
    → Orderly s
    → Orderly (finish_bind i o s)
unfolding finish_bind
finish_bind-Orderly i none s there rest h = h
finish_bind-Orderly i (some (d, true)) s there rest h = h
finish_bind-Orderly i (some (d, false)) s there rest h =
    Orderly-Same _ (announce_bind d s.server).1 s.checked (mark i s.granted)
      (announce_bind-Same d s.server)
      record {
        pool = h.pool;
        natural = h.natural;
        fresh =
            All-weaken s.checked
              (λ e. Fresh-set d.alias (bound_by d) s.server.aliases i s.granted e there) h.fresh;
        held = mark-held i s.granted s.server.subnets h.held;
        distinct = subst Distinct (sym (names-mark i s.granted)) h.distinct;
        unset = rest;
      }

-- The aliases of the calls that begin have a natural suffix and port.
abbrev pub Natural : Turn → Type 0
Natural (begin d) = IsTcpAddress d.alias
Natural (claim i) = Unit
Natural (finish i) = Unit

turn-Orderly : (x : Turn) (s : Ongoing) → Natural x → Orderly s → Orderly (turn x s)
unfolding turn
turn-Orderly (begin d) s n h = begin_bind-Orderly d s n h
turn-Orderly (claim i) s n h =
    claim_bind-Orderly (pick i s.checked) s (pick-Given _ i s.checked h.natural)
      (pick-Given _ i s.checked h.fresh) h
turn-Orderly (finish i) s n h =
    finish_bind-Orderly i (get_elem? s.granted i) s (names-Given i s.granted)
      (mark-Unset bound_by s.server.aliases i s.granted h.distinct h.unset) h

turns-Orderly : (l : List Turn) (s : Ongoing) → All Natural l → Orderly s → Orderly (turns l s)
unfolding turns
turns-Orderly [] s n h = h
turns-Orderly (x ∷ l) s n h = turns-Orderly l (turn x s) n.1 (turn-Orderly x s n.0 h)

-- From a server with a well-formed pool and no call of handleBind under way, in whatever order calls
-- of it begin, claim and go on: the aliases of the calls whose claim is granted are distinct, their
-- ports are taken, and each finds its alias not set until it sets it itself. Condition: the aliases
-- have a natural suffix and port.
pub turns-IsOrderly :
    (l : List Turn) (s : Server)
    → IsWellFormed s.subnets
    → All Natural l
    → let t = turns l (record { server = s; checked = []; granted = [] }) in
      IsOrderly t.server t.checked t.granted
turns-IsOrderly l s pool natural =
    turns-Orderly l _ natural
      (record { pool = pool; natural = tt; fresh = tt; held = tt; distinct = tt; unset = tt })
