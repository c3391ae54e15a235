-- ===== src/Signaling/Server/Concurrent.antt =====
-- Several calls of handleBind at once (services/signaling-server.ts): each stops at the await of
-- claimTCPAddress, before the mutex and after it, and the others go on there.
pub mod Lists
pub mod Claims
pub mod Alone
pub mod Orderly
pub mod Schedules
use unisockets.Prelude.{
  ℕ, zero, suc, ◌≡◌, ◌||◌, Bool, true, false, List, [], ◌∷◌, ◌++◌, map, Option, none, some,
  get_elem?, Text, text_key, if◌then◌else◌,
}
use unisockets.Map.{Map, get, has, set}
use unisockets.Signaling.Errors.{Result, ok, err}
use unisockets.Signaling.Operation.{BindData}
use unisockets.Signaling.Subnets.{claim_tcp_address}
use unisockets.Signaling.Server.Action.{Server, Action, ◌>>=◌, ◌>>◌, modify, on_subnets, broadcast}
use unisockets.Signaling.Server.Handlers.{reject_bind, alias_message}

-- `checked` are the calls that wait for the mutex, and `granted` those whose address was claimed,
-- with `true` for the ones that have gone on to their end.
pub record Ongoing : Type 0 where
  pub server : Server
  pub checked : List BindData
  pub granted : List (BindData × Bool)

-- A call begins; the call at an index of `checked` gets the mutex; the one at an index of `granted`
-- goes on.
pub data Turn : Type 0 where
  begin : BindData → Turn
  claim : ℕ → Turn
  finish : ℕ → Turn

unfoldable pub pick {ℓ} : {A : Type ℓ} → ℕ → List A → Option (A × List A)
pick i [] = none
pick zero (x ∷ xs) = some (x, xs)
pick (suc i) (x ∷ xs) = elim (pick i xs) [ none ↦ none | some r ↦ some (r.0, x ∷ r.1) ]

unfoldable pub mark : ℕ → List (BindData × Bool) → List (BindData × Bool)
mark i [] = []
mark zero (g ∷ l) = (g.0, true) ∷ l
mark (suc i) (g ∷ l) = g ∷ mark i l

-- What is left of handleBind after the claim.
unfoldable pub announce_bind : BindData → Action (Unit {0})
announce_bind d = do
  modify
      (λ s. record s { aliases = set d.alias (record { id = d.id; accepting = false }) s.aliases })
  broadcast (alias_message d.id d.alias true)

unfoldable pub begin_bind : BindData → Ongoing → Ongoing
begin_bind d s =
    if has d.alias s.server.aliases
    then record s { server = (reject_bind d s.server).1 }
    else record s { checked = s.checked ++ d ∷ [] }

-- The body of claimTCPAddress under the mutex; a claim that throws ends its call.
unfoldable pub settle_claim :
    BindData → List BindData → Result (Unit {0}) → Server → Ongoing → Ongoing
settle_claim d others (ok v) server s = record {
  server = server;
  checked = others;
  granted = s.granted ++ (d, false) ∷ [];
}
settle_claim d others (err e) server s = record {
  server = server;
  checked = others;
  granted = s.granted;
}

unfoldable pub claim_bind : Option (BindData × List BindData) → Ongoing → Ongoing
unfolding settle_claim
claim_bind none s = s
claim_bind (some (d, others)) s =
    let (r, server) = on_subnets (claim_tcp_address d.alias) s.server in
    settle_claim d others r server s

unfoldable pub finish_bind : ℕ → Option (BindData × Bool) → Ongoing → Ongoing
unfolding announce_bind mark
finish_bind i none s = s
finish_bind i (some (d, true)) s = s
finish_bind i (some (d, false)) s = record s {
  server = (announce_bind d s.server).1;
  granted = mark i s.granted;
}

unfoldable pub turn : Turn → Ongoing → Ongoing
unfolding begin_bind claim_bind finish_bind pick
turn (begin d) s = begin_bind d s
turn (claim i) s = claim_bind (pick i s.checked) s
turn (finish i) s = finish_bind i (get_elem? s.granted i) s

unfoldable pub turns : List Turn → Ongoing → Ongoing
unfolding turn
turns [] s = s
turns (x ∷ l) s = turns l (turn x s)
