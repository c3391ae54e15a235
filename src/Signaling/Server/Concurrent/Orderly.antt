-- ===== src/Signaling/Server/Concurrent/Orderly.antt =====
-- The invariant of calls of handleBind under way, and the claim.
use unisockets.Prelude.{
  ℕ, ◌≡◌, refl, sym, ap, ◌∙◌, subst, ◌⊎◌, inl, inr, Bool, true, false, List, [], ◌∷◌, ◌++◌, All,
  Option, none, some, Text, text_key, text_beq_iff, ◌==◌, arith, Bool-cases,
}
use unisockets.Map.{Map, has, set, contains, Distinct}
use unisockets.Map.Keys.{has-set}
use unisockets.Signaling.Errors.{Result, ok, err}
use unisockets.Signaling.Operation.{BindData}
use unisockets.Signaling.Subnets.{Subnets, claim_tcp_address}
use unisockets.Signaling.Subnets.WellFormed.{IsWellFormed}
use unisockets.Signaling.Subnets.Preservation.{IsTcpAddress, claim_tcp_address-IsWellFormed}
use unisockets.Signaling.Subnets.Ports.{ClaimsTcp, claim_tcp_address-ClaimsTcp}
use unisockets.Signaling.Server.Action.{Server, MAlias, zoom}
use unisockets.Signaling.Server.Concurrent.{Ongoing, mark, settle_claim, claim_bind}
use unisockets.Signaling.Server.Concurrent.Lists.{
  All-append, All-weaken, Given, contains-append_one, Distinct-append_one, names, names-append,
  names-mark, Unset,
}
use unisockets.Signaling.Server.Concurrent.Claims.{
  is_held, claim-Claimed, claim-held, not_held-contains,
}

-- The alias of a call that waits is not set, or another call with the same alias was granted.
abbrev pub Fresh : Map Text MAlias → List (BindData × Bool) → BindData → Type 0
Fresh aliases granted d = (has d.alias aliases ≡ false) ⊎ (contains d.alias (names granted) ≡ true)

-- The granted calls hold their ports, their aliases are distinct, and those that have not come to
-- their end find their alias not set.
pub record IsOrderly (server : Server) (checked : List BindData) (granted : List (BindData × Bool))
    : Type 0 where
  pub pool : IsWellFormed server.subnets
  pub natural : All (λ d. IsTcpAddress d.alias) checked
  pub fresh : All (Fresh server.aliases granted) checked
  pub held : All (λ g. is_held g.0.alias server.subnets ≡ true) granted
  pub distinct : Distinct (names granted)
  pub unset : All (Unset server.aliases) granted

abbrev pub Orderly : Ongoing → Type 0
Orderly s = IsOrderly s.server s.checked s.granted

-- Another granted call leaves a waiting one fresh.
Fresh-append :
    (aliases : Map Text MAlias) (granted : List (BindData × Bool)) (g : BindData × Bool)
    (d : BindData)
    → Fresh aliases granted d
    → Fresh aliases (granted ++ g ∷ []) d
Fresh-append aliases granted g d (inl free) = inl free
Fresh-append aliases granted g d (inr there) = inr (
    ap (contains d.alias) (names-append granted g)
    ∙ contains-append_one d.alias g.0.alias (names granted)
    ∙ (rw there refl))

-- Once a granted call sets its alias, a waiting one with that alias counts on the granted call.
pub Fresh-set :
    (x : Text) (v : MAlias) (aliases : Map Text MAlias) (i : ℕ) (granted : List (BindData × Bool))
    (d : BindData)
    → contains x (names granted) ≡ true
    → Fresh aliases granted d
    → Fresh (set x v aliases) (mark i granted) d
Fresh-set x v aliases i granted d there (inr known) =
    inr (ap (contains d.alias) (names-mark i granted) ∙ known)
Fresh-set x v aliases i granted d there (inl free) = elim (Bool-cases (x == d.alias)) [
  | inl same ↦ inr (
      ap (contains d.alias) (names-mark i granted)
      ∙ ap (λ k. contains k (names granted)) (sym ((text_beq_iff x d.alias).0 same))
      ∙ there)
  | inr other ↦ inl (has-set x d.alias v aliases ∙ (rw (other, free) refl))
]

settle_claim-Orderly :
    (d : BindData) (others : List BindData) (r : Result (Unit {0})) (t : Subnets) (s : Ongoing)
    → ClaimsTcp d.alias s.server.subnets (r, t)
    → IsWellFormed t
    → All (λ c. IsTcpAddress c.alias) others
    → Fresh s.server.aliases s.granted d
    → All (Fresh s.server.aliases s.granted) others
    → Orderly s
    → Orderly (settle_claim d others r (record s.server { subnets = t }) s)
unfolding settle_claim
settle_claim-Orderly d others (err e) t s c pool natural first fresh h = record {
  pool = pool;
  natural = natural;
  fresh = fresh;
  held =
      All-weaken s.granted (λ g. claim-held d.alias s.server.subnets (err e, t) g.0.alias c) h.held;
  distinct = h.distinct;
  unset = h.unset;
}
settle_claim-Orderly d others (ok v) t s c pool natural first fresh h =
    let (free, taken) = claim-Claimed d.alias s.server.subnets (ok v, t) c in
    let new : contains d.alias (names s.granted) ≡ false =
      not_held-contains d.alias s.server.subnets s.granted free h.held in
    let free_alias : has d.alias s.server.aliases ≡ false = elim first [
      | inl yet ↦ yet
      | inr there ↦ ground (arith, new, there)
    ] in
    record {
      pool = pool;
      natural = natural;
      fresh = All-weaken others (λ e. Fresh-append s.server.aliases s.granted (d, false) e) fresh;
      held =
          All-append _ s.granted (d, false)
            (All-weaken s.granted (λ g. claim-held d.alias s.server.subnets (ok v, t) g.0.alias c)
              h.held)
            taken;
      distinct =
          subst Distinct (sym (names-append s.granted (d, false)))
            (Distinct-append_one d.alias (names s.granted) h.distinct new);
      unset = All-append _ s.granted (d, false) h.unset (inr free_alias);
    }

pub claim_bind-Orderly :
    (o : Option (BindData × List BindData)) (s : Ongoing)
    → Given (λ r. IsTcpAddress r.0.alias × All (λ d. IsTcpAddress d.alias) r.1) o
    → Given
        (λ r. Fresh s.server.aliases s.granted r.0 × All (Fresh s.server.aliases s.granted) r.1)
        o
    → Orderly s
    → Orderly (claim_bind o s)
unfolding claim_bind zoom
claim_bind-Orderly none s n f h = h
claim_bind-Orderly (some (d, others)) s n f h =
    let r = claim_tcp_address d.alias s.server.subnets in
    settle_claim-Orderly d others r.0 r.1 s
      (claim_tcp_address-ClaimsTcp d.alias s.server.subnets n.0 h.pool)
      (claim_tcp_address-IsWellFormed d.alias n.0 h.pool) n.1 f.0 f.1 h
