-- ===== src/Signaling/Server/Concurrent/Claims.antt =====
-- What a claim does to the ports of the aliases that calls of handleBind ask for.
use unisockets.Prelude.{
  ◌≡◌, refl, ap, ◌∙◌, inl, inr, Bool, true, false, List, [], ◌∷◌, All, Text, text_key, text_beq_iff,
  ◌==◌, arith, Bool-cases,
}
use unisockets.Map.{contains}
use unisockets.Number.{number_beq_iff}
use unisockets.Signaling.Errors.{Result, ok, err}
use unisockets.Signaling.Operation.{BindData}
use unisockets.Signaling.Address.{parse_ip_address, parse_tcp_address}
use unisockets.Signaling.Subnets.{Subnets}
use unisockets.Signaling.Subnets.View.{port_taken}
use unisockets.Signaling.Subnets.Ports.{ClaimsTcp}
use unisockets.Signaling.Server.Concurrent.Lists.{names}

-- The port of the alias's address is taken.
unfoldable pub is_held : Text → Subnets → Bool
is_held t s =
    let a = parse_ip_address (parse_tcp_address t).ip_address in
    port_taken a.subnet a.suffix (parse_tcp_address t).port s

-- What claimTCPAddress does to the aliases' ports: they stay taken, and the claimed one was free and
-- is taken now, or the claim has thrown.
abbrev pub Claimed : Text → Subnets → Result (Unit {0}) × Subnets → Type 0
Claimed t s (ok v, s') = (is_held t s ≡ false) × (is_held t s' ≡ true)
Claimed t s (err e, s') = Unit

pub claim-Claimed :
    (t : Text) (s : Subnets) (r : Result (Unit {0}) × Subnets) → ClaimsTcp t s r → Claimed t s r
unfolding is_held
claim-Claimed t s (ok v, s') (inl (e, known, free, takes)) =
    let a = parse_ip_address (parse_tcp_address t).ip_address in
    let port = (parse_tcp_address t).port in
    (
      free,
      takes.ports a.subnet a.suffix port
          ∙ ground (
            arith,
            text_beq_iff a.subnet a.subnet,
            number_beq_iff a.suffix a.suffix,
            number_beq_iff port port,
          ),
    )
claim-Claimed t s (ok v, s') (inr (inl (e, taken, same))) = cc
claim-Claimed t s (ok v, s') (inr (inr (e, unknown, same))) = cc
claim-Claimed t s (err e, s') h = tt

pub claim-held :
    (t : Text) (s : Subnets) (r : Result (Unit {0}) × Subnets) (x : Text)
    → ClaimsTcp t s r
    → is_held x s ≡ true
    → is_held x r.1 ≡ true
unfolding is_held
claim-held t s r x (inl (e, known, free, takes)) h =
    let a = parse_ip_address (parse_tcp_address x).ip_address in
    takes.ports a.subnet a.suffix (parse_tcp_address x).port ∙ ground (arith, h)
claim-held t s r x (inr (inl (e, taken, same))) h =
    let a = parse_ip_address (parse_tcp_address x).ip_address in
    same.ports a.subnet a.suffix (parse_tcp_address x).port ∙ h
claim-held t s r x (inr (inr (e, unknown, same))) h = ap (is_held x) same ∙ h

-- A name that is not held is not among those that are.
pub not_held-contains :
    (x : Text) (s : Subnets) (l : List (BindData × Bool))
    → is_held x s ≡ false
    → All (λ g. is_held g.0.alias s ≡ true) l
    → contains x (names l) ≡ false
unfolding contains
not_held-contains x s [] h all = refl
not_held-contains x s (g ∷ l) h all = elim (Bool-cases (g.0.alias == x)) [
  | inl same ↦ ground (arith, h, all.0, ap (λ k. is_held k s) ((text_beq_iff g.0.alias x).0 same))
  | inr other ↦ ground (arith, other, not_held-contains x s l h all.1)
]
