-- ===== src/Signaling/Subnets/Calls/Nets.antt =====
-- Which subnets are known after each method: a new address makes its subnet known, and nothing else
-- changes them.
use unisockets.Prelude.{
  ◌≡◌, refl, ◌||◌, Text, text_key, text_beq_iff, ◌==◌, arith, Bool-cases, inl, inr, ltb, some, [],
}
use unisockets.Map.{get, has, set, keys, get_or}
use unisockets.Map.Laws.{has-get}
use unisockets.Map.Keys.{has-set}
use unisockets.Number.Gap.{next_free}
use unisockets.Signaling.Subnets.{
  Members, Subnets, create_ip_address, create_tcp_address, claim_tcp_address, remove_ip_address,
  remove_tcp_address, ensure_subnet,
}
use unisockets.Signaling.Subnets.Cases.{
  create_tcp_cases, claim_tcp_cases, remove_ip_cases, remove_tcp_cases,
}

-- Writing members to a subnet that is there.
has-held :
    (net net' : Text) (m m' : Members) (s : Subnets)
    → get net s ≡ some m
    → has net' (set net m' s) ≡ has net' s
has-held net net' m m' s e =
    ground (arith, has-set net net' m' s, has-get net s, e, text_beq_iff net net')

has-ensure :
    (net net' : Text) (s : Subnets) → has net' (ensure_subnet net s) ≡ (net == net' || has net' s)
unfolding ensure_subnet
has-ensure net net' s = ground (arith, has-set net net' [] s, text_beq_iff net net')

has-set-ensure :
    (net net' : Text) (m : Members) (s : Subnets)
    → has net' (set net m (ensure_subnet net s)) ≡ (net == net' || has net' s)
has-set-ensure net net' m s =
    ground (arith, has-set net net' m (ensure_subnet net s), has-ensure net net' s)

pub has-create_ip :
    (net net' : Text) (s : Subnets)
    → has net' (create_ip_address net s).1 ≡ (net == net' || has net' s)
unfolding create_ip_address
has-create_ip net net' s =
    let members = get_or [] (get net (ensure_subnet net s)) in
    elim (Bool-cases (ltb 255 (next_free (keys members)))) [
      | inl full ↦ rw full (has-ensure net net' s)
      | inr room ↦ rw room (has-set-ensure net net' _ s)
    ]

pub has-create_tcp : (ip net : Text) (s : Subnets) → has net (create_tcp_address ip s).1 ≡ has net s
has-create_tcp ip net s =
    create_tcp_cases ip s (λ r. has net r.1 ≡ has net s) (λ e. refl) (λ m e f. refl)
      (λ m w e f. has-held _ net m _ s e)

pub has-claim_tcp : (t net : Text) (s : Subnets) → has net (claim_tcp_address t s).1 ≡ has net s
has-claim_tcp t net s =
    claim_tcp_cases t s (λ r. has net r.1 ≡ has net s) (λ e. refl)
      (λ m m' w e f g h. has-held _ net m _ s e) (λ m m' w e f g h. has-held _ net m _ s e)

pub has-remove_ip : (ip net : Text) (s : Subnets) → has net (remove_ip_address ip s) ≡ has net s
has-remove_ip ip net s =
    remove_ip_cases ip s (λ t. has net t ≡ has net s) (λ e. refl) (λ m e f. refl)
      (λ m e f. has-held _ net m _ s e)

pub has-remove_tcp : (t net : Text) (s : Subnets) → has net (remove_tcp_address t s) ≡ has net s
has-remove_tcp t net s =
    remove_tcp_cases t s (λ u. has net u ≡ has net s) (λ e. refl) (λ m e f. refl)
      (λ m w e f. has-held _ net m _ s e)
