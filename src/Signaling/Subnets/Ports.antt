-- ===== src/Signaling/Subnets/Ports.antt =====
-- createTCPAddress and claimTCPAddress take a port.
use unisockets.Prelude.{
  if◌then◌else◌, ℕ, ◌<◌, ◌≡◌, refl, ap, ◌⊎◌, inl, inr, true, false, ◌||◌, ◌++◌, [], ◌∷◌, Text,
  text_key, text_beq_iff, arith, ◌==◌,
}
use unisockets.Map.{has, get_or, contains}
use unisockets.Map.Laws.{has-get}
use unisockets.Number.{Number, nat, number_key, number_beq_iff, sort}
use unisockets.Number.Gap.{next_free, next_free_least, contains-sort}
use unisockets.Number.Numbering.{IsNumbering, contains-append}
use unisockets.Signaling.Address.{
  IpAddress, to_ip_address, to_tcp_address, parse_ip_address, parse_tcp_address,
}
use unisockets.Signaling.Errors.{
  Result, ok, err, subnet_does_not_exist, suffix_does_not_exist, port_already_allocated,
}
use unisockets.Signaling.Subnets.{
  MMember, Subnets, create_tcp_address, take_port, claim_tcp_address,
}
use unisockets.Signaling.Subnets.Cases.{create_tcp_cases, claim_tcp_cases}
use unisockets.Signaling.Subnets.WellFormed.{IsMembers, IsWellFormed, holds-contains}
use unisockets.Signaling.Subnets.Preservation.{
  IsTcpAddress, ensure_member-IsMembers, ports-IsNumbering,
}
use unisockets.Signaling.Subnets.View.{
  suffix_taken, port_taken, suffix_taken-set, port_taken-set, suffix_taken_of_port,
  suffix_taken-ensure, port_taken-ensure, ports-ensure_member, suffix_taken-ensure_held,
  port_taken-ensure_held, port_taken-entry, suffix_taken-entry, suffix_taken-no_subnet,
}
use unisockets.Signaling.Subnets.Effects.{SameView, TakesPort}

-- The port that `take_port` gives out, seen from the member.
take_port_least :
    (w : MMember)
    → IsNumbering w.ports
    → let p = (take_port w).0 in
      (contains (nat p) w.ports ≡ false)
      × ((k : ℕ) → k < p → contains (nat k) w.ports ≡ true)
      × ((q : Number) → contains q (take_port w).1.ports ≡ (nat p == q || contains q w.ports))
unfolding take_port
take_port_least w (naturals, distinct) =
    let (free, least) = next_free_least w.ports naturals distinct in
    (
      free,
      least,
      λ q. ground (
        arith,
        contains-append q (nat (next_free w.ports)) (sort w.ports),
        contains-sort q w.ports,
      ),
    )

-- The least free port of the address is given out, and is now taken.
abbrev pub GrantsPort : IpAddress → Subnets → Result Text × Subnets → Type 0
GrantsPort a s (r, t) =
    (p : ℕ) × (r ≡ ok (to_tcp_address (to_ip_address a.subnet a.suffix) (nat p)))
    × (port_taken a.subnet a.suffix (nat p) s ≡ false)
    × ((k : ℕ) → k < p → port_taken a.subnet a.suffix (nat k) s ≡ true)
    × TakesPort a.subnet a.suffix (nat p) s t

abbrev pub CreatesTcpAt : IpAddress → Subnets → Result Text × Subnets → Type 0
CreatesTcpAt a s (r, t) =
    ((suffix_taken a.subnet a.suffix s ≡ true) × GrantsPort a s (r, t))
    ⊎ ((suffix_taken a.subnet a.suffix s ≡ false)
        × (r ≡ err (if has a.subnet s then suffix_does_not_exist else subnet_does_not_exist))
        × (t ≡ s))

-- The same for the text of the address.
abbrev pub CreatesTcp : Text → Subnets → Result Text × Subnets → Type 0
CreatesTcp ip = CreatesTcpAt (parse_ip_address ip)

-- On a well-formed pool, createTCPAddress gives out the least free port of an address that is taken
-- and takes it; it throws, changing nothing, for an unknown subnet and for a suffix that is free.
pub create_tcp_address-CreatesTcp :
    (ip : Text) (s : Subnets) → IsWellFormed s → CreatesTcp ip s (create_tcp_address ip s)
create_tcp_address-CreatesTcp ip s v =
    let a = parse_ip_address ip in
    create_tcp_cases ip s (CreatesTcp ip s)
      (λ e.
        inr (
          suffix_taken-no_subnet a.subnet a.suffix s e,
          ground (arith, has-get a.subnet s, e),
          refl,
        ))
      (λ m e f. inr (
        ground (arith, suffix_taken-entry a.subnet a.suffix m s e, has-get a.suffix m),
        ground (arith, has-get a.subnet s, e),
        refl,
      ))
      λ m w e f.
        let (free, least, after) =
          take_port_least w ((v.members a.subnet m e).ports a.suffix w f) in
        let held : suffix_taken a.subnet a.suffix s ≡ true =
          ground (arith, suffix_taken-entry a.subnet a.suffix m s e, has-get a.suffix m) in
        inl (
          held,
          (
            (take_port w).0,
            refl,
            rw (port_taken-entry a.subnet a.suffix m w s (nat (take_port w).0) e f) free,
            (λ k h. rw (port_taken-entry a.subnet a.suffix m w s (nat k) e f) (least k h)),
            record {
              suffixes = λ net n.
                  suffix_taken-set a.subnet a.suffix (take_port w).1 m s net n (ap (get_or []) e);
              ports = λ net n q. ground (
                arith,
                port_taken-set a.subnet a.suffix (take_port w).1 m s net n q (ap (get_or []) e),
                after q,
                port_taken-entry a.subnet a.suffix m w s q e f,
                text_beq_iff a.subnet net,
                number_beq_iff a.suffix n,
              );
            },
          ),
        )

-- The three ways in which claimTCPAddress can end.
abbrev pub ClaimsTcp : Text → Subnets → Result (Unit {0}) × Subnets → Type 0
ClaimsTcp t s (r, s') =
    let port = (parse_tcp_address t).port in
    let a = parse_ip_address (parse_tcp_address t).ip_address in
    ((r ≡ ok tt)
      × (has a.subnet s ≡ true)
      × (port_taken a.subnet a.suffix port s ≡ false)
      × TakesPort a.subnet a.suffix port s s')
    ⊎ ((r ≡ err port_already_allocated)
        × (port_taken a.subnet a.suffix port s ≡ true)
        × SameView s s')
    ⊎ ((r ≡ err subnet_does_not_exist) × (has a.subnet s ≡ false) × (s' ≡ s))

-- On a well-formed pool, claimTCPAddress of an address with a natural suffix and port takes the
-- port, with the suffix, if the subnet is known and the port free; it throws if the port is taken
-- or the subnet unknown, with nothing taken.
pub claim_tcp_address-ClaimsTcp :
    (t : Text) (s : Subnets)
    → IsTcpAddress t
    → IsWellFormed s
    → ClaimsTcp t s (claim_tcp_address t s)
claim_tcp_address-ClaimsTcp t s (natural, suffix) v =
    let port = (parse_tcp_address t).port in
    let a = parse_ip_address (parse_tcp_address t).ip_address in
    claim_tcp_cases t s (ClaimsTcp t s)
      (λ e. inr (inr (refl, ground (arith, has-get a.subnet s), refl)))
      (λ m m' w e em ew f.
        let here = ap (get_or []) e in
        let vm : IsMembers m' =
          rw em (ensure_member-IsMembers a.suffix suffix (v.members a.subnet m e)) in
        let held : port_taken a.subnet a.suffix port s ≡ true = ground (
          arith,
          ports-ensure_member a.subnet a.suffix m s port here,
          holds-contains port w.ports (rw ew (ports-IsNumbering a.suffix vm).0),
        ) in
        inr (
          inl (
            refl,
            held,
            rw em record {
              suffixes = λ net n.
                  suffix_taken-ensure_held a.subnet a.suffix m s net n here
                    (ground (arith, suffix_taken_of_port a.subnet a.suffix port s));
              ports = λ net n q. port_taken-ensure_held a.subnet a.suffix m s net n q here;
            },
          )))
      λ m m' w e em ew f.
        let here = ap (get_or []) e in
        let vm : IsMembers m' =
          rw em (ensure_member-IsMembers a.suffix suffix (v.members a.subnet m e)) in
        let entry = λ (q : Number). ports-ensure_member a.subnet a.suffix m s q here in
        inl (
          refl,
          ground (arith, has-get a.subnet s),
          ground (
            arith,
            entry port,
            holds-contains port w.ports (rw ew (ports-IsNumbering a.suffix vm).0),
          ),
          rw em record {
            suffixes = λ net n.
                suffix_taken-ensure a.subnet a.suffix (record { ports = w.ports ++ port ∷ [] }) m s
                  net n here;
            ports = λ net n q. ground (
              arith,
              port_taken-ensure a.subnet a.suffix (record { ports = w.ports ++ port ∷ [] }) m s net
                  n q here,
              contains-append q port w.ports,
              entry q,
              text_beq_iff a.subnet net,
              number_beq_iff a.suffix n,
            );
          },
        )
