-- ===== src/Signaling/Subnets/Calls/Alike.antt =====
-- Pools that agree in what is taken give the same answer to each method that gives out an address.
use unisockets.Prelude.{
  ℕ, ◌<◌, ◌≡◌, sym, ap, ◌∙◌, inl, inr, Bool, true, false, Text, text_key, ◌==◌, ◌&&◌, arith,
  Option-cases, if◌then◌else◌,
}
use unisockets.Map.{get, has}
use unisockets.Map.Laws.{has-get}
use unisockets.Number.{Number, nat, number_key}
use unisockets.Signaling.Address.{
  IpAddress, to_ip_address, to_tcp_address, parse_ip_address, parse_tcp_address,
}
use unisockets.Signaling.Errors.{Result, ok, err, subnet_does_not_exist, suffix_does_not_exist}
use unisockets.Signaling.Subnets.{Subnets, create_ip_address, create_tcp_address, claim_tcp_address}
use unisockets.Signaling.Subnets.WellFormed.{IsWellFormed}
use unisockets.Signaling.Subnets.Preservation.{IsTcpAddress}
use unisockets.Signaling.Subnets.View.{
  suffix_taken, port_taken, suffix_taken_of_port, suffix_taken-no_subnet,
}
use unisockets.Signaling.Subnets.Effects.{SameView, TakesSuffix, TakesPort, FreesPort, FreesSuffix}
use unisockets.Signaling.Subnets.Allocation.{CreatesIp, create_ip_address-CreatesIp}
use unisockets.Signaling.Subnets.Ports.{
  CreatesTcpAt, create_tcp_address-CreatesTcp, ClaimsTcp, claim_tcp_address-ClaimsTcp,
}

-- The pools know the same subnets, and the same suffixes and ports are taken in them.
pub record Alike (s t : Subnets) : Type 0 where
  pub view : SameView s t
  pub nets : (net : Text) → has net t ≡ has net s

-- Two pools that look the same do so after the same update of what is taken.
module _ {s t s' t' : Subnets} (same : SameView s t) where
  SameView-updated :
      (f : Text → Number → Bool → Bool) (g : Text → Number → Number → Bool → Bool)
      → ((net : Text) (n : Number) → suffix_taken net n s' ≡ f net n (suffix_taken net n s))
      → ((net : Text) (n q : Number) → port_taken net n q s' ≡ g net n q (port_taken net n q s))
      → ((net : Text) (n : Number) → suffix_taken net n t' ≡ f net n (suffix_taken net n t))
      → ((net : Text) (n q : Number) → port_taken net n q t' ≡ g net n q (port_taken net n q t))
      → SameView s' t'
  SameView-updated f g a b a' b' = record {
    suffixes = λ net n. a' net n ∙ ap (f net n) (same.suffixes net n) ∙ sym (a net n);
    ports = λ net n q. b' net n q ∙ ap (g net n q) (same.ports net n q) ∙ sym (b net n q);
  }

  SameView-both : SameView s s' → SameView t t' → SameView s' t'
  SameView-both a b =
      SameView-updated (λ net n x. x) (λ net n q x. x) a.suffixes a.ports b.suffixes b.ports

  TakesSuffix-both :
      {net : Text} {n : Number} → TakesSuffix net n s s' → TakesSuffix net n t t' → SameView s' t'
  TakesSuffix-both {net} {n} a b =
      SameView-updated (λ net' n' x. if net == net' && n == n' then true else x) (λ net' n' q x. x)
        a.suffixes a.ports b.suffixes b.ports

  TakesPort-both :
      {net : Text} {n q : Number} → TakesPort net n q s s' → TakesPort net n q t t' → SameView s' t'
  TakesPort-both {net} {n} {q} a b =
      SameView-updated (λ net' n' x. if net == net' && n == n' then true else x)
        (λ net' n' q' x. if net == net' && n == n' && q == q' then true else x) a.suffixes a.ports
        b.suffixes b.ports

  pub FreesPort-both :
      {net : Text} {n q : Number} → FreesPort net n q s s' → FreesPort net n q t t' → SameView s' t'
  FreesPort-both {net} {n} {q} a b =
      SameView-updated (λ net' n' x. x)
        (λ net' n' q' x. if net == net' && n == n' && q == q' then false else x) a.suffixes a.ports
        b.suffixes b.ports

  pub FreesSuffix-both :
      {net : Text} {n : Number} → FreesSuffix net n s s' → FreesSuffix net n t t' → SameView s' t'
  FreesSuffix-both {net} {n} a b =
      SameView-updated (λ net' n' x. if net == net' && n == n' then false else x)
        (λ net' n' q' x. if net == net' && n == n' then false else x) a.suffixes a.ports b.suffixes
        b.ports

-- The least number that is free is the same in both, if the same numbers are taken.
least_unique :
    (f : ℕ → Bool) (a b : ℕ)
    → f a ≡ false
    → ((k : ℕ) → k < a → f k ≡ true)
    → f b ≡ false
    → ((k : ℕ) → k < b → f k ≡ true)
    → a ≡ b
least_unique f a b free below free' below' = ground (arith, below b, below' a)

-- What a call gives on two pools: the same answer, and pools that look the same.
abbrev pub Agree {ℓ} : {A : Type ℓ} → A × Subnets → A × Subnets → Type ℓ
Agree (x, s) (y, t) = (x ≡ y) × SameView s t

pub create_ip-Agree :
    (net : Text) (s t : Subnets)
    → IsWellFormed s
    → IsWellFormed t
    → SameView s t
    → Agree (create_ip_address net s) (create_ip_address net t)
create_ip-Agree net s t v v' same =
    agree (create_ip_address-CreatesIp net s v) (create_ip_address-CreatesIp net t v')
  where
    agree : {x y : Text × Subnets} → CreatesIp net s x → CreatesIp net t y → Agree x y
    agree (inl (full, e, a)) (inl (full', e', b)) = (e ∙ sym e', SameView-both same a b)
    agree (inl (full, e, a)) (inr (n, le, e', free, below, b)) =
        absurd (ground (arith, full n le, same.suffixes net (nat n), free))
    agree (inr (n, le, e, free, below, a)) (inl (full, e', b)) =
        absurd (ground (arith, full n le, same.suffixes net (nat n), free))
    agree (inr (n, le, e, free, below, a)) (inr (n', le', e', free', below', b)) =
        let unique : n' ≡ n =
          least_unique (λ k. suffix_taken net (nat k) s) n' n
            (sym (same.suffixes net (nat n')) ∙ free')
            (λ k h. sym (same.suffixes net (nat k)) ∙ below' k h) free below in
        (
          e ∙ ap (λ k. to_ip_address net (nat k)) (sym unique) ∙ sym e',
          TakesSuffix-both same a (rw (← unique) b),
        )

port_taken-unknown :
    (net : Text) (n q : Number) (s : Subnets) → has net s ≡ false → port_taken net n q s ≡ false
port_taken-unknown net n q s h =
    suffix_taken_of_port net n q s
      (suffix_taken-no_subnet net n s (ground (arith, has-get net s, Option-cases (get net s))))

pub create_tcp-Agree :
    (ip : Text) (s t : Subnets)
    → IsWellFormed s
    → IsWellFormed t
    → Alike s t
    → Agree (create_tcp_address ip s) (create_tcp_address ip t)
create_tcp-Agree ip s t v v' h =
    agree (create_tcp_address-CreatesTcp ip s v) (create_tcp_address-CreatesTcp ip t v')
  where
    a : IpAddress
    a = parse_ip_address ip

    agree : {x y : Result Text × Subnets} → CreatesTcpAt a s x → CreatesTcpAt a t y → Agree x y
    agree (inl (held, (p, e, free, below, u))) (inl (held', (p', e', free', below', u'))) =
        let unique : p' ≡ p =
          least_unique (λ k. port_taken a.subnet a.suffix (nat k) s) p' p
            (sym (h.view.ports a.subnet a.suffix (nat p')) ∙ free')
            (λ k l. sym (h.view.ports a.subnet a.suffix (nat k)) ∙ below' k l) free below in
        (
          e
              ∙ ap (λ k. ok (to_tcp_address (to_ip_address a.subnet a.suffix) (nat k))) (sym unique)
              ∙ sym e',
          TakesPort-both h.view u (rw (← unique) u'),
        )
    agree (inl (held, r)) (inr (none_held, e, kept)) =
        absurd (ground (arith, held, none_held, h.view.suffixes a.subnet a.suffix))
    agree (inr (none_held, e, kept)) (inl (held, r)) =
        absurd (ground (arith, held, none_held, h.view.suffixes a.subnet a.suffix))
    agree (inr (none_held, e, kept)) (inr (none_held', e', kept')) = (
      e
          ∙ ap (λ b. err (if b then suffix_does_not_exist else subnet_does_not_exist))
              (sym (h.nets a.subnet))
          ∙ sym e',
      rw (kept, kept') h.view,
    )

pub claim_tcp-Agree :
    (address : Text) (s t : Subnets)
    → IsTcpAddress address
    → IsWellFormed s
    → IsWellFormed t
    → Alike s t
    → Agree (claim_tcp_address address s) (claim_tcp_address address t)
claim_tcp-Agree address s t valid v v' h =
    agree (claim_tcp_address-ClaimsTcp address s valid v)
      (claim_tcp_address-ClaimsTcp address t valid v')
  where
    port : Number
    port = (parse_tcp_address address).port

    a : IpAddress
    a = parse_ip_address (parse_tcp_address address).ip_address

    agree :
        {x y : Result (Unit {0}) × Subnets}
        → ClaimsTcp address s x
        → ClaimsTcp address t y
        → Agree x y
    agree (inl (e, known, free, u)) (inl (e', known', free', u')) =
        (e ∙ sym e', TakesPort-both h.view u u')
    agree (inr (inl (e, held, u))) (inr (inl (e', held', u'))) =
        (e ∙ sym e', SameView-both h.view u u')
    agree (inr (inr (e, unknown, kept))) (inr (inr (e', unknown', kept'))) =
        (e ∙ sym e', rw (kept, kept') h.view)
    agree (inl (e, known, free, u)) (inr (inl (e', held', u'))) =
        absurd (ground (arith, free, held', h.view.ports a.subnet a.suffix port))
    agree (inr (inl (e, held, u))) (inl (e', known', free', u')) =
        absurd (ground (arith, held, free', h.view.ports a.subnet a.suffix port))
    agree (inl (e, known, free, u)) (inr (inr (e', unknown', kept'))) =
        absurd (ground (arith, known, unknown', h.nets a.subnet))
    agree (inr (inr (e, unknown, kept))) (inl (e', known', free', u')) =
        absurd (ground (arith, unknown, known', h.nets a.subnet))
    agree (inr (inl (e, held, u))) (inr (inr (e', unknown', kept'))) = absurd (
        ground
          (arith, held, unknown', h.nets a.subnet, port_taken-unknown a.subnet a.suffix port s))
    agree (inr (inr (e, unknown, kept))) (inr (inl (e', held', u'))) = absurd (
        ground
          (arith, unknown, held', h.nets a.subnet, port_taken-unknown a.subnet a.suffix port t))
