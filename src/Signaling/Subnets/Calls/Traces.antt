-- ===== src/Signaling/Subnets/Calls/Traces.antt =====
-- An address that is given out and given back leaves no trace that a later call could see.
use unisockets.Prelude.{
  ℕ, ◌≡◌, ◌∙◌, sym, inl, inr, true, false, List, Text, text_key, text_beq_iff, ◌==◌, arith, All,
}
use unisockets.Map.{has}
use unisockets.Text.{Lacks}
use unisockets.Number.{nat, number_key, number_beq_iff}
use unisockets.Signaling.Address.{to_ip_address, to_tcp_address}
use unisockets.Signaling.Address.RoundTrip.{IsSubnet}
use unisockets.Signaling.Errors.{ok}
use unisockets.Signaling.Subnets.{
  Subnets, overflow_id, create_ip_address, create_tcp_address, remove_ip_address,
  remove_tcp_address,
}
use unisockets.Signaling.Subnets.WellFormed.{IsWellFormed}
use unisockets.Signaling.Subnets.Preservation.{
  create_ip_address-IsWellFormed, create_tcp_address-IsWellFormed, remove_ip_address-IsWellFormed,
  remove_tcp_address-IsWellFormed,
}
use unisockets.Signaling.Subnets.View.{suffix_taken, port_taken, suffix_taken_of_port}
use unisockets.Signaling.Subnets.Effects.{TakesSuffix, TakesPort, FreesSuffix, FreesPort, SameView}
use unisockets.Signaling.Subnets.Allocation.{create_ip_address-CreatesIp}
use unisockets.Signaling.Subnets.Named.{remove_ip_named, create_tcp_named, remove_tcp_named}
use unisockets.Signaling.Subnets.Calls.{Call, serve_all}
use unisockets.Signaling.Subnets.Calls.Nets.{
  has-create_ip, has-create_tcp, has-remove_ip, has-remove_tcp,
}
use unisockets.Signaling.Subnets.Calls.Replies.{IsClaimable, serve_all-Replies}

module _ (net : Text) (n : ℕ) (s t u : Subnets) where
  TakesSuffix-FreesSuffix :
      suffix_taken net (nat n) s ≡ false
      → TakesSuffix net (nat n) s t
      → FreesSuffix net (nat n) t u
      → SameView s u
  TakesSuffix-FreesSuffix free a b = record {
    suffixes = λ net' n'. ground (
      arith,
      a.suffixes net' n',
      b.suffixes net' n',
      free,
      text_beq_iff net net',
      number_beq_iff (nat n) n',
    );
    ports = λ net' n' q. ground (
      arith,
      a.ports net' n' q,
      b.ports net' n' q,
      suffix_taken_of_port net (nat n) q s free,
      text_beq_iff net net',
      number_beq_iff (nat n) n',
    );
  }

  TakesPort-FreesPort :
      (p : ℕ)
      → suffix_taken net (nat n) s ≡ true
      → port_taken net (nat n) (nat p) s ≡ false
      → TakesPort net (nat n) (nat p) s t
      → FreesPort net (nat n) (nat p) t u
      → SameView s u
  TakesPort-FreesPort p held free a b = record {
    suffixes = λ net' n'. ground (
      arith,
      a.suffixes net' n',
      b.suffixes net' n',
      held,
      text_beq_iff net net',
      number_beq_iff (nat n) n',
    );
    ports = λ net' n' q. ground (
      arith,
      a.ports net' n' q,
      b.ports net' n' q,
      free,
      text_beq_iff net net',
      number_beq_iff (nat n) n',
      number_beq_iff (nat p) q,
    );
  }

-- A client that gets an address and gives it back leaves no trace: every later run of calls is
-- answered as on the pool before. Conditions: the pool is well formed and knows the subnet, which has
-- three bytes, the address is not the one that stands for an overflow, and the addresses that are
-- claimed have a natural suffix and port.
pub serve_all-remove_ip :
    (net : Text) (s : Subnets) (calls : List Call)
    → IsSubnet net
    → IsWellFormed s
    → has net s ≡ true
    → ((create_ip_address net s).0 == overflow_id) ≡ false
    → All IsClaimable calls
    → let (id, t) = create_ip_address net s in
      (serve_all calls (remove_ip_address id t)).0 ≡ (serve_all calls s).0
serve_all-remove_ip net s calls three v known given claimable =
    let t = (create_ip_address net s).1 in
    elim (create_ip_address-CreatesIp net s v) [
      | inl (full, e, same) ↦
          absurd (ground (arith, e, given, text_beq_iff (create_ip_address net s).0 overflow_id))
      | inr (n, le, e, free, below, takes) ↦ rw e (
          sym
            (serve_all-Replies calls s (remove_ip_address (to_ip_address net (nat n)) t) claimable v
              (remove_ip_address-IsWellFormed (to_ip_address net (nat n))
                (create_ip_address-IsWellFormed net v))
              record {
                view =
                    TakesSuffix-FreesSuffix net n s t _ free takes (remove_ip_named net n three t);
                nets = λ m. ground (
                  arith,
                  has-remove_ip (to_ip_address net (nat n)) m t,
                  has-create_ip net m s,
                  known,
                  text_beq_iff net m,
                );
              }).0)
    ]

-- A port that a client's address is given and that is taken back leaves no trace either: this is what
-- a refused connection does. Conditions: the pool is well formed, the address is taken, its subnet has
-- three bytes and no colon, and the addresses that are claimed have a natural suffix and port.
pub serve_all-remove_tcp :
    (net : Text) (n : ℕ) (s : Subnets) (calls : List Call)
    → IsSubnet net
    → Lacks b':' net
    → IsWellFormed s
    → suffix_taken net (nat n) s ≡ true
    → All IsClaimable calls
    → let (r, t) = create_tcp_address (to_ip_address net (nat n)) s in
      (alias : Text) × (r ≡ ok alias)
      × ((serve_all calls (remove_tcp_address alias t)).0 ≡ (serve_all calls s).0)
serve_all-remove_tcp net n s calls three plain v held claimable =
    let ip = to_ip_address net (nat n) in
    let t = (create_tcp_address ip s).1 in
    let (p, e, free, below, takes) = create_tcp_named net n three s v held in
    let alias = to_tcp_address ip (nat p) in
    let v' = create_tcp_address-IsWellFormed ip v in
    (
      alias,
      e,
      sym
          (serve_all-Replies calls s (remove_tcp_address alias t) claimable v
            (remove_tcp_address-IsWellFormed alias v')
            record {
              view =
                  TakesPort-FreesPort net n s t _ p held free takes
                    (remove_tcp_named net n three plain p t v');
              nets = λ m. has-remove_tcp alias m t ∙ has-create_tcp ip m s;
            }).0,
    )
