-- ===== src/Signaling/Server/Release.antt =====
-- What a shutdown does to the address pool: removeIPAddress is called with the alias, from which
-- parseIPAddress reads the client's own address.
use unisockets.Prelude.{ℕ, ◌≤◌, ◌<◌, ◌≡◌, refl, true, Text, text_key, arith}
use unisockets.Map.Laws.{==_refl}
use unisockets.Text.{Lacks}
use unisockets.Number.{nat, number_key}
use unisockets.Signaling.Address.{to_ip_address, to_tcp_address}
use unisockets.Signaling.Address.RoundTrip.{IsSubnet}
use unisockets.Signaling.Subnets.{Subnets, create_ip_address, remove_ip_address, remove_tcp_address}
use unisockets.Signaling.Subnets.WellFormed.{IsWellFormed}
use unisockets.Signaling.Subnets.Preservation.{
  remove_ip_address-IsWellFormed, remove_tcp_address-IsWellFormed,
}
use unisockets.Signaling.Subnets.View.{suffix_taken}
use unisockets.Signaling.Subnets.Effects.{FreesSuffix}
use unisockets.Signaling.Subnets.Allocation.{create_ip_address_at}
use unisockets.Signaling.Subnets.Named.{remove_tcp_named, remove_ip_alias}
use unisockets.Signaling.Server.Action.{Server}
use unisockets.Signaling.Server.Handlers.{handle_shutdown, owns}
use unisockets.Signaling.Server.Ownership.{handle_shutdown_owner}

module _ (net : Text) (n p : ℕ) (three : IsSubnet net) (plain : Lacks b':' net) where
  -- The alias with port `p` at the suffix `n` of the subnet.
  abbrev alias_of : Text
  alias_of = to_tcp_address (to_ip_address net (nat n)) (nat p)

  removed-FreesSuffix :
      (s : Subnets)
      → IsWellFormed s
      → FreesSuffix net (nat n) s (remove_ip_address alias_of (remove_tcp_address alias_of s))
  removed-FreesSuffix s v =
      let port = remove_tcp_named net n three plain p s v in
      let whole = remove_ip_alias net n three p (remove_tcp_address alias_of s) in
      record {
        suffixes = λ net' n'. ground (arith, whole.suffixes net' n', port.suffixes net' n');
        ports = λ net' n' q. ground (arith, whole.ports net' n' q, port.ports net' n' q);
      }

  module _ (id : Text) (s : Server) (owned : owns id alias_of s ≡ true)
      (v : IsWellFormed s.subnets) where
    -- When a client shuts one of its aliases down, the address in the alias is given back with all
    -- its ports, while the clients stay as they are. Conditions: the client owns the alias, which has
    -- a natural suffix and port in a subnet of three parts without a colon, and the pool is well
    -- formed.
    pub shutdown_frees_address :
        FreesSuffix net
          (nat n)
          s.subnets
          (handle_shutdown (record { id = id; alias = alias_of }) s).1.subnets
        × ((handle_shutdown (record { id = id; alias = alias_of }) s).1.clients ≡ s.clients)
    shutdown_frees_address =
        rw (handle_shutdown_owner (record { id = id; alias = alias_of }) s owned)
          (removed-FreesSuffix s.subnets v, refl)

    -- After such a shutdown createIPAddress gives out the address in the alias, if its suffix is
    -- at most 255 and the smaller ones are taken.
    pub shutdown_then_create :
        n ≤ 255
        → ((k : ℕ) → k < n → suffix_taken net (nat k) s.subnets ≡ true)
        → (create_ip_address net
            (handle_shutdown (record { id = id; alias = alias_of }) s).1.subnets).0
          ≡ to_ip_address net (nat n)
    shutdown_then_create small below =
        let t = (handle_shutdown (record { id = id; alias = alias_of }) s).1.subnets in
        let freed = shutdown_frees_address.0 in
        let valid : IsWellFormed t =
          rw (handle_shutdown_owner (record { id = id; alias = alias_of }) s owned) (
            remove_ip_address-IsWellFormed alias_of (remove_tcp_address-IsWellFormed alias_of v)) in
        create_ip_address_at net n t valid small
          (ground (arith, freed.suffixes net (nat n), ==_refl net, ==_refl (nat n)))
          (λ k less. ground (arith, freed.suffixes net (nat k), below k less))
