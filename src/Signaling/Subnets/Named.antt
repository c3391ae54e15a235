-- ===== src/Signaling/Subnets/Named.antt =====
-- The methods of the address pool at addresses that the server itself has made.
use unisockets.Prelude.{ℕ, ◌≡◌, inl, inr, true, Text, text_key, subst}
use unisockets.Text.{Lacks}
use unisockets.Number.{Number, nat, number_key}
use unisockets.Signaling.Address.{
  IpAddress, to_ip_address, to_tcp_address, parse_ip_address, parse_tcp_address,
}
use unisockets.Signaling.Address.RoundTrip.{
  IsSubnet, parse-to_tcp_ip, parse_ip-to_tcp, parse_ip-to_ip,
}
use unisockets.Signaling.Subnets.{
  Subnets, create_tcp_address, remove_ip_address, remove_tcp_address,
}
use unisockets.Signaling.Subnets.WellFormed.{IsWellFormed}
use unisockets.Signaling.Subnets.View.{suffix_taken}
use unisockets.Signaling.Subnets.Effects.{FreesPort, FreesSuffix}
use unisockets.Signaling.Subnets.Ports.{GrantsPort, CreatesTcpAt, create_tcp_address-CreatesTcp}
use unisockets.Signaling.Subnets.Removal.{
  remove_tcp_address-FreesPort, remove_ip_address-FreesSuffix,
}

module _ (net : Text) (n : ℕ) (three : IsSubnet net) where
  -- removeIPAddress of a client's own address frees its suffix.
  pub remove_ip_named :
      (s : Subnets) → FreesSuffix net (nat n) s (remove_ip_address (to_ip_address net (nat n)) s)
  remove_ip_named s =
      subst
        (λ (a : IpAddress).
          FreesSuffix a.subnet a.suffix s (remove_ip_address (to_ip_address net (nat n)) s))
        (parse_ip-to_ip net n three) (remove_ip_address-FreesSuffix (to_ip_address net (nat n)) s)

  -- removeIPAddress of an alias frees the suffix of the client that it belongs to.
  pub remove_ip_alias :
      (p : ℕ) (s : Subnets)
      → FreesSuffix net
          (nat n)
          s
          (remove_ip_address (to_tcp_address (to_ip_address net (nat n)) (nat p)) s)
  remove_ip_alias p s =
      let alias = to_tcp_address (to_ip_address net (nat n)) (nat p) in
      subst (λ (a : IpAddress). FreesSuffix a.subnet a.suffix s (remove_ip_address alias s))
        (parse_ip-to_tcp net n p three) (remove_ip_address-FreesSuffix alias s)

  -- createTCPAddress for a client with an address of its own: the least free port, now taken.
  pub create_tcp_named :
      (s : Subnets)
      → IsWellFormed s
      → suffix_taken net (nat n) s ≡ true
      → GrantsPort
          (record { subnet = net; suffix = nat n })
          s
          (create_tcp_address (to_ip_address net (nat n)) s)
  create_tcp_named s v held =
      let r = create_tcp_address (to_ip_address net (nat n)) s in
      elim (subst (λ (a : IpAddress). CreatesTcpAt a s r) (parse_ip-to_ip net n three)
        (create_tcp_address-CreatesTcp (to_ip_address net (nat n)) s v)) [
          | inl (h, granted) ↦ granted
          | inr (h, refused, kept) ↦ cc
        ]

  -- removeTCPAddress of an alias frees its port.
  pub remove_tcp_named :
      Lacks b':' net
      → (p : ℕ) (s : Subnets) → IsWellFormed s
      → FreesPort net
          (nat n)
          (nat p)
          s
          (remove_tcp_address (to_tcp_address (to_ip_address net (nat n)) (nat p)) s)
  remove_tcp_named plain p s v =
      let alias = to_tcp_address (to_ip_address net (nat n)) (nat p) in
      let (port, ip) = parse-to_tcp_ip net n p three plain in
      subst (λ (a : IpAddress). FreesPort a.subnet a.suffix (nat p) s (remove_tcp_address alias s))
        ip
        (subst
          (λ (q : Number).
            FreesPort (parse_ip_address (parse_tcp_address alias).ip_address).subnet
              (parse_ip_address (parse_tcp_address alias).ip_address).suffix q s
              (remove_tcp_address alias s))
          port (remove_tcp_address-FreesPort alias s v))
