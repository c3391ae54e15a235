-- ===== src/Signaling/Address.antt =====
-- Addresses as texts: toIPAddress, toTCPAddress, parseIPAddress and parseTCPAddress of
-- pkg/web/signaling/services/signaling-server.ts.
pub mod RoundTrip
use unisockets.Prelude.{
  ℕ, ◌≡◌, refl, [], ◌∷◌, ◌++◌, Option, none, some, Text, codes, take, get_elem?,
}
use unisockets.Map.{get_or}
use unisockets.Text.{split, join}
use unisockets.Number.{Number, nat, nan, parse_int?, to_text}

pub record IpAddress : Type 0 where
  pub subnet : Text
  pub suffix : Number

pub record TcpAddress : Type 0 where
  pub ip_address : Text
  pub port : Number

unfoldable pub to_ip_address : Text → Number → Text
to_ip_address subnet suffix = subnet ++ b'.' ∷ to_text suffix

unfoldable pub to_tcp_address : Text → Number → Text
to_tcp_address ip_address port = ip_address ++ b':' ∷ to_text port

unfoldable pub parse_ip_address : Text → IpAddress
parse_ip_address ip_address =
    let parts = split b'.' ip_address in
    record { subnet = join b'.' (take 3 parts); suffix = parse_int? (get_elem? parts 3) }

-- A split has a first part, so the default is never taken.
unfoldable pub parse_tcp_address : Text → TcpAddress
parse_tcp_address tcp_address =
    let parts = split b':' tcp_address in
    record { ip_address = get_or [] (get_elem? parts 0); port = parse_int? (get_elem? parts 1) }

parse_tcp_example :
    parse_tcp_address (codes "10.0.0.7:80")
    ≡ record { ip_address = codes "10.0.0.7"; port = nat 80 }
unfolding parse_tcp_address split parse_int?
parse_tcp_example = refl

parse_ip_examples :
    (parse_ip_address (codes "10.0.0.7") ≡ record { subnet = codes "10.0.0"; suffix = nat 7 })
    × (parse_ip_address (codes "10.0.0.7:80") ≡ record { subnet = codes "10.0.0"; suffix = nat 7 })
    × (parse_ip_address (codes "10.0") ≡ record { subnet = codes "10.0"; suffix = nan })
unfolding parse_ip_address split join parse_int?
parse_ip_examples = (refl, refl, refl)
