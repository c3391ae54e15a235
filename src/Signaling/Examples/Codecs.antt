-- ===== src/Signaling/Examples/Codecs.antt =====
-- The theorems on addresses, numbers and opcodes at single values.
use unisockets.Prelude.{ℕ, ◌≡◌, codes, text_key, ◌++◌, arith}
use unisockets.Number.{nat, parse_int, to_text}
use unisockets.Number.RoundTrip.{parse_int-to_text}
use unisockets.Text.{split, join, join-split}
use unisockets.Signaling.Address.{
  to_ip_address, to_tcp_address, parse_ip_address, parse_tcp_address,
}
use unisockets.Signaling.Address.RoundTrip.{parse-to_tcp_ip}
use unisockets.Signaling.Service.{RawOperation}
use unisockets.Signaling.Examples.{net, net-IsSubnet, net-Lacks}

parse-to_tcp_ip_example :
    let t = parse_tcp_address (to_tcp_address (to_ip_address net (nat 7)) (nat 8080)) in
    (t.port ≡ nat 8080) × (parse_ip_address t.ip_address ≡ record { subnet = net; suffix = nat 7 })
parse-to_tcp_ip_example = parse-to_tcp_ip net 7 8080 net-IsSubnet net-Lacks

parse_int-to_text_example : parse_int (to_text (nat 80) ++ codes ":") ≡ nat 80
parse_int-to_text_example = parse_int-to_text 80 (codes ":") (ground arith)

join-split_example : join b'.' (split b'.' net) ≡ net
join-split_example = join-split b'.' net

abbrev five : ℕ
five = 5

abbrev raw : RawOperation ℕ
raw = record { opcode = codes "knock"; content = 3 }
