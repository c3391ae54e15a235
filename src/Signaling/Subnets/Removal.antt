-- ===== src/Signaling/Subnets/Removal.antt =====
-- removeIPAddress and removeTCPAddress, by what they free.
use unisockets.Prelude.{ap, [], Text, text_key, text_beq_iff, arith}
use unisockets.Map.{get_or}
use unisockets.Map.Laws.{has-get}
use unisockets.Number.{number_key, number_beq_iff}
use unisockets.Signaling.Address.{parse_ip_address, parse_tcp_address}
use unisockets.Signaling.Subnets.{Subnets, remove_ip_address, remove_tcp_address, without_port}
use unisockets.Signaling.Subnets.Cases.{remove_ip_cases, remove_tcp_cases}
use unisockets.Signaling.Subnets.WellFormed.{IsWellFormed, contains-without}
use unisockets.Signaling.Subnets.View.{
  suffix_taken-set, port_taken-set, suffix_taken-delete, port_taken-delete, port_taken-entry,
  suffix_taken-entry, suffix_taken-no_subnet,
}
use unisockets.Signaling.Subnets.Effects.{
  FreesPort, FreesSuffix, FreesPort-of_free, FreesSuffix-of_free,
}

-- On a well-formed pool, removeTCPAddress frees the port of its address, and nothing else.
pub remove_tcp_address-FreesPort :
    (t : Text) (s : Subnets)
    → IsWellFormed s
    → FreesPort
        (parse_ip_address (parse_tcp_address t).ip_address).subnet
        (parse_ip_address (parse_tcp_address t).ip_address).suffix
        (parse_tcp_address t).port
        s
        (remove_tcp_address t s)
remove_tcp_address-FreesPort t s v =
    let port = (parse_tcp_address t).port in
    let a = parse_ip_address (parse_tcp_address t).ip_address in
    remove_tcp_cases t s (FreesPort a.subnet a.suffix port s)
      (λ e.
        FreesPort-of_free a.subnet a.suffix s (suffix_taken-no_subnet a.subnet a.suffix s e) port)
      (λ m e f.
        FreesPort-of_free a.subnet a.suffix s
          (ground (arith, suffix_taken-entry a.subnet a.suffix m s e, has-get a.suffix m)) port)
      λ m w e f. record {
        suffixes = λ net n. ground (
          arith,
          suffix_taken-set a.subnet a.suffix (record { ports = without_port port w.ports }) m s net
              n (ap (get_or []) e),
          suffix_taken-entry a.subnet a.suffix m s e,
          has-get a.suffix m,
          text_beq_iff a.subnet net,
          number_beq_iff a.suffix n,
        );
        ports = λ net n q. ground (
          arith,
          port_taken-set a.subnet a.suffix (record { ports = without_port port w.ports }) m s net n
              q (ap (get_or []) e),
          contains-without q port w.ports ((v.members a.subnet m e).ports a.suffix w f).0,
          port_taken-entry a.subnet a.suffix m w s q e f,
          text_beq_iff a.subnet net,
          number_beq_iff a.suffix n,
        );
      }

-- removeIPAddress frees the suffix of its address with all its ports, and nothing else.
pub remove_ip_address-FreesSuffix :
    (ip : Text) (s : Subnets)
    → FreesSuffix
        (parse_ip_address ip).subnet
        (parse_ip_address ip).suffix
        s
        (remove_ip_address ip s)
remove_ip_address-FreesSuffix ip s =
    let a = parse_ip_address ip in
    remove_ip_cases ip s (FreesSuffix a.subnet a.suffix s)
      (λ e. FreesSuffix-of_free a.subnet a.suffix s (suffix_taken-no_subnet a.subnet a.suffix s e))
      (λ m e f.
        FreesSuffix-of_free a.subnet a.suffix s
          (ground (arith, suffix_taken-entry a.subnet a.suffix m s e)))
      λ m e f. record {
        suffixes = λ net n. suffix_taken-delete a.subnet a.suffix m s net n (ap (get_or []) e);
        ports = λ net n q. port_taken-delete a.subnet a.suffix m s net n q (ap (get_or []) e);
      }
