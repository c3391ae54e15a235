-- ===== src/Sockets/SockAddr/Reading.antt =====
-- What unisockets_bind and unisockets_connect read.
use unisockets.Prelude.{
  ℕ, suc, ◌+◌, ◌-◌, ◌*◌, ◌≤◌, ◌<◌, ◌≡◌, refl, [], ◌∷◌, ◌++◌, append_assoc, length, Text, arith,
  text_key,
}
use unisockets.Text.{join, Lacks, split-Lacks, split-append_lacking}
use unisockets.Number.{nat, to_text}
use unisockets.Signaling.Errors.{ok}
use unisockets.Signaling.Address.{
  to_ip_address, to_tcp_address, parse_ip_address, parse_tcp_address,
}
use unisockets.Signaling.Address.RoundTrip.{
  IsSubnet, parse-to_tcp_ip, dot_text-Lacks, colon_text-Lacks, Lacks-append,
}
use unisockets.Sockets.Memory.{Bytes, htons}
use unisockets.Sockets.Memory.Laws.{slice-append}
use unisockets.Sockets.SockAddr.{read_alias}

-- The subnet and the alias that the bytes of an address and a port name.
abbrev pub subnet_of : ℕ → ℕ → ℕ → Text
subnet_of a b c = join b'.' (to_text (nat a) ∷ to_text (nat b) ∷ to_text (nat c) ∷ [])

abbrev pub alias_of : ℕ → ℕ → ℕ → ℕ → ℕ → Text
alias_of a b c d port = to_tcp_address (to_ip_address (subnet_of a b c) (nat d)) (nat port)

-- A sockaddr_in: family, port and address in the order in which they lie in memory.
abbrev pub sockaddr : ℕ → ℕ → ℕ → ℕ → ℕ → ℕ → ℕ → ℕ → Bytes
sockaddr f g p q a b c d = f ∷ g ∷ p ∷ q ∷ a ∷ b ∷ c ∷ d ∷ []

dotted_four :
    (a b c d : ℕ)
    → join b'.' (to_text (nat a) ∷ to_text (nat b) ∷ to_text (nat c) ∷ to_text (nat d) ∷ [])
      ≡ to_ip_address (subnet_of a b c) (nat d)
unfolding join to_ip_address
dotted_four a b c d = simp append_assoc

-- The bytes of a port in network order.
htons_network : (p q : ℕ) → p < 256 → q < 256 → htons (p + q * 256) ≡ p * 256 + q
unfolding htons
htons_network p q hp hq = omega arith

pub read_alias_lem :
    (pre rest : Bytes) (f g p q a b c d n : ℕ)
    → p < 256
    → q < 256
    → read_alias
        (length pre)
        (suc (suc (suc (suc (suc (suc (suc (suc n))))))))
        (pre ++ (sockaddr f g p q a b c d ++ rest))
      ≡ ok (alias_of a b c d (p * 256 + q))
unfolding read_alias to_tcp_address
read_alias_lem pre rest f g p q a b c d n hp hq =
    let whole =
      slice-append (suc (suc (suc (suc (suc (suc (suc (suc n)))))))) pre
        (sockaddr f g p q a b c d ++ rest) in
    rw (whole, read_alias) (rw (whole, dotted_four a b c d, htons_network p q hp hq) refl)

pub subnet_of-IsSubnet : (a b c : ℕ) → IsSubnet (subnet_of a b c)
unfolding join
subnet_of-IsSubnet a b c =
    rw
      (
        split-append_lacking b'.' (to_text (nat a)) (to_text (nat b) ++ b'.' ∷ to_text (nat c))
            (dot_text-Lacks a),
        split-append_lacking b'.' (to_text (nat b)) (to_text (nat c)) (dot_text-Lacks b),
        split-Lacks b'.' (to_text (nat c)) (dot_text-Lacks c),
      )
      refl

pub subnet_of-Lacks : (a b c : ℕ) → Lacks b':' (subnet_of a b c)
unfolding join
subnet_of-Lacks a b c =
    Lacks-append b':' (to_text (nat a)) (b'.' ∷ (to_text (nat b) ++ b'.' ∷ to_text (nat c)))
      (colon_text-Lacks a)
      (
        omega arith,
        Lacks-append b':' (to_text (nat b)) (b'.' ∷ to_text (nat c)) (colon_text-Lacks b)
            (omega arith, colon_text-Lacks c),
      )

-- From an address of at least eight bytes, unisockets_bind and unisockets_connect make an alias
-- that the server parses to the address's first three bytes as the subnet, its last byte as the
-- suffix, and the two bytes of the port in network order. Condition: the port's bytes are below 256.
pub read_alias-parsed :
    (pre rest : Bytes) (f g p q a b c d n : ℕ)
    → 8 ≤ n
    → p < 256
    → q < 256
    → (alias : Text) × (read_alias (length pre) n (pre ++ (sockaddr f g p q a b c d ++ rest))
        ≡ ok alias)
      × ((parse_tcp_address alias).port ≡ nat (p * 256 + q))
      × (parse_ip_address (parse_tcp_address alias).ip_address
          ≡ record { subnet = subnet_of a b c; suffix = nat d })
read_alias-parsed pre rest f g p q a b c d n enough hp hq =
    let (port, ip) =
      parse-to_tcp_ip (subnet_of a b c) d (p * 256 + q) (subnet_of-IsSubnet a b c)
        (subnet_of-Lacks a b c) in
    let count : n ≡ suc (suc (suc (suc (suc (suc (suc (suc (n - 8)))))))) = omega arith in
    (
      alias_of a b c d (p * 256 + q),
      rw count (read_alias_lem pre rest f g p q a b c d (n - 8) hp hq),
      port,
      ip,
    )
