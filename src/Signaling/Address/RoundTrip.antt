-- ===== src/Signaling/Address/RoundTrip.antt =====
-- What the parsers read from the addresses that the server makes.
use unisockets.Prelude.{
  ℕ, zero, suc, ◌≡◌, refl, [], ◌∷◌, ◌++◌, List, some, Text, take, get_elem?, length, arith, inl,
  inr, append-nil, append_assoc,
}
use unisockets.Text.{split, Lacks, split-append, split-Lacks, join-split, split-append_lacking}
use unisockets.Number.{nat, parse_int?, to_text}
use unisockets.Number.RoundTrip.{parse_int-to_text, to_text-Lacks, EndsNumber}
use unisockets.Signaling.Address.{
  to_ip_address, to_tcp_address, parse_ip_address, parse_tcp_address,
}

-- Three parts between dots, as in "10.0.0".
abbrev pub IsSubnet : Text → Type 0
IsSubnet subnet = length (split b'.' subnet) ≡ 3

take-append : (n : ℕ) (ps qs : List Text) → length ps ≡ n → take n (ps ++ qs) ≡ ps
take-append zero [] qs h = refl
take-append (suc n) [] qs h = absurd (omega arith)
take-append zero (p ∷ ps) qs h = absurd (omega arith)
take-append (suc n) (p ∷ ps) qs h = rw (take-append n ps qs (omega arith))

get_elem?-append :
    (n : ℕ) (ps qs : List Text) → length ps ≡ n → get_elem? (ps ++ qs) n ≡ get_elem? qs 0
get_elem?-append zero [] qs h = refl
get_elem?-append (suc n) [] qs h = absurd (omega arith)
get_elem?-append zero (p ∷ ps) qs h = absurd (omega arith)
get_elem?-append (suc n) (p ∷ ps) qs h = get_elem?-append n ps qs (omega arith)

parse_int?-to_text :
    (n : ℕ) (rest : Text) → EndsNumber rest → parse_int? (some (to_text (nat n) ++ rest)) ≡ nat n
unfolding parse_int?
parse_int?-to_text n rest h = parse_int-to_text n rest h

-- An address of a subnet, with text behind it that has no dot and does not go on with the number,
-- is parsed to the subnet and the suffix that it was made of.
pub parse_ip-to_ip_rest :
    (subnet : Text) (n : ℕ) (rest : Text)
    → IsSubnet subnet
    → EndsNumber rest
    → Lacks b'.' (to_text (nat n) ++ rest)
    → parse_ip_address (to_ip_address subnet (nat n) ++ rest)
      ≡ record { subnet = subnet; suffix = nat n }
unfolding parse_ip_address to_ip_address
parse_ip-to_ip_rest subnet n rest three ends lacks =
    rw (append_assoc subnet (b'.' ∷ to_text (nat n)) rest) (
      rw (split-append b'.' subnet (to_text (nat n) ++ rest)) (
        rw (split-Lacks b'.' (to_text (nat n) ++ rest) lacks) (
          rw
            (
              take-append 3 (split b'.' subnet) ((to_text (nat n) ++ rest) ∷ []) three,
              get_elem?-append 3 (split b'.' subnet) ((to_text (nat n) ++ rest) ∷ []) three,
              join-split b'.' subnet,
              parse_int?-to_text n rest ends,
            )
            refl)))

pub dot_text-Lacks : (n : ℕ) → Lacks b'.' (to_text (nat n))
dot_text-Lacks n = to_text-Lacks b'.' n (inl (omega arith))

pub colon_text-Lacks : (n : ℕ) → Lacks b':' (to_text (nat n))
colon_text-Lacks n = to_text-Lacks b':' n (inr (omega arith))

-- parseIPAddress reads back what toIPAddress makes of a subnet of three parts.
pub parse_ip-to_ip :
    (subnet : Text) (n : ℕ)
    → IsSubnet subnet
    → parse_ip_address (to_ip_address subnet (nat n)) ≡ record { subnet = subnet; suffix = nat n }
parse_ip-to_ip subnet n three =
    rw (← append-nil (to_ip_address subnet (nat n)))
      (parse_ip-to_ip_rest subnet n [] three tt (rw append-nil (dot_text-Lacks n)))

-- parseTCPAddress reads back what toTCPAddress makes of an address without a colon.
pub parse_tcp-to_tcp :
    (ip : Text) (p : ℕ)
    → Lacks b':' ip
    → parse_tcp_address (to_tcp_address ip (nat p)) ≡ record { ip_address = ip; port = nat p }
unfolding parse_tcp_address to_tcp_address
parse_tcp-to_tcp ip p lacks = rw (split-append_lacking b':' ip (to_text (nat p)) lacks) (
    rw (split-Lacks b':' (to_text (nat p)) (colon_text-Lacks p))
      (rw (← append-nil (to_text (nat p))) (rw (parse_int?-to_text p [] tt) refl)))

pub Lacks-append : (sep : ℕ) (s t : Text) → Lacks sep s → Lacks sep t → Lacks sep (s ++ t)
Lacks-append sep [] t hs ht = ht
Lacks-append sep (c ∷ s) t hs ht = (hs.0, Lacks-append sep s t hs.1 ht)

pub to_ip-Lacks :
    (subnet : Text) (n : ℕ) → Lacks b':' subnet → Lacks b':' (to_ip_address subnet (nat n))
unfolding to_ip_address
to_ip-Lacks subnet n h =
    Lacks-append b':' subnet (b'.' ∷ to_text (nat n)) h (omega arith, colon_text-Lacks n)

-- A whole TCP address is read back, subnet, suffix and port, if the subnet has three parts and no
-- colon.
pub parse-to_tcp_ip :
    (subnet : Text) (n p : ℕ)
    → IsSubnet subnet
    → Lacks b':' subnet
    → let t = parse_tcp_address (to_tcp_address (to_ip_address subnet (nat n)) (nat p)) in
      (t.port ≡ nat p)
      × (parse_ip_address t.ip_address ≡ record { subnet = subnet; suffix = nat n })
parse-to_tcp_ip subnet n p three lacks =
    let e = parse_tcp-to_tcp (to_ip_address subnet (nat n)) p (to_ip-Lacks subnet n lacks) in
    (rw e, rw e (parse_ip-to_ip subnet n three))

-- parseIPAddress does not stop at the colon: of a TCP address it reads the subnet and the suffix.
pub parse_ip-to_tcp :
    (subnet : Text) (n p : ℕ)
    → IsSubnet subnet
    → parse_ip_address (to_tcp_address (to_ip_address subnet (nat n)) (nat p))
      ≡ record { subnet = subnet; suffix = nat n }
unfolding to_tcp_address
parse_ip-to_tcp subnet n p three =
    parse_ip-to_ip_rest subnet n (b':' ∷ to_text (nat p)) three
      (inr (omega arith), omega arith, omega arith)
      (Lacks-append b'.' (to_text (nat n)) (b':' ∷ to_text (nat p)) (dot_text-Lacks n)
        (omega arith, dot_text-Lacks p))
