-- ===== src/Signaling/Subnets/Cases.antt =====
-- One rule for each method of the address pool, with a premise for each of its branches.
use unisockets.Prelude.{
  ◌≡◌, refl, true, false, ◌++◌, [], ◌∷◌, none, some, Text, text_key, Bool-cases, Option-cases, inl,
  inr,
}
use unisockets.Map.{get, has, set, delete, get_or}
use unisockets.Number.{nat, number_key}
use unisockets.Signaling.Address.{
  to_ip_address, to_tcp_address, parse_ip_address, parse_tcp_address,
}
use unisockets.Signaling.Errors.{
  Result, ok, err, port_already_allocated, subnet_does_not_exist, suffix_does_not_exist,
}
use unisockets.Signaling.Subnets.{
  MMember, Members, Subnets, create_tcp_address, take_port, claim_tcp_address, remove_ip_address,
  remove_tcp_address, ensure_member, holds_port, without_port,
}

module _ (ip : Text) (s : Subnets) (P : Result Text × Subnets → Type 0) where
  pub create_tcp_cases :
      (get (parse_ip_address ip).subnet s ≡ none → P (err subnet_does_not_exist, s))
      → ((m : Members)
          → get (parse_ip_address ip).subnet s ≡ some m
          → get (parse_ip_address ip).suffix m ≡ none
          → P (err suffix_does_not_exist, s))
      → ((m : Members) (w : MMember)
          → get (parse_ip_address ip).subnet s ≡ some m
          → get (parse_ip_address ip).suffix m ≡ some w
          → P (
            ok (
                to_tcp_address
                  (to_ip_address (parse_ip_address ip).subnet (parse_ip_address ip).suffix)
                  (nat (take_port w).0)),
            set (parse_ip_address ip).subnet (set (parse_ip_address ip).suffix (take_port w).1 m) s,
          ))
      → P (create_tcp_address ip s)
  unfolding create_tcp_address
  create_tcp_cases no_subnet no_suffix found =
      elim (Option-cases (get (parse_ip_address ip).subnet s)) [
        | inl e ↦ rw (e, create_tcp_address) (no_subnet e)
        | inr (m, e) ↦ elim (Option-cases (get (parse_ip_address ip).suffix m)) [
          | inl f ↦ rw (e, f, create_tcp_address) (no_suffix m e f)
          | inr (w, f) ↦ rw (e, f, create_tcp_address) (found m w e f)
        ]
      ]

abbrev pub no_ports : MMember
no_ports = record { ports = [] }

module _ (ip : Text) (s : Subnets) (P : Subnets → Type 0) where
  pub remove_ip_cases :
      (get (parse_ip_address ip).subnet s ≡ none → P s)
      → ((m : Members)
          → get (parse_ip_address ip).subnet s ≡ some m
          → has (parse_ip_address ip).suffix m ≡ false
          → P s)
      → ((m : Members)
          → get (parse_ip_address ip).subnet s ≡ some m
          → has (parse_ip_address ip).suffix m ≡ true
          → P (set (parse_ip_address ip).subnet (delete (parse_ip_address ip).suffix m) s))
      → P (remove_ip_address ip s)
  unfolding remove_ip_address
  remove_ip_cases no_subnet no_suffix found =
      elim (Option-cases (get (parse_ip_address ip).subnet s)) [
        | inl e ↦ rw (e, remove_ip_address) (no_subnet e)
        | inr (m, e) ↦ elim (Bool-cases (has (parse_ip_address ip).suffix m)) [
          | inl f ↦ rw (e, f, remove_ip_address) (found m e f)
          | inr f ↦ rw (e, f, remove_ip_address) (no_suffix m e f)
        ]
      ]

module _ (t : Text) (s : Subnets) (P : Subnets → Type 0) where
  pub remove_tcp_cases :
      (get (parse_ip_address (parse_tcp_address t).ip_address).subnet s ≡ none → P s)
      → ((m : Members)
          → get (parse_ip_address (parse_tcp_address t).ip_address).subnet s ≡ some m
          → get (parse_ip_address (parse_tcp_address t).ip_address).suffix m ≡ none
          → P s)
      → ((m : Members) (w : MMember)
          → get (parse_ip_address (parse_tcp_address t).ip_address).subnet s ≡ some m
          → get (parse_ip_address (parse_tcp_address t).ip_address).suffix m ≡ some w
          → P (
              set
                (parse_ip_address (parse_tcp_address t).ip_address).subnet
                (set
                  (parse_ip_address (parse_tcp_address t).ip_address).suffix
                  (record { ports = without_port (parse_tcp_address t).port w.ports })
                  m)
                s))
      → P (remove_tcp_address t s)
  unfolding remove_tcp_address
  remove_tcp_cases no_subnet no_suffix found =
      elim (Option-cases (get (parse_ip_address (parse_tcp_address t).ip_address).subnet s)) [
        | inl e ↦ rw (e, remove_tcp_address) (no_subnet e)
        | inr (m, e) ↦
            elim (Option-cases (get (parse_ip_address (parse_tcp_address t).ip_address).suffix m)) [
              | inl f ↦ rw (e, f, remove_tcp_address) (no_suffix m e f)
              | inr (w, f) ↦ rw (e, f, remove_tcp_address) (found m w e f)
            ]
      ]

module _ (t : Text) (s : Subnets) (P : Result (Unit {0}) × Subnets → Type 0) where
  pub claim_tcp_cases :
      (get (parse_ip_address (parse_tcp_address t).ip_address).subnet s ≡ none
        → P (err subnet_does_not_exist, s))
      → ((m m' : Members) (w : MMember)
          → get (parse_ip_address (parse_tcp_address t).ip_address).subnet s ≡ some m
          → m' ≡ ensure_member (parse_ip_address (parse_tcp_address t).ip_address).suffix m
          → w ≡ get_or no_ports (get (parse_ip_address (parse_tcp_address t).ip_address).suffix m')
          → holds_port (parse_tcp_address t).port w.ports ≡ true
          → P (
            err port_already_allocated,
            set (parse_ip_address (parse_tcp_address t).ip_address).subnet m' s,
          ))
      → ((m m' : Members) (w : MMember)
          → get (parse_ip_address (parse_tcp_address t).ip_address).subnet s ≡ some m
          → m' ≡ ensure_member (parse_ip_address (parse_tcp_address t).ip_address).suffix m
          → w ≡ get_or no_ports (get (parse_ip_address (parse_tcp_address t).ip_address).suffix m')
          → holds_port (parse_tcp_address t).port w.ports ≡ false
          → P (
            ok tt,
            set
                (parse_ip_address (parse_tcp_address t).ip_address).subnet
                (set
                  (parse_ip_address (parse_tcp_address t).ip_address).suffix
                  (record { ports = w.ports ++ (parse_tcp_address t).port ∷ [] })
                  m')
                s,
          ))
      → P (claim_tcp_address t s)
  unfolding claim_tcp_address
  claim_tcp_cases no_subnet taken free =
      let a = parse_ip_address (parse_tcp_address t).ip_address in
      elim (Option-cases (get a.subnet s)) [
        | inl e ↦ rw (e, claim_tcp_address) (no_subnet e)
        | inr (m, e) ↦
            let m' = ensure_member a.suffix m in
            let w = get_or no_ports (get a.suffix m') in
            elim (Bool-cases (holds_port (parse_tcp_address t).port w.ports)) [
              | inl f ↦ rw (e, f, claim_tcp_address) (taken m m' w e refl refl f)
              | inr f ↦ rw (e, f, claim_tcp_address) (free m m' w e refl refl f)
            ]
      ]
