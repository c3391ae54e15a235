-- ===== src/Signaling/Subnets/Preservation.antt =====
-- The invariant of the address pool, and its methods.
use unisockets.Prelude.{[], Text, text_key, ltb, Bool-cases, Option-cases, inl, inr}
use unisockets.Map.{get, has, keys, get_or}
use unisockets.Number.{Number, nat, number_key, sort}
use unisockets.Number.Gap.{IsNat, next_free, next_free_least, contains-sort}
use unisockets.Number.Numbering.{
  IsNumbering, sort-AllNat, sort-Distinct, append-AllNat, append-Distinct,
}
use unisockets.Signaling.Address.{parse_ip_address, parse_tcp_address}
use unisockets.Signaling.Subnets.{
  MMember, Members, Subnets, create_ip_address, ensure_subnet, create_tcp_address, take_port,
  claim_tcp_address, remove_ip_address, remove_tcp_address, ensure_member, without_port,
}
use unisockets.Signaling.Subnets.Cases.{
  no_ports, create_tcp_cases, claim_tcp_cases, remove_ip_cases, remove_tcp_cases,
}
use unisockets.Signaling.Subnets.WellFormed.{
  IsMembers, IsWellFormed, IsNat-of_get, set-IsMembers, delete-IsMembers, nil-IsMembers,
  set-IsWellFormed, without-AllNat, without-Distinct, holds-contains,
}

pub get_or-IsMembers :
    (subnet : Text) {s : Subnets} → IsWellFormed s → IsMembers (get_or [] (get subnet s))
get_or-IsMembers subnet {s} v = elim (Option-cases (get subnet s)) [
  | inl e ↦ rw e nil-IsMembers
  | inr (m, e) ↦ rw e (v.members subnet m e)
]

pub ensure_subnet-IsWellFormed :
    (subnet : Text) {s : Subnets} → IsWellFormed s → IsWellFormed (ensure_subnet subnet s)
unfolding ensure_subnet
ensure_subnet-IsWellFormed subnet {s} v = elim (Bool-cases (has subnet s)) [
  | inl e ↦ rw e v
  | inr e ↦ rw e (set-IsWellFormed subnet [] nil-IsMembers v)
]

pub create_ip_address-IsWellFormed :
    (subnet : Text) {s : Subnets} → IsWellFormed s → IsWellFormed (create_ip_address subnet s).1
unfolding create_ip_address
create_ip_address-IsWellFormed subnet {s} v =
    let v' = ensure_subnet-IsWellFormed subnet v in
    let m = get_or [] (get subnet (ensure_subnet subnet s)) in
    elim (Bool-cases (ltb 255 (next_free (keys m)))) [
      | inl e ↦ rw e v'
      | inr e ↦ rw e (
          set-IsWellFormed subnet _
            (set-IsMembers (nat (next_free (keys m))) (record { ports = [] }) tt (tt, tt)
              (get_or-IsMembers subnet v'))
            v')
    ]

take_port-IsNumbering : (m : MMember) → IsNumbering m.ports → IsNumbering (take_port m).1.ports
unfolding take_port
take_port-IsNumbering m (n, d) = (
  append-AllNat (sort m.ports) (nat (next_free m.ports)) (sort-AllNat m.ports n) tt,
  append-Distinct (sort m.ports) (nat (next_free m.ports)) (sort-Distinct m.ports d)
      (rw contains-sort (next_free_least m.ports n d).0),
)

pub create_tcp_address-IsWellFormed :
    (ip : Text) {s : Subnets} → IsWellFormed s → IsWellFormed (create_tcp_address ip s).1
create_tcp_address-IsWellFormed ip {s} v =
    create_tcp_cases ip s (λ r. IsWellFormed r.1) (λ e. v) (λ m e f. v)
      λ m w e f.
        let a = parse_ip_address ip in
        let ms = v.members a.subnet m e in
        set-IsWellFormed a.subnet _
          (set-IsMembers a.suffix (take_port w).1 (IsNat-of_get a.suffix m ms.suffixes.0 f)
            (take_port-IsNumbering w (ms.ports a.suffix w f)) ms)
          v

-- The address names a natural suffix and a natural port.
abbrev pub IsTcpAddress : Text → Type 0
IsTcpAddress t =
    IsNat (parse_tcp_address t).port
    × IsNat (parse_ip_address (parse_tcp_address t).ip_address).suffix

pub ensure_member-IsMembers :
    (n : Number) {m : Members} → IsNat n → IsMembers m → IsMembers (ensure_member n m)
unfolding ensure_member
ensure_member-IsMembers n {m} h v = elim (Bool-cases (has n m)) [
  | inl e ↦ rw e v
  | inr e ↦ rw e (set-IsMembers n no_ports h (tt, tt) v)
]

-- The ports of a member, or none.
pub ports-IsNumbering :
    (n : Number) {m : Members} → IsMembers m → IsNumbering (get_or no_ports (get n m)).ports
ports-IsNumbering n {m} v = elim (Option-cases (get n m)) [
  | inl e ↦ rw e (tt, tt)
  | inr (w, e) ↦ rw e (v.ports n w e)
]

pub claim_tcp_address-IsWellFormed :
    (t : Text) {s : Subnets}
    → IsTcpAddress t
    → IsWellFormed s
    → IsWellFormed (claim_tcp_address t s).1
claim_tcp_address-IsWellFormed t {s} (port, suffix) v =
    let a = parse_ip_address (parse_tcp_address t).ip_address in
    claim_tcp_cases t s (λ r. IsWellFormed r.1) (λ e. v)
      (λ m m' w e em ew f. rw em (
        set-IsWellFormed a.subnet _
          (ensure_member-IsMembers a.suffix suffix (v.members a.subnet m e)) v))
      (λ m m' w e em ew f.
        let vm : IsMembers m' =
          rw em (ensure_member-IsMembers a.suffix suffix (v.members a.subnet m e)) in
        let (n, d) = ports-IsNumbering a.suffix vm in
        set-IsWellFormed a.subnet _
          (set-IsMembers a.suffix _ suffix
            (rw ew (
              append-AllNat _ _ n port,
              append-Distinct _ _ d (rw (← holds-contains _ _ n) (rw (← ew) f)),
            ))
            vm)
          v)

pub remove_ip_address-IsWellFormed :
    (ip : Text) {s : Subnets} → IsWellFormed s → IsWellFormed (remove_ip_address ip s)
remove_ip_address-IsWellFormed ip {s} v =
    remove_ip_cases ip s IsWellFormed (λ e. v) (λ m e f. v)
      λ m e f.
        let a = parse_ip_address ip in
        set-IsWellFormed a.subnet _ (delete-IsMembers a.suffix (v.members a.subnet m e)) v

pub remove_tcp_address-IsWellFormed :
    (t : Text) {s : Subnets} → IsWellFormed s → IsWellFormed (remove_tcp_address t s)
remove_tcp_address-IsWellFormed t {s} v =
    remove_tcp_cases t s IsWellFormed (λ e. v) (λ m e f. v)
      λ m w e f.
        let a = parse_ip_address (parse_tcp_address t).ip_address in
        let port = (parse_tcp_address t).port in
        let ms = v.members a.subnet m e in
        let (n, d) = ms.ports a.suffix w f in
        set-IsWellFormed a.subnet _
          (set-IsMembers a.suffix (record { ports = without_port port w.ports })
            (IsNat-of_get a.suffix m ms.suffixes.0 f)
            (without-AllNat port w.ports n, without-Distinct port w.ports n d) ms)
          v
