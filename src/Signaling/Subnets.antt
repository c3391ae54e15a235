-- ===== src/Signaling/Subnets.antt =====
-- The address pool of pkg/web/signaling/services/signaling-server.ts: `subnets` and the methods
-- that run under `subnetsMutex`. Each method holds the mutex from start to end, so it is one
-- function from the pool to a result and the new pool; an update of the nested maps is in place.
mod Cases
pub mod WellFormed
pub mod Preservation
pub mod View
pub mod Effects
pub mod Allocation
pub mod Ports
pub mod Removal
pub mod Named
pub mod Calls
use unisockets.Prelude.{
  ℕ, Bool, true, false, ◌||◌, ◌++◌, List, [], ◌∷◌, Option, none, some, Text, codes, text_key, ltb,
  if◌then◌else◌,
}
use unisockets.Map.{Map, get, has, set, delete, keys, get_or}
use unisockets.Number.{Number, nat, number_key, strict_eq, sort}
use unisockets.Number.Gap.{first_gap, next_free}
use unisockets.Signaling.Address.{
  to_ip_address, to_tcp_address, parse_ip_address, parse_tcp_address,
}
use unisockets.Signaling.Errors.{
  Result, ok, err, port_already_allocated, subnet_does_not_exist, suffix_does_not_exist,
}

-- models/member.ts
pub record MMember : Type 0 where
  pub ports : List Number

abbrev pub Members : Type 0
Members = Map Number MMember

abbrev pub Subnets : Type 0
Subnets = Map Text Members

abbrev pub overflow_id : Text
overflow_id = codes "-1"

-- The subnet's members once it is sure to be there.
unfoldable pub ensure_subnet : Text → Subnets → Subnets
ensure_subnet subnet s = if has subnet s then s else set subnet [] s

unfoldable pub create_ip_address : Text → Subnets → Text × Subnets
unfolding ensure_subnet
create_ip_address subnet s =
    let s' = ensure_subnet subnet s in
    let members = get_or [] (get subnet s') in
    let new_suffix = next_free (keys members) in
    if ltb 255 new_suffix then (overflow_id, s') else (
      to_ip_address subnet (nat new_suffix),
      set subnet (set (nat new_suffix) (record { ports = [] }) members) s',
    )

-- `sort` orders the list in place, and the new port is pushed behind it.
unfoldable pub take_port : MMember → ℕ × MMember
take_port m =
    let new_port = next_free m.ports in
    (new_port, record { ports = sort m.ports ++ nat new_port ∷ [] })

unfoldable pub create_tcp_address : Text → Subnets → Result Text × Subnets
unfolding take_port
create_tcp_address ip_address s =
    let a = parse_ip_address ip_address in
    elim (get a.subnet s) [
      | none ↦ (err subnet_does_not_exist, s)
      | some members ↦ elim (get a.suffix members) [
        | none ↦ (err suffix_does_not_exist, s)
        | some m ↦ (
          ok (to_tcp_address (to_ip_address a.subnet a.suffix) (nat (take_port m).0)),
          set a.subnet (set a.suffix (take_port m).1 members) s,
        )
      ]
    ]

-- `ports.find((p) => p === port) !== undefined`
unfoldable pub holds_port : Number → List Number → Bool
holds_port port [] = false
holds_port port (p ∷ ps) = strict_eq p port || holds_port port ps

-- `ports.filter((p) => p !== port)`
unfoldable pub without_port : Number → List Number → List Number
without_port port [] = []
without_port port (p ∷ ps) =
    let rest = without_port port ps in if strict_eq p port then rest else p ∷ rest

-- The member that a claimed address belongs to is made where there is none.
unfoldable pub ensure_member : Number → Members → Members
ensure_member suffix members =
    if has suffix members then members else set suffix (record { ports = [] }) members

unfoldable pub claim_tcp_address : Text → Subnets → Result (Unit {0}) × Subnets
claim_tcp_address tcp_address s =
    let t = parse_tcp_address tcp_address in
    let a = parse_ip_address t.ip_address in
    elim (get a.subnet s) [
      | none ↦ (err subnet_does_not_exist, s)
      | some members ↦
          let members' = ensure_member a.suffix members in
          let m = get_or (record { ports = [] }) (get a.suffix members') in
          if holds_port t.port m.ports
          then (err port_already_allocated, set a.subnet members' s)
          else (
            ok tt,
            set a.subnet (set a.suffix (record { ports = m.ports ++ t.port ∷ [] }) members') s,
          )
    ]

unfoldable pub remove_ip_address : Text → Subnets → Subnets
remove_ip_address ip_address s =
    let a = parse_ip_address ip_address in
    elim (get a.subnet s) [
      | none ↦ s
      | some members ↦ if has a.suffix members then set a.subnet (delete a.suffix members) s else s
    ]

unfoldable pub remove_tcp_address : Text → Subnets → Subnets
remove_tcp_address tcp_address s =
    let t = parse_tcp_address tcp_address in
    let a = parse_ip_address t.ip_address in
    elim (get a.subnet s) [
      | none ↦ s
      | some members ↦ elim (get a.suffix members) [
        | none ↦ s
        | some m ↦
            set a.subnet (set a.suffix (record { ports = without_port t.port m.ports }) members) s
      ]
    ]
