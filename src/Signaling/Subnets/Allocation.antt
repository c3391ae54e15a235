-- ===== src/Signaling/Subnets/Allocation.antt =====
-- createIPAddress, by the suffix that it gives out.
use unisockets.Prelude.{
  ℕ, ◌≤◌, ◌<◌, ◌≡◌, refl, ap, ◌⊎◌, inl, inr, Bool, true, false, Text, text_key, text_beq_iff, arith,
  ltb, Bool-cases,
}
use unisockets.Map.{get, has, set, keys, get_or, contains}
use unisockets.Map.Keys.{contains-keys}
use unisockets.Number.{nat, number_key, number_beq_iff}
use unisockets.Number.Gap.{next_free, next_free_least}
use unisockets.Signaling.Address.{to_ip_address}
use unisockets.Signaling.Subnets.{Members, Subnets, overflow_id, create_ip_address, ensure_subnet}
use unisockets.Signaling.Subnets.Cases.{no_ports}
use unisockets.Signaling.Subnets.WellFormed.{IsWellFormed}
use unisockets.Signaling.Subnets.Preservation.{ensure_subnet-IsWellFormed, get_or-IsMembers}
use unisockets.Signaling.Subnets.View.{
  members_at, suffix_taken, port_taken, suffix_taken-set, port_taken-set, suffix_taken_of_port,
  members_at-ensure,
}
use unisockets.Signaling.Subnets.Effects.{SameView, TakesSuffix}

SameView-ensure : (net : Text) (s : Subnets) → SameView s (ensure_subnet net s)
unfolding suffix_taken port_taken
SameView-ensure net s = record {
  suffixes = λ net' n. ap (has n) (members_at-ensure net net' s);
  ports = λ net' n q.
      ap (λ (m : Members). contains q (get_or no_ports (get n m)).ports)
        (members_at-ensure net net' s);
}

-- The suffix that the search finds, seen from the pool.
free_suffix :
    (net : Text) (s : Subnets)
    → IsWellFormed s
    → let n = next_free (keys (members_at net s)) in
      (suffix_taken net (nat n) s ≡ false) × ((k : ℕ) → k < n → suffix_taken net (nat k) s ≡ true)
unfolding suffix_taken
free_suffix net s v =
    let m = members_at net s in
    let (naturals, distinct) = (get_or-IsMembers net v).suffixes in
    let (free, least) = next_free_least (keys m) naturals distinct in
    (
      rw (← contains-keys (nat (next_free (keys m))) m) free,
      λ k h. rw (← contains-keys (nat k) m) (least k h),
    )

TakesSuffix-set :
    (net : Text) (n : ℕ) (s s' : Subnets)
    → suffix_taken net (nat n) s ≡ false
    → SameView s s'
    → TakesSuffix net (nat n) s (set net (set (nat n) no_ports (members_at net s')) s')
unfolding contains
TakesSuffix-set net n s s' free same =
    let m = members_at net s' in
    record {
      suffixes = λ net' n'.
          ground
            (arith, suffix_taken-set net (nat n) no_ports m s' net' n' refl, same.suffixes net' n');
      ports = λ net' n' q. ground (
        arith,
        port_taken-set net (nat n) no_ports m s' net' n' q refl,
        same.ports net' n' q,
        suffix_taken_of_port net (nat n) q s free,
        text_beq_iff net net',
        number_beq_iff (nat n) n',
      );
    }

-- The two ways in which createIPAddress can end.
abbrev pub CreatesIp : Text → Subnets → Text × Subnets → Type 0
CreatesIp net s (id, t) =
    (((k : ℕ) → k ≤ 255 → suffix_taken net (nat k) s ≡ true) × (id ≡ overflow_id) × SameView s t)
    ⊎ ((n : ℕ) × (n ≤ 255)
        × (id ≡ to_ip_address net (nat n))
        × (suffix_taken net (nat n) s ≡ false)
        × ((k : ℕ) → k < n → suffix_taken net (nat k) s ≡ true)
        × TakesSuffix net (nat n) s t)

-- On a well-formed pool, createIPAddress gives out the least free suffix up to 255 and takes it,
-- with no port and nothing else changed; it answers "-1", with nothing changed, only if the
-- suffixes 0 to 255 are all taken.
pub create_ip_address-CreatesIp :
    (net : Text) (s : Subnets) → IsWellFormed s → CreatesIp net s (create_ip_address net s)
create_ip_address-CreatesIp net s v =
    let s' = ensure_subnet net s in
    let n = next_free (keys (members_at net s')) in
    let same = SameView-ensure net s in
    let (free, least) = free_suffix net s' (ensure_subnet-IsWellFormed net v) in
    elim (Bool-cases (ltb 255 n)) [
      | inl full ↦
          unfold create_ip_address in
          rw full
            (inl ((λ k h. rw (← same.suffixes net (nat k)) (least k (ground arith))), refl, same))
      | inr room ↦
          unfold create_ip_address in
          rw room (
            inr (
              n,
              ground arith,
              refl,
              rw (← same.suffixes net (nat n)) free,
              (λ k h. rw (← same.suffixes net (nat k)) (least k h)),
              TakesSuffix-set net n s s' (rw (← same.suffixes net (nat n)) free) same,
            ))
    ]

-- The address that createIPAddress gives out is determined by what is free.
pub create_ip_address_at :
    (net : Text) (n : ℕ) (s : Subnets)
    → IsWellFormed s
    → n ≤ 255
    → suffix_taken net (nat n) s ≡ false
    → ((k : ℕ) → k < n → suffix_taken net (nat k) s ≡ true)
    → (create_ip_address net s).0 ≡ to_ip_address net (nat n)
create_ip_address_at net n s v small free below = elim (create_ip_address-CreatesIp net s v) [
  | inl (full, e, same) ↦ absurd_bool (suffix_taken net (nat n) s) (full n small) free
  | inr (m, le, e, free', below', takes) ↦ elim (order n m) [
    | inl (inl less) ↦ absurd_bool (suffix_taken net (nat n) s) (below' n less) free
    | inl (inr hit) ↦ rw hit e
    | inr more ↦ absurd_bool (suffix_taken net (nat m) s) (below m more) free'
  ]
]
  where
    absurd_bool : {A : Type 0} (b : Bool) → b ≡ true → b ≡ false → A
    absurd_bool b h f = absurd (ground arith)

    order : (a b : ℕ) → ((a < b) ⊎ (a ≡ b)) ⊎ (b < a)
    order a b = omega arith
