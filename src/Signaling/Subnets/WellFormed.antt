-- ===== src/Signaling/Subnets/WellFormed.antt =====
-- The invariant of the address pool: suffixes and ports are distinct natural numbers.
use unisockets.Prelude.{
  ◌≡◌, refl, false, ◌==◌, List, [], ◌∷◌, some, Text, text_key, arith, Bool-cases, inl, inr,
  if◌then◌else◌, subst,
}
use unisockets.Map.{get, set, delete, keys, contains, Distinct}
use unisockets.Map.Laws.{get-set, get-delete}
use unisockets.Map.Keys.{keys-set-Distinct, keys-delete-Distinct}
use unisockets.Number.{Number, nan, nat, neg, number_key, number_beq_iff, strict_eq}
use unisockets.Number.Gap.{AllNat, IsNat}
use unisockets.Number.Numbering.{IsNumbering}
use unisockets.Signaling.Subnets.{MMember, Members, Subnets, holds_port, without_port}

pub record IsMembers (m : Members) : Type 0 where
  pub suffixes : IsNumbering (keys m)
  pub ports : (n : Number) (w : MMember) → get n m ≡ some w → IsNumbering w.ports

pub record IsWellFormed (s : Subnets) : Type 0 where
  pub members : (subnet : Text) (m : Members) → get subnet s ≡ some m → IsMembers m

pub contains-without :
    (k port : Number) (l : List Number)
    → AllNat l
    → contains k (without_port port l) ≡ (if port == k then false else contains k l)
unfolding contains without_port strict_eq
contains-without k port [] n = ground arith
contains-without k port (nan ∷ l) n = absurd n.0
contains-without k port (neg a ∷ l) n = absurd n.0
contains-without k port (nat a ∷ l) n = ground (
  arith,
  contains-without k port l n.1,
  number_beq_iff (nat a) port,
  number_beq_iff (nat a) k,
  number_beq_iff port k,
)

pub without-AllNat : (port : Number) (l : List Number) → AllNat l → AllNat (without_port port l)
unfolding without_port
without-AllNat port [] n = tt
without-AllNat port (a ∷ l) n = ground (arith, without-AllNat port l n.1)

pub without-Distinct :
    (port : Number) (l : List Number) → AllNat l → Distinct l → Distinct (without_port port l)
unfolding without_port
without-Distinct port [] n d = tt
without-Distinct port (a ∷ l) n d =
    ground (arith, without-Distinct port l n.1 d.1, contains-without a port l n.1)

pub holds-contains :
    (port : Number) (l : List Number) → AllNat l → holds_port port l ≡ contains port l
unfolding holds_port contains strict_eq
holds-contains port [] n = refl
holds-contains port (nan ∷ l) n = absurd n.0
holds-contains port (neg a ∷ l) n = absurd n.0
holds-contains port (nat a ∷ l) n = ground (arith, holds-contains port l n.1)

-- Maps of members.
keys-set-AllNat :
    (k : Number) (w : MMember) (m : Members) → IsNat k → AllNat (keys m) → AllNat (keys (set k w m))
unfolding keys set
keys-set-AllNat k w [] h n = (h, tt)
keys-set-AllNat k w ((j, v) ∷ m) h n = ground (arith, keys-set-AllNat k w m h n.1)

keys-delete-AllNat : (k : Number) (m : Members) → AllNat (keys m) → AllNat (keys (delete k m))
unfolding keys delete
keys-delete-AllNat k [] n = tt
keys-delete-AllNat k ((j, v) ∷ m) n = ground (arith, keys-delete-AllNat k m n.1)

-- The key of an entry that is there is a natural number, if all are.
pub IsNat-of_get :
    (k : Number) (m : Members) {w : MMember} → AllNat (keys m) → get k m ≡ some w → IsNat k
unfolding keys get
IsNat-of_get k [] n e = cc
IsNat-of_get k ((j, v) ∷ m) {w} n e = elim (Bool-cases (j == k)) [
  | inl hit ↦ rw (← (number_beq_iff j k).0 hit) n.0
  | inr miss ↦ IsNat-of_get k m n.1 (rw miss at e)
]

pub set-IsMembers :
    (k : Number) (w : MMember) {m : Members}
    → IsNat k
    → IsNumbering w.ports
    → IsMembers m
    → IsMembers (set k w m)
set-IsMembers k w {m} h p v = record {
  suffixes = (keys-set-AllNat k w m h v.suffixes.0, keys-set-Distinct k w m v.suffixes.1);
  ports = λ n u e. elim (Bool-cases (k == n)) [
    | inl hit ↦ ground (arith, get-set k n w m)
    | inr miss ↦ v.ports n u (ground (arith, get-set k n w m))
  ];
}

pub delete-IsMembers : (k : Number) {m : Members} → IsMembers m → IsMembers (delete k m)
delete-IsMembers k {m} v = record {
  suffixes = (keys-delete-AllNat k m v.suffixes.0, keys-delete-Distinct k m v.suffixes.1);
  ports = λ n u e. elim (Bool-cases (k == n)) [
    | inl hit ↦ cc (get-delete k n m, hit)
    | inr miss ↦ v.ports n u (ground (arith, get-delete k n m))
  ];
}

pub nil-IsMembers : IsMembers []
unfolding keys
nil-IsMembers = record { suffixes = (tt, tt); ports = λ n w e. unfold get in cc }

pub set-IsWellFormed :
    (subnet : Text) (m : Members) {s : Subnets}
    → IsMembers m
    → IsWellFormed s
    → IsWellFormed (set subnet m s)
set-IsWellFormed subnet m {s} h v = record {
  members = λ net u e. elim (Bool-cases (subnet == net)) [
    | inl hit ↦ subst IsMembers (ground (arith, get-set subnet net m s)) h
    | inr miss ↦ v.members net u (ground (arith, get-set subnet net m s))
  ];
}
