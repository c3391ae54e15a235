-- ===== src/Number/Gap.antt =====
-- The first number missing from a list of distinct natural numbers.
use unisockets.Prelude.{
  ℕ, suc, ◌≤◌, ◌<◌, ◌≡◌, refl, true, false, ◌||◌, List, [], ◌∷◌, arith, ◌==◌, nat_beq, Bool-cases,
  inl, inr, if◌then◌else◌,
}
use unisockets.Map.{contains, Distinct}
use unisockets.Number.{Number, nan, nat, neg, number_key, insert, sort}

-- The loop of createIPAddress and createTCPAddress over the sorted numbers, from index `i` on:
-- the first index that differs from its entry, or the length.
unfoldable pub first_gap : ℕ → List Number → ℕ
first_gap i [] = i
first_gap i (p ∷ ps) = let rest = first_gap (suc i) ps in if p == nat i then rest else i

abbrev pub IsNat : Number → Type 0
IsNat (nat n) = Unit
IsNat _ = ⊥

abbrev pub AllNat : List Number → Type 0
AllNat [] = Unit
AllNat (p ∷ ps) = IsNat p × AllNat ps

-- Natural numbers from `lo` on, each larger than the one before.
abbrev Ascending : ℕ → List Number → Type 0
Ascending lo [] = Unit
Ascending lo (nat n ∷ ps) = (lo ≤ n) × Ascending (suc n) ps
Ascending lo (_ ∷ ps) = ⊥

pub contains-insert :
    (k a : Number) (l : List Number) → contains k (insert a l) ≡ (a == k || contains k l)
unfolding contains insert
contains-insert k a [] = refl
contains-insert k a (b ∷ l) = ground (arith, contains-insert k a l)

pub contains-sort : (k : Number) (l : List Number) → contains k (sort l) ≡ contains k l
unfolding contains sort
contains-sort k [] = refl
contains-sort k (a ∷ l) = ground (arith, contains-sort k l, contains-insert k a (sort l))

insert-Ascending :
    (lo n : ℕ) (l : List Number)
    → lo ≤ n
    → contains (nat n) l ≡ false
    → Ascending lo l
    → Ascending lo (insert (nat n) l)
unfolding contains insert
insert-Ascending lo n [] h f a = (h, tt)
insert-Ascending lo n (nan ∷ l) h f a = absurd a
insert-Ascending lo n (neg m ∷ l) h f a = absurd a
insert-Ascending lo n (nat m ∷ l) h f (lm, a) = ground (arith, insert-Ascending (suc m) n l)

sort-Ascending : (l : List Number) → AllNat l → Distinct l → Ascending 0 (sort l)
unfolding sort
sort-Ascending [] n d = tt
sort-Ascending (nan ∷ l) n d = absurd n.0
sort-Ascending (neg m ∷ l) n d = absurd n.0
sort-Ascending (nat m ∷ l) n d =
    insert-Ascending 0 m (sort l) (omega arith) (rw contains-sort d.0) (sort-Ascending l n.1 d.1)

below-Ascending :
    (i lo : ℕ) (l : List Number) → i < lo → Ascending lo l → contains (nat i) l ≡ false
unfolding contains
below-Ascending i lo [] h a = refl
below-Ascending i lo (nan ∷ l) h a = absurd a
below-Ascending i lo (neg m ∷ l) h a = absurd a
below-Ascending i lo (nat m ∷ l) h a = ground (arith, below-Ascending i (suc m) l (omega arith) a.1)

first_gap-le : (i : ℕ) (l : List Number) → i ≤ first_gap i l
unfolding first_gap
first_gap-le i [] = omega arith
first_gap-le i (p ∷ l) = ground (arith, first_gap-le (suc i) l)

first_gap_free :
    (i : ℕ) (l : List Number) → Ascending i l → contains (nat (first_gap i l)) l ≡ false
unfolding contains first_gap
first_gap_free i [] a = refl
first_gap_free i (nan ∷ l) a = absurd a
first_gap_free i (neg m ∷ l) a = absurd a
first_gap_free i (nat m ∷ l) (lm, a) = elim (Bool-cases (nat_beq m i)) [
  | inl hit ↦
      let e : m ≡ i = ground arith in
      let a' : Ascending (suc i) l = rw e at a in
      ground (arith, first_gap_free (suc i) l a', first_gap-le (suc i) l)
  | inr miss ↦ ground (arith, below-Ascending i (suc m) l (ground arith) a)
]

first_gap_full : (i k : ℕ) (l : List Number) → i ≤ k → k < first_gap i l → contains (nat k) l ≡ true
unfolding contains first_gap
first_gap_full i k [] h g = absurd (omega arith)
first_gap_full i k (p ∷ l) h g = ground (arith, first_gap_full (suc i) k l)

-- The least number that is free: the result of the search for a free suffix or port.
unfoldable pub next_free : List Number → ℕ
unfolding sort first_gap
next_free l = first_gap 0 (sort l)

-- Over distinct natural numbers the search finds one that is not taken, and the smaller ones all are.
pub next_free_least :
    (l : List Number)
    → AllNat l
    → Distinct l
    → (contains (nat (next_free l)) l ≡ false)
      × ((k : ℕ) → k < next_free l → contains (nat k) l ≡ true)
unfolding next_free
next_free_least l n d = (
  rw (← contains-sort (nat (first_gap 0 (sort l))) l)
      (first_gap_free 0 (sort l) (sort-Ascending l n d)),
  λ k h. rw (← contains-sort (nat k) l) (first_gap_full 0 k (sort l) (omega arith) h),
)
