-- ===== src/Number/Numbering.antt =====
-- Lists of distinct natural numbers: sorting one, and adding a number.
use unisockets.Prelude.{◌≡◌, refl, ◌||◌, false, ◌==◌, ◌++◌, List, [], ◌∷◌, arith}
use unisockets.Map.{contains, Distinct}
use unisockets.Number.{Number, number_key, number_beq_iff, sort, insert}
use unisockets.Number.Gap.{AllNat, IsNat, contains-sort, contains-insert}

-- Distinct natural numbers.
abbrev pub IsNumbering : List Number → Type 0
IsNumbering l = AllNat l × Distinct l

insert-AllNat : (a : Number) (l : List Number) → IsNat a → AllNat l → AllNat (insert a l)
unfolding insert
insert-AllNat a [] h n = (h, tt)
insert-AllNat a (b ∷ l) h n = ground (arith, insert-AllNat a l h n.1)

pub sort-AllNat : (l : List Number) → AllNat l → AllNat (sort l)
unfolding sort
sort-AllNat [] n = tt
sort-AllNat (a ∷ l) n = insert-AllNat a (sort l) n.0 (sort-AllNat l n.1)

insert-Distinct :
    (a : Number) (l : List Number) → contains a l ≡ false → Distinct l → Distinct (insert a l)
unfolding insert contains
insert-Distinct a [] h d = (refl, tt)
insert-Distinct a (b ∷ l) h d =
    ground
      (arith, insert-Distinct a l, contains-insert b a l, number_beq_iff a b, number_beq_iff b a)

pub sort-Distinct : (l : List Number) → Distinct l → Distinct (sort l)
unfolding sort
sort-Distinct [] d = tt
sort-Distinct (a ∷ l) d = insert-Distinct a (sort l) (rw contains-sort d.0) (sort-Distinct l d.1)

pub append-AllNat : (l : List Number) (a : Number) → AllNat l → IsNat a → AllNat (l ++ a ∷ [])
append-AllNat [] a n h = (h, tt)
append-AllNat (b ∷ l) a n h = (n.0, append-AllNat l a n.1 h)

pub contains-append :
    (k a : Number) (l : List Number) → contains k (l ++ a ∷ []) ≡ (contains k l || a == k)
unfolding contains
contains-append k a [] = ground arith
contains-append k a (b ∷ l) = ground (arith, contains-append k a l)

pub append-Distinct :
    (l : List Number) (a : Number) → Distinct l → contains a l ≡ false → Distinct (l ++ a ∷ [])
unfolding contains
append-Distinct [] a d h = (refl, tt)
append-Distinct (b ∷ l) a d h =
    ground (
      arith,
      append-Distinct l a d.1,
      contains-append b a l,
      number_beq_iff a b,
      number_beq_iff b a,
    )
