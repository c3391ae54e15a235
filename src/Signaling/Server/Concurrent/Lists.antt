-- ===== src/Signaling/Server/Concurrent/Lists.antt =====
-- Calls taken out of a list, and names that stand in it once.
use unisockets.Prelude.{
  ℕ, zero, suc, ◌≡◌, refl, ap, ◌∙◌, ◌⊎◌, inl, inr, ◌||◌, Bool, true, false, List, [], ◌∷◌, ◌++◌,
  All, map, Option, none, some, get_elem?, Text, text_key, text_beq_iff, ◌==◌, arith, Bool-cases,
}
use unisockets.Map.{Map, contains, Distinct, has, set}
use unisockets.Map.Keys.{has-set}
use unisockets.Signaling.Operation.{BindData}
use unisockets.Signaling.Server.Action.{MAlias}
use unisockets.Signaling.Server.Concurrent.{pick, mark}

pub All-append {ℓ κ} :
    {A : Type ℓ} (P : A → Type κ) (l : List A) (x : A) → All P l → P x → All P (l ++ x ∷ [])
All-append P [] x h p = (p, tt)
All-append P (y ∷ l) x h p = (h.0, All-append P l x h.1 p)

pub All-weaken {ℓ κ} :
    {A : Type ℓ} {P Q : A → Type κ} (l : List A) → ((x : A) → P x → Q x) → All P l → All Q l
All-weaken [] f h = tt
All-weaken (x ∷ l) f h = (f x h.0, All-weaken l f h.1)

-- The value that is there has the property.
abbrev pub Given {ℓ κ} : {A : Type ℓ} → (A → Type κ) → Option A → Type κ
Given P none = Unit
Given P (some a) = P a

pub Given-both {ℓ κ} :
    {A : Type ℓ} {P Q R : A → Type κ} (o : Option A)
    → ((a : A) → P a → Q a → R a)
    → Given P o
    → Given Q o
    → Given R o
Given-both none f p q = tt
Given-both (some a) f p q = f a p q

cons-Given {ℓ κ} :
    {A : Type ℓ} (P : A → Type κ) (x : A) (o : Option (A × List A))
    → P x
    → Given (λ r. P r.0 × All P r.1) o
    → Given
        (λ r. P r.0 × All P r.1)
        (elim o as (λ _. Option (A × List A)) [ none ↦ none | some r ↦ some (r.0, x ∷ r.1) ])
cons-Given P x none p h = tt
cons-Given P x (some r) p h = (h.0, (p, h.1))

-- What is taken out, and what stays.
pub pick-Given {ℓ κ} :
    {A : Type ℓ} (P : A → Type κ) (i : ℕ) (l : List A)
    → All P l
    → Given (λ r. P r.0 × All P r.1) (pick i l)
unfolding pick
pick-Given P i [] h = tt
pick-Given P zero (x ∷ xs) h = h
pick-Given P (suc i) (x ∷ xs) h = cons-Given P x (pick i xs) h.0 (pick-Given P i xs h.1)

pub contains-append_one :
    (x y : Text) (l : List Text) → contains x (l ++ y ∷ []) ≡ (contains x l || y == x)
unfolding contains
contains-append_one x y [] = ground arith
contains-append_one x y (z ∷ l) = ground (arith, contains-append_one x y l)

pub Distinct-append_one :
    (x : Text) (l : List Text) → Distinct l → contains x l ≡ false → Distinct (l ++ x ∷ [])
unfolding contains
Distinct-append_one x [] d h = (refl, tt)
Distinct-append_one x (y ∷ l) d h = (
  contains-append_one y x l ∙ ground (arith, d.0, h, text_beq_iff x y, text_beq_iff y x),
  Distinct-append_one x l d.1 (ground (arith, h)),
)

abbrev pub names : List (BindData × Bool) → List Text
names l = map (λ g. g.0.alias) l

pub names-append :
    (l : List (BindData × Bool)) (g : BindData × Bool)
    → names (l ++ g ∷ []) ≡ names l ++ g.0.alias ∷ []
names-append [] g = refl
names-append (h ∷ l) g = ap (λ k. h.0.alias ∷ k) (names-append l g)

pub names-mark : (i : ℕ) (l : List (BindData × Bool)) → names (mark i l) ≡ names l
unfolding mark
names-mark i [] = refl
names-mark zero (g ∷ l) = refl
names-mark (suc i) (g ∷ l) = ap (λ k. g.0.alias ∷ k) (names-mark i l)

contains-later :
    (x : Text) (l : List Text) (o : Option (BindData × Bool))
    → Given (λ g. contains g.0.alias l ≡ true) o
    → Given (λ g. contains g.0.alias (x ∷ l) ≡ true) o
unfolding contains
contains-later x l none h = tt
contains-later x l (some g) h = ground (arith, h)

pub names-Given :
    (i : ℕ) (l : List (BindData × Bool))
    → Given (λ g. contains g.0.alias (names l) ≡ true) (get_elem? l i)
unfolding contains
names-Given i [] = tt
names-Given zero (h ∷ l) = ground (arith, text_beq_iff h.0.alias h.0.alias)
names-Given (suc i) (h ∷ l) = contains-later h.0.alias (names l) (get_elem? l i) (names-Given i l)

names_apart :
    (x y : Text) (l : List Text) → contains x l ≡ false → contains y l ≡ true → (y == x) ≡ false
names_apart x y l out there = elim (Bool-cases (y == x)) [
  | inl same ↦ ground (arith, out, there, ap (λ k. contains k l) ((text_beq_iff y x).0 same))
  | inr other ↦ other
]

-- A granted call has come to its end, or its alias is not set.
abbrev pub Unset : Map Text MAlias → BindData × Bool → Type 0
Unset aliases g = (g.1 ≡ true) ⊎ (has g.0.alias aliases ≡ false)

Unset-set :
    (x : Text) (v : MAlias) (aliases : Map Text MAlias) (g : BindData × Bool)
    → (x == g.0.alias) ≡ false
    → Unset aliases g
    → Unset (set x v aliases) g
Unset-set x v aliases g apart (inl over) = inl over
Unset-set x v aliases g apart (inr free) =
    inr (has-set x g.0.alias v aliases ∙ (rw (apart, free) refl))

All-Unset-set :
    (x : Text) (v : MAlias) (aliases : Map Text MAlias) (l : List (BindData × Bool))
    → contains x (names l) ≡ false
    → All (Unset aliases) l
    → All (Unset (set x v aliases)) l
unfolding contains
All-Unset-set x v aliases [] apart h = tt
All-Unset-set x v aliases (g ∷ l) apart h = (
  Unset-set x v aliases g
      (ground (arith, apart, text_beq_iff x g.0.alias, text_beq_iff g.0.alias x)) h.0,
  All-Unset-set x v aliases l (ground (arith, apart)) h.1,
)

-- When the alias of a granted call is set and the call marked, the others are as they were.
pub mark-Unset :
    (v : BindData → MAlias) (aliases : Map Text MAlias) (i : ℕ) (l : List (BindData × Bool))
    → Distinct (names l)
    → All (Unset aliases) l
    → Given (λ g. All (Unset (set g.0.alias (v g.0) aliases)) (mark i l)) (get_elem? l i)
unfolding mark
mark-Unset v aliases i [] d h = tt
mark-Unset v aliases zero (g ∷ l) d h =
    (inl refl, All-Unset-set g.0.alias (v g.0) aliases l d.0 h.1)
mark-Unset v aliases (suc i) (g ∷ l) d h =
    Given-both (get_elem? l i)
      (λ k there rest. (
        Unset-set k.0.alias (v k.0) aliases g (names_apart g.0.alias k.0.alias (names l) d.0 there)
            h.0,
        rest,
      ))
      (names-Given i l) (mark-Unset v aliases i l d.1 h.1)
