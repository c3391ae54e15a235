-- ===== src/Map.antt =====
-- JavaScript's `Map`, as the code uses it: an association list in insertion order.
-- `set` on a key that is there keeps its place, and `delete` removes the entry.
pub mod Laws
pub mod Keys
use unisockets.Prelude.{
  Bool, true, false, ◌≡◌, ◌||◌, List, [], ◌∷◌, Option, none, some, Key, ◌==◌, if◌then◌else◌,
}

abbrev pub Map {ℓ κ} : Type ℓ → Type κ → Type (ℓ ⊔ κ)
Map K V = List (K × V)

abbrev pub get_or {ℓ} : {A : Type ℓ} → A → Option A → A
get_or d none = d
get_or d (some a) = a

module _ {ℓ} {K : Type ℓ} ⦃e : Key K⦄ where
  -- `includes`, and `find` with an equality test.
  unfoldable pub contains : K → List K → Bool
  contains k [] = false
  contains k (j ∷ l) = j == k || contains k l

  -- No entry stands twice.
  abbrev pub Distinct : List K → Type 0
  Distinct [] = Unit
  Distinct (j ∷ l) = (contains j l ≡ false) × Distinct l

module _ {ℓ κ} {K : Type ℓ} {V : Type κ} ⦃e : Key K⦄ where
  unfoldable pub get : K → Map K V → Option V
  get k [] = none
  get k ((j, v) ∷ m) = if j == k then some v else get k m

  unfoldable pub has : K → Map K V → Bool
  has k [] = false
  has k ((j, v) ∷ m) = j == k || has k m

  unfoldable pub set : K → V → Map K V → Map K V
  set k v [] = (k, v) ∷ []
  set k v ((j, w) ∷ m) = if j == k then (j, v) ∷ m else (j, w) ∷ set k v m

  unfoldable pub delete : K → Map K V → Map K V
  delete k [] = []
  delete k ((j, v) ∷ m) = let rest = delete k m in if j == k then rest else (j, v) ∷ rest

module _ {ℓ κ} {K : Type ℓ} {V : Type κ} where
  unfoldable pub keys : Map K V → List K
  keys [] = []
  keys ((j, v) ∷ m) = j ∷ keys m
