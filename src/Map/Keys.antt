-- ===== src/Map/Keys.antt =====
-- The keys of a map, and lists without repetition.
use unisockets.Prelude.{◌≡◌, refl, ◌||◌, not, ◌&&◌, [], ◌∷◌, arith, Key, ◌==◌}
use unisockets.Map.{Map, has, set, delete, keys, contains, Distinct}

module _ {ℓ κ} {K : Type ℓ} {V : Type κ} ⦃e : Key K⦄ where
  pub contains-keys : (k : K) (m : Map K V) → contains k (keys m) ≡ has k m
  unfolding contains keys has
  contains-keys k [] = refl
  contains-keys k ((j, v) ∷ m) = ground (arith, contains-keys k m)

  pub has-set : (k j : K) (v : V) (m : Map K V) → has j (set k v m) ≡ (k == j || has j m)
  unfolding has set
  has-set k j v [] = refl
  has-set k j v ((i, w) ∷ m) =
      ground (arith, e.same_iff k j, e.same_iff i k, e.same_iff i j, has-set k j v m)

  pub has-delete : (k j : K) (m : Map K V) → has j (delete k m) ≡ (not (k == j) && has j m)
  unfolding has delete
  has-delete k j [] = ground arith
  has-delete k j ((i, w) ∷ m) =
      ground (arith, e.same_iff k j, e.same_iff i k, e.same_iff i j, has-delete k j m)

  pub keys-set-Distinct :
      (k : K) (v : V) (m : Map K V) → Distinct (keys m) → Distinct (keys (set k v m))
  unfolding keys set contains
  keys-set-Distinct k v [] d = ground arith
  keys-set-Distinct k v ((i, w) ∷ m) d = ground (
    arith,
    keys-set-Distinct k v m d.1,
    contains-keys i (set k v m),
    contains-keys i m,
    has-set k i v m,
    e.same_iff i k,
    e.same_iff k i,
  )

  pub keys-delete-Distinct :
      (k : K) (m : Map K V) → Distinct (keys m) → Distinct (keys (delete k m))
  unfolding keys delete
  keys-delete-Distinct k [] d = tt
  keys-delete-Distinct k ((i, w) ∷ m) d = ground (
    arith,
    keys-delete-Distinct k m d.1,
    contains-keys i (delete k m),
    contains-keys i m,
    has-delete k i m,
  )
