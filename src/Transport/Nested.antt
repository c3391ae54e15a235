-- ===== src/Transport/Nested.antt =====
-- What a lookup in a map of maps finds after an entry.
use unisockets.Prelude.{
  ◌≡◌, ◌&&◌, if◌then◌else◌, ◌==◌, some, none, [], Text, text_key, text_beq_iff, arith,
}
use unisockets.Map.{Map, get, get_or, set, delete}
use unisockets.Map.Laws.{get-set, get-delete}
use unisockets.Transport.{lookup, enter}

pub lookup-enter {ℓ} :
    {V : Type ℓ} (r l r' l' : Text) (v : V) (m : Map Text (Map Text V))
    → lookup r' l' (enter r l v m) ≡ (if r == r' && l == l' then some v else lookup r' l' m)
unfolding lookup enter
lookup-enter r l r' l' v m = ground (
  arith,
  get-set r r' (set l v (get_or [] (get r m))) m,
  get-set l l' v (get_or [] (get r m)),
  text_beq_iff r r',
)

pub lookup-delete {ℓ} :
    {V : Type ℓ} (r r' l' : Text) (m : Map Text (Map Text V))
    → lookup r' l' (delete r m) ≡ (if r == r' then none else lookup r' l' m)
unfolding lookup get
lookup-delete r r' l' m = ground (arith, get-delete r r' m)
