-- ===== src/Sockets/Memory/Laws.antt =====
-- What a read finds after a write.
use unisockets.Prelude.{
  ℕ, zero, suc, ◌+◌, ◌-◌, ◌≡◌, refl, ◌&&◌, [], ◌∷◌, ◌++◌, take, Option, some, length, get_elem?,
  nat_beq, leb, ltb, if◌then◌else◌, arith,
}
use unisockets.Sockets.Memory.{Bytes, store, copy_from, drop, slice}

pub length-store : (index value : ℕ) (m : Bytes) → length (store index value m) ≡ length m
unfolding store
length-store index value [] = refl
length-store zero value (b ∷ m) = refl
length-store (suc index) value (b ∷ m) = omega (arith, length-store index value m)

pub get_elem?-store :
    (index value j : ℕ) (m : Bytes)
    → get_elem? (store index value m) j
      ≡ (if nat_beq index j && ltb j (length m) then some value else get_elem? m j)
unfolding store
get_elem?-store index value j [] = ground arith
get_elem?-store zero value zero (b ∷ m) = ground arith
get_elem?-store zero value (suc j) (b ∷ m) = ground arith
get_elem?-store (suc index) value zero (b ∷ m) = ground arith
get_elem?-store (suc index) value (suc j) (b ∷ m) = ground (arith, get_elem?-store index value j m)

pub length-copy_from :
    (index pointer limit : ℕ) (msg m : Bytes)
    → length (copy_from index pointer limit msg m) ≡ length m
unfolding copy_from
length-copy_from index pointer limit [] m = refl
length-copy_from index pointer limit (part ∷ msg) m = ground (
  arith,
  length-copy_from (suc index) pointer limit msg
      (if leb index limit then store (pointer + index) part m else m),
  length-store (pointer + index) part m,
)

-- A byte of the memory after the copy.
abbrev pub copied : ℕ → ℕ → ℕ → Bytes → Bytes → ℕ → Option ℕ
copied index pointer limit msg m j =
    if leb (pointer + index) j
      && leb j (pointer + limit)
      && ltb j (pointer + index + length msg)
      && ltb j (length m)
    then get_elem? msg (j - (pointer + index))
    else get_elem? m j

get_elem?-cons :
    (part : ℕ) (msg : Bytes) (k : ℕ)
    → get_elem? (part ∷ msg) k ≡ (if nat_beq k 0 then some part else get_elem? msg (k - 1))
get_elem?-cons part msg zero = refl
get_elem?-cons part msg (suc k) = ground arith

pub get_elem?-copy_from :
    (index pointer limit : ℕ) (msg m : Bytes) (j : ℕ)
    → get_elem? (copy_from index pointer limit msg m) j ≡ copied index pointer limit msg m j
unfolding copy_from
get_elem?-copy_from index pointer limit [] m j = ground arith
get_elem?-copy_from index pointer limit (part ∷ msg) m j =
    let m' = if leb index limit then store (pointer + index) part m else m in
    ground (
      arith,
      get_elem?-copy_from (suc index) pointer limit msg m' j,
      get_elem?-store (pointer + index) part j m,
      length-store (pointer + index) part m,
      get_elem?-cons part msg (j - (pointer + index)),
    )

pub drop-append_length : (pre l : Bytes) → drop (length pre) (pre ++ l) ≡ l
drop-append_length [] l = refl
drop-append_length (b ∷ pre) l = drop-append_length pre l

-- What lies behind a prefix is read and written at the prefix's length.
pub slice-append :
    (n : ℕ) (pre l : Bytes) → slice (length pre) (length pre + n) (pre ++ l) ≡ take n l
unfolding slice
slice-append n pre l =
    let count : length pre + n - length pre ≡ n = omega arith in
    rw (count, drop-append_length pre l) refl

pub store-append :
    (i value : ℕ) (pre l : Bytes) → store (length pre + i) value (pre ++ l) ≡ pre ++ store i value l
unfolding store
store-append i value [] l = ground arith
store-append i value (b ∷ pre) l = ground (arith, store-append i value pre l)
