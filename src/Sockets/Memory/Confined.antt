-- ===== src/Sockets/Memory/Confined.antt =====
-- How far the two loops that write to a memory reach.
use unisockets.Prelude.{
  ℕ, zero, suc, ◌+◌, ◌≤◌, ◌≡◌, refl, ◌∙◌, Option, none, some, length, Bool, false, ◌&&◌, Text,
  nat_key, nat_beq, leb, ltb, get_elem?, arith, inl, inr, Bool-cases,
}
use unisockets.Sockets.Memory.{Bytes, copy_from}
use unisockets.Sockets.Memory.Laws.{
  length-store, get_elem?-store, length-copy_from, get_elem?-copy_from,
}
use unisockets.Sockets.SockAddr.{sockaddr_byte, store?, write_loop, write_alias, address_length}

-- The index is in the range from `lo` to below `hi`.
abbrev pub in_range : ℕ → ℕ → ℕ → Bool
in_range lo hi j = leb lo j && ltb j hi

-- A change of a memory that stays within the range.
pub record Confined (lo hi : ℕ) (f : Bytes → Bytes) : Type 0 where
  pub long : (m : Bytes) → length (f m) ≡ length m
  pub same_bytes :
      (m : Bytes) (j : ℕ) → in_range lo hi j ≡ false → get_elem? (f m) j ≡ get_elem? m j

pub copy_from-Confined :
    (pointer limit : ℕ) (msg : Bytes)
    → Confined pointer (pointer + limit + 1) (copy_from 0 pointer limit msg)
copy_from-Confined pointer limit msg = record {
  long = λ m. length-copy_from 0 pointer limit msg m;
  same_bytes = λ m j out. ground (arith, get_elem?-copy_from 0 pointer limit msg m j, out);
}

length-store? : (i : ℕ) (o : Option ℕ) (m : Bytes) → length (store? i o m) ≡ length m
length-store? i none m = refl
length-store? i (some b) m = length-store i b m

length-write_loop :
    (n i pointer : ℕ) (alias : Text) (m : Bytes)
    → length (write_loop n i pointer alias m) ≡ length m
unfolding write_loop
length-write_loop zero i pointer alias m = refl
length-write_loop (suc n) i pointer alias m =
    length-write_loop n (suc i) pointer alias (store? (pointer + i) (sockaddr_byte alias i) m)
    ∙ length-store? (pointer + i) (sockaddr_byte alias i) m

get_elem?-store?_apart :
    (i : ℕ) (o : Option ℕ) (m : Bytes) (j : ℕ)
    → nat_beq i j ≡ false
    → get_elem? (store? i o m) j ≡ get_elem? m j
get_elem?-store?_apart i none m j apart = refl
get_elem?-store?_apart i (some b) m j apart = ground (arith, get_elem?-store i b j m, apart)

sockaddr_byte-none : (i : ℕ) (alias : Text) → 8 ≤ i → sockaddr_byte alias i ≡ none
unfolding sockaddr_byte
sockaddr_byte-none i alias h = ground (arith, h)

get_elem?-store? :
    (pointer i : ℕ) (alias : Text) (m : Bytes) (j : ℕ)
    → in_range pointer (pointer + 8) j ≡ false
    → get_elem? (store? (pointer + i) (sockaddr_byte alias i) m) j ≡ get_elem? m j
get_elem?-store? pointer i alias m j out = elim (Bool-cases (ltb i 8)) [
  | inl below ↦
      get_elem?-store?_apart (pointer + i) (sockaddr_byte alias i) m j (ground (arith, out, below))
  | inr above ↦ rw (sockaddr_byte-none i alias (ground (arith, above))) refl
]

get_elem?-write_loop :
    (n i pointer : ℕ) (alias : Text) (m : Bytes) (j : ℕ)
    → in_range pointer (pointer + 8) j ≡ false
    → get_elem? (write_loop n i pointer alias m) j ≡ get_elem? m j
unfolding write_loop
get_elem?-write_loop zero i pointer alias m j out = refl
get_elem?-write_loop (suc n) i pointer alias m j out =
    get_elem?-write_loop n (suc i) pointer alias (store? (pointer + i) (sockaddr_byte alias i) m) j
      out
    ∙ get_elem?-store? pointer i alias m j out

pub write_alias-Confined :
    (pointer length_pointer : ℕ) (alias : Text)
    → Confined pointer (pointer + 8) (write_alias pointer length_pointer alias)
unfolding write_alias
write_alias-Confined pointer length_pointer alias = record {
  long = λ m. length-write_loop (address_length length_pointer m) 0 pointer alias m;
  same_bytes =
      λ m j out. get_elem?-write_loop (address_length length_pointer m) 0 pointer alias m j out;
}
