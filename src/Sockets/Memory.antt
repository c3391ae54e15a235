-- ===== src/Sockets/Memory.antt =====
-- Uint8Array and the helpers of pkg/web/utils: a memory is the list of its bytes. Pointers and
-- lengths are natural numbers, as those that a program passes below 2 ^ 31 are.
pub mod Laws
pub mod Confined
use unisockets.Prelude.{
  ℕ, zero, suc, ◌+◌, ◌-◌, ◌*◌, ◌/◌, ◌%◌, ◌^◌, ◌<◌, ◌≡◌, refl, List, [], ◌∷◌, All, take, Option,
  none, some, leb, if◌then◌else◌,
}
use unisockets.Number.{Number, nan, nat, neg}

abbrev pub Bytes : Type 0
Bytes = List ℕ

abbrev pub IsBytes : Bytes → Type 0
IsBytes = All (λ b. b < 256)

abbrev pub drop {ℓ} : {A : Type ℓ} → ℕ → List A → List A
drop zero xs = xs
drop (suc n) [] = []
drop (suc n) (x ∷ xs) = drop n xs

-- `memory.slice(from, to)` copies the part that is there.
unfoldable pub slice : ℕ → ℕ → Bytes → Bytes
slice from to m = take (to - from) (drop from m)

-- `memory[index] = value`, which does nothing out of range.
unfoldable pub store : ℕ → ℕ → Bytes → Bytes
store index value [] = []
store zero value (b ∷ m) = value ∷ m
store (suc index) value (b ∷ m) = b ∷ store index value m

-- The conversions of a number to a typed array's element, which take it modulo a power of two.
unfoldable pub to_uint : ℕ → Number → ℕ
to_uint size nan = 0
to_uint size (nat n) = n % size
to_uint size (neg n) = size - 1 - n % size

abbrev pub to_uint8 : Number → ℕ
to_uint8 n = to_uint 256 n

-- utils/htons.ts: the shifts and masks as `/`, `*` and `%`, the `|` of two disjoint bytes as `+`.
unfoldable pub htons : ℕ → ℕ
htons val = val % 256 * 256 + val / 256 % 256

-- The bytes of an Int32Array's element, the low one first.
abbrev pub int32_bytes : ℕ → Bytes
int32_bytes w = w % 256 ∷ w / 256 % 256 ∷ w / 65536 % 256 ∷ w / 16777216 % 256 ∷ []

-- utils/getAsBinary.ts
unfoldable pub get_as_binary : Number → Bytes
unfolding to_uint
get_as_binary val = int32_bytes (to_uint 0x100000000 val)

-- `forEach((part, index) => { if (index <= limit) memory[pointer + index] = part; })`
unfoldable pub copy_from : ℕ → ℕ → ℕ → Bytes → Bytes → Bytes
unfolding store
copy_from index pointer limit [] m = m
copy_from index pointer limit (part ∷ msg) m =
    copy_from (suc index) pointer limit msg
      (if leb index limit then store (pointer + index) part m else m)
