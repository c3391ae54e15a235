-- ===== src/Number.antt =====
-- The numbers that `parseInt` can return, and the parts of JavaScript's Number that the code uses on
-- them: `parseInt` with no radix, template literals, `===`, and `sort((a, b) => a - b)`.
-- Integers are exact, as JavaScript's are up to 2 ^ 53; beyond that rounding is not modelled.
pub mod RoundTrip
pub mod Gap
pub mod Numbering
use unisockets.Prelude.{
  ℕ, zero, suc, ◌+◌, ◌-◌, ◌*◌, ◌/◌, ◌%◌, ◌≡◌, ◌↔◌, refl, Bool, true, false, ◌&&◌, ◌||◌, List, [],
  ◌∷◌, Option, none, some, arith, Text, codes, Key, nat_beq, leb, ltb, if◌then◌else◌,
}

-- `neg n` is -(n + 1).
pub data Number : Type 0 where
  nan : Number
  nat : ℕ → Number
  neg : ℕ → Number

-- SameValueZero, by which a `Map` compares its keys: NaN equals itself.
abbrev pub number_beq : Number → Number → Bool
number_beq nan nan = true
number_beq nan _ = false
number_beq (nat a) (nat b) = nat_beq a b
number_beq (nat a) _ = false
number_beq (neg a) (neg b) = nat_beq a b
number_beq (neg a) _ = false

pub number_beq_iff : (a b : Number) → (number_beq a b ≡ true) ↔ (a ≡ b)
number_beq_iff nan nan = ground arith
number_beq_iff nan (nat b) = ground arith
number_beq_iff nan (neg b) = ground arith
number_beq_iff (nat a) nan = ground arith
number_beq_iff (nat a) (nat b) = ground arith
number_beq_iff (nat a) (neg b) = ground arith
number_beq_iff (neg a) nan = ground arith
number_beq_iff (neg a) (nat b) = ground arith
number_beq_iff (neg a) (neg b) = ground arith

instance abbrev pub number_key : Key Number
number_key = record { same = number_beq; same_iff = number_beq_iff }

-- `===`: NaN differs from everything.
unfoldable pub strict_eq : Number → Number → Bool
strict_eq nan _ = false
strict_eq (nat a) b = number_beq (nat a) b
strict_eq (neg a) b = number_beq (neg a) b

-- `a - b > 0`, the test of the comparator `(a, b) => a - b`; it is false where one is NaN.
unfoldable pub greater : Number → Number → Bool
greater nan _ = false
greater (nat a) nan = false
greater (nat a) (nat b) = ltb b a
greater (nat a) (neg b) = true
greater (neg a) (neg b) = ltb a b
greater (neg a) _ = false

pub insert : Number → List Number → List Number
unfolding greater
insert a [] = a ∷ []
insert a (b ∷ l) = if greater a b then b ∷ insert a l else a ∷ b ∷ l

-- `sort((a, b) => a - b)`. A list that holds NaN has no order that the language fixes.
unfoldable pub sort : List Number → List Number
unfolding insert
sort [] = []
sort (a ∷ l) = insert a (sort l)

-- White space and line terminators, which `parseInt` skips.
is_space : ℕ → Bool
is_space c =
    (leb 9 c && leb c 13)
    || nat_beq c 32
    || nat_beq c 160
    || nat_beq c 0x1680
    || (leb 0x2000 c && leb c 0x200a)
    || nat_beq c 0x2028
    || nat_beq c 0x2029
    || nat_beq c 0x202f
    || nat_beq c 0x205f
    || nat_beq c 0x3000
    || nat_beq c 0xfeff

trim_start : Text → Text
trim_start [] = []
trim_start (c ∷ s) = let rest = trim_start s in if is_space c then rest else c ∷ s

below : ℕ → ℕ → Option ℕ
below radix d = if ltb d radix then some d else none

digit : ℕ → ℕ → Option ℕ
unfolding below
digit radix c =
    if leb b'0' c && leb c b'9'
    then below radix (c - b'0')
    else if leb b'a' c && leb c b'z'
    then below radix (c - b'a' + 10)
    else if leb b'A' c && leb c b'Z'
    then below radix (c - b'A' + 10)
    else none

abbrev value : Option ℕ → ℕ
value none = 0
value (some n) = n

-- The longest prefix of digits; `none` while there is no digit.
scan : ℕ → Text → Option ℕ → Option ℕ
scan radix [] acc = acc
scan radix (c ∷ s) acc = elim (digit radix c) [
  | none ↦ acc
  | some d ↦ scan radix s (some (value acc * radix + d))
]

magnitude : Text → Option ℕ
magnitude [] = none
magnitude (c ∷ []) = scan 10 (c ∷ []) none
magnitude (c ∷ x ∷ s) =
    if nat_beq c b'0' && (nat_beq x b'x' || nat_beq x b'X')
    then scan 16 s none
    else scan 10 (c ∷ x ∷ s) none

abbrev pub positive : Option ℕ → Number
positive none = nan
positive (some n) = nat n

abbrev negative : Option ℕ → Number
negative none = nan
negative (some zero) = nat 0
negative (some (suc n)) = neg n

signed : Text → Number
signed [] = nan
signed (c ∷ s) =
    if nat_beq c b'-'
    then negative (magnitude s)
    else if nat_beq c b'+'
    then positive (magnitude s)
    else positive (magnitude (c ∷ s))

-- `parseInt(s)`
unfoldable pub parse_int : Text → Number
unfolding is_space trim_start digit scan magnitude signed
parse_int s = signed (trim_start s)

-- `parseInt(undefined)` reads the word "undefined".
unfoldable pub parse_int? : Option Text → Number
unfolding parse_int
parse_int? none = parse_int (codes "undefined")
parse_int? (some s) = parse_int s

digits : ℕ → ℕ → Text → Text
digits zero n out = out
digits (suc fuel) n out =
    let rest = digits fuel (n / 10) ((b'0' + n % 10) ∷ out) in
    if ltb n 10 then (b'0' + n) ∷ out else rest

-- A number in a template literal.
unfoldable pub to_text : Number → Text
unfolding digits
to_text nan = codes "NaN"
to_text (nat n) = digits (suc n) n []
to_text (neg n) = b'-' ∷ digits (suc (suc n)) (suc n) []

parse_int_examples :
    (parse_int (codes "1:80") ≡ nat 1)
    × (parse_int (codes " -5") ≡ neg 4)
    × (parse_int (codes "0x1F") ≡ nat 31)
    × (parse_int (codes "x") ≡ nan)
    × (parse_int? none ≡ nan)
unfolding parse_int parse_int?
parse_int_examples = (refl, refl, refl, refl, refl)

to_text_examples : (to_text (nat 2040) ≡ codes "2040") × (to_text (neg 4) ≡ codes "-5")
unfolding to_text
to_text_examples = (refl, refl)
