-- ===== src/Number/RoundTrip.antt =====
-- `parseInt` of what a template literal prints.
use unisockets.Prelude.{
  ℕ, zero, suc, ◌+◌, ◌/◌, ◌%◌, ◌≤◌, ◌<◌, ◌≡◌, refl, ◌≢◌, ◌⊎◌, inl, inr, [], ◌∷◌, ◌++◌, none, some,
  arith, Text, ltb, Bool-cases,
}
use unisockets.Text.{Lacks}
use unisockets.Number.{nat, positive, scan, digits, digit, magnitude, parse_int, to_text}

-- The text does not go on with a decimal digit, nor with the letter of a hexadecimal prefix.
abbrev pub EndsNumber : Text → Type 0
EndsNumber [] = Unit
EndsNumber (c ∷ s) = ((c < b'0') ⊎ (b'9' < c)) × (c ≢ b'x') × (c ≢ b'X')

digit_of : (d : ℕ) → d < 10 → digit 10 (b'0' + d) ≡ some d
unfolding digit
digit_of d h = ground arith

scan_stops : (rest : Text) (n : ℕ) → EndsNumber rest → scan 10 rest (some n) ≡ some n
unfolding scan digit
scan_stops [] n h = refl
scan_stops (c ∷ s) n h = ground arith

scan-digits :
    (fuel n : ℕ) (out : Text) → n < fuel → scan 10 (digits fuel n out) none ≡ scan 10 out (some n)
unfolding digits scan
scan-digits zero n out h = absurd (omega arith)
scan-digits (suc fuel) n out h =
    ground (arith, digit_of n, digit_of (n % 10), scan-digits fuel (n / 10) ((b'0' + n % 10) ∷ out))

digits-append :
    (fuel n : ℕ) (out rest : Text) → digits fuel n out ++ rest ≡ digits fuel n (out ++ rest)
unfolding digits
digits-append zero n out rest = refl
digits-append (suc fuel) n out rest =
    ground (arith, digits-append fuel (n / 10) ((b'0' + n % 10) ∷ out) rest)

-- The text does not begin with the letter of a hexadecimal prefix.
abbrev NoPrefix : Text → Type 0
NoPrefix [] = Unit
NoPrefix (c ∷ s) = (c ≢ b'x') × (c ≢ b'X')

digits_head :
    (fuel n : ℕ) (out : Text)
    → n < fuel
    → NoPrefix out
    → (c : ℕ) × (s : Text) × (digits fuel n out ≡ c ∷ s) × (b'0' ≤ c) × (c ≤ b'9') × NoPrefix s
unfolding digits
digits_head zero n out h p = absurd (omega arith)
digits_head (suc fuel) n out h p = elim (Bool-cases (ltb n 10)) [
  | inl small ↦ (b'0' + n, out, rw small, omega arith, ground arith, p)
  | inr large ↦
      rw large (
        digits_head fuel (n / 10) ((b'0' + n % 10) ∷ out) (ground arith) (omega arith, omega arith))
]

module _ (c : ℕ) (s : Text) (lo : b'0' ≤ c) (hi : c ≤ b'9') where
  magnitude_plain : NoPrefix s → magnitude (c ∷ s) ≡ scan 10 (c ∷ s) none
  magnitude_plain p = magnitude_from s p
    where
      magnitude_from : (t : Text) → NoPrefix t → magnitude (c ∷ t) ≡ scan 10 (c ∷ t) none
      magnitude_from [] q = unfold magnitude in refl
      magnitude_from (x ∷ t) q = unfold magnitude in ground arith

  parse_int_plain : NoPrefix s → parse_int (c ∷ s) ≡ positive (scan 10 (c ∷ s) none)
  unfolding parse_int
  parse_int_plain p = ground (arith, magnitude_plain p)

NoPrefix-of_ends : (rest : Text) → EndsNumber rest → NoPrefix rest
NoPrefix-of_ends [] h = tt
NoPrefix-of_ends (c ∷ s) h = (h.1, h.2)

-- `parseInt` of a printed natural number gives the number, whatever follows it that is no digit
-- and no letter of a hexadecimal prefix.
pub parse_int-to_text :
    (n : ℕ) (rest : Text) → EndsNumber rest → parse_int (to_text (nat n) ++ rest) ≡ nat n
unfolding to_text
parse_int-to_text n rest h =
    let (c, s, e, lo, hi, p) = digits_head (suc n) n rest (omega arith) (NoPrefix-of_ends rest h) in
    rw (digits-append (suc n) n [] rest) (
      rw e (
        rw (parse_int_plain c s lo hi p)
          (rw (← e) (rw (scan-digits (suc n) n rest (omega arith), scan_stops rest n h) refl))))

digits-Lacks :
    (sep fuel n : ℕ) (out : Text)
    → (sep < b'0') ⊎ (b'9' < sep)
    → Lacks sep out
    → Lacks sep (digits fuel n out)
unfolding digits
digits-Lacks sep zero n out h l = l
digits-Lacks sep (suc fuel) n out h l = elim (Bool-cases (ltb n 10)) [
  | inl small ↦ rw small (ground arith, l)
  | inr large ↦
      rw large (digits-Lacks sep fuel (n / 10) ((b'0' + n % 10) ∷ out) h (ground arith, l))
]

pub to_text-Lacks : (sep n : ℕ) → (sep < b'0') ⊎ (b'9' < sep) → Lacks sep (to_text (nat n))
unfolding to_text
to_text-Lacks sep n h = digits-Lacks sep (suc n) n [] h tt
