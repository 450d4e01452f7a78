-- ===== src/Timestamp/Digits.antt =====
-- Decimal numbers in a date string, and what strtoul reads.
use schaufel.Common.{
  ℕ, ◌+◌, ◌-◌, ◌*◌, ◌^◌, ◌<◌, ◌≡◌, refl, ◌∙◌, ap, Bool, true, false, some, List, [], ◌∷◌, ◌++◌,
  ◌==◌, if◌then◌else◌, arith, All,
}
use schaufel.Timestamp.{is_digit, is_space, digits_from, strtoul}

-- The characters of digits, and their value.
abbrev pub chars : List ℕ → List ℕ
chars [] = []
chars (d ∷ ds) = (48 + d) ∷ chars ds

abbrev pub value_from : ℕ → List ℕ → ℕ
value_from acc [] = acc
value_from acc (d ∷ ds) = value_from (acc * 10 + d) ds

abbrev pub IsDigit : ℕ → Type 0
IsDigit d = d < 10

-- What follows a number.
abbrev pub ends_number : List ℕ → Bool
ends_number [] = true
ends_number (c ∷ cs) = if is_digit c then false else true

digits_from-chars :
    (acc : ℕ) (ds rest : List ℕ)
    → All IsDigit ds
    → ends_number rest ≡ true
    → digits_from acc (chars ds ++ rest) ≡ value_from acc ds
unfolding digits_from
digits_from-chars acc [] [] h e = refl
digits_from-chars acc [] (c ∷ rest) h e = ground arith
digits_from-chars acc (d ∷ ds) rest h e =
    let k : is_digit (48 + d) ≡ true = ground arith in
    rw k (
      digits_from-chars (acc * 10 + (48 + d - 48)) ds rest h.1 e
      ∙ ap (λ n. value_from n ds) (omega arith))

pub strtoul-chars :
    (d : ℕ) (ds rest : List ℕ)
    → All IsDigit (d ∷ ds)
    → ends_number rest ≡ true
    → value_from 0 (d ∷ ds) < 2 ^ 64
    → strtoul (chars (d ∷ ds) ++ rest) ≡ some (value_from 0 (d ∷ ds))
unfolding strtoul
strtoul-chars d ds rest h e lt =
    let s : is_space (48 + d) ≡ false = ground arith in
    let m : ((48 + d) == 45) ≡ false = ground arith in
    let p : ((48 + d) == 43) ≡ false = ground arith in
    let v = digits_from-chars 0 (d ∷ ds) rest h e in rw (s, m, p, v) (ground arith)
