-- ===== src/Kafka/Numbers.antt =====
-- strtoul on the decimal numbers in a list of partitions, for src/kafka.c.
use schaufel.Common.{
  ℕ, zero, suc, ◌+◌, ◌*◌, ◌^◌, ◌<◌, ◌≡◌, ◌≢◌, refl, ◌∙◌, true, false, ◌||◌, List, [], ◌∷◌, ◌++◌,
  ◌==◌, arith, All, Bool, ◌⊎◌, inl, inr,
}
use schaufel.Timestamp.Digits.{chars, value_from, IsDigit}
use schaufel.Kafka.{
  is_space, skip_spaces, is_negative, skip_sign, has_hex, skip_prefix, starts_digit, digit_of,
  base_of, is_digit_of, span_digits, strtoul, converts,
}

-- The decimal digits of a number: 0, or one without a leading 0, which strtoul would take for octal.
abbrev pub IsNumber : ℕ → List ℕ → Type 0
IsNumber d ds = All IsDigit (d ∷ ds) × ((d ≢ 0) ⊎ (ds ≡ [])) × (value_from 0 (d ∷ ds) < 2 ^ 64)

-- The end of the string, a ',' or a '-'.
abbrev pub ends_bound : List ℕ → Bool
ends_bound [] = true
ends_bound (c ∷ cs) = c == 44 || c == 45

span_digits-chars :
    (acc : ℕ) (ds rest : List ℕ)
    → All IsDigit ds
    → ends_bound rest ≡ true
    → span_digits 10 acc (chars ds ++ rest) ≡ (value_from acc ds, rest)
unfolding span_digits
span_digits-chars acc [] [] h e = refl
span_digits-chars acc [] (c ∷ rest) h e =
    let n : is_digit_of 10 c ≡ false = ground (arith, e) in rw n refl
span_digits-chars acc (d ∷ ds) rest h e =
    let k : is_digit_of 10 (48 + d) ≡ true = ground arith in
    let n : digit_of (48 + d) ≡ d = ground arith in
    rw (k, n) (span_digits-chars (acc * 10 + d) ds rest h.1 e)

strtoul-plain :
    (base : ℕ) (s : List ℕ)
    → skip_spaces s ≡ s
    → skip_sign s ≡ s
    → is_negative s ≡ false
    → base_of s ≡ base
    → skip_prefix s ≡ s
    → starts_digit base s ≡ true
    → (strtoul s ≡ span_digits base 0 s) × (converts s ≡ true)
unfolding strtoul
strtoul-plain base s space sign neg b prefix start =
    (rw (space, sign, neg, b, prefix, start) refl, rw (space, sign, b, prefix, start) refl)

skip_spaces-digit : (d : ℕ) (s : List ℕ) → d < 10 → skip_spaces ((48 + d) ∷ s) ≡ (48 + d) ∷ s
unfolding skip_spaces
skip_spaces-digit d s lt = let n : is_space (48 + d) ≡ false = ground arith in rw n refl

skip_sign-digit : (d : ℕ) (s : List ℕ) → d < 10 → skip_sign ((48 + d) ∷ s) ≡ (48 + d) ∷ s
skip_sign-digit d s lt = let n : (48 + d == 45 || 48 + d == 43) ≡ false = ground arith in rw n refl

has_hex-number : (c : ℕ) (s : List ℕ) → (c == 48) ≡ false → has_hex (c ∷ s) ≡ false
has_hex-number c [] h = refl
has_hex-number c (x ∷ []) h = refl
has_hex-number c (x ∷ d ∷ s) h = rw h refl

has_hex-zero : (s : List ℕ) → ends_bound s ≡ true → has_hex (48 ∷ s) ≡ false
has_hex-zero [] h = refl
has_hex-zero (x ∷ []) h = refl
has_hex-zero (x ∷ d ∷ s) h = let n : (x == 120 || x == 88) ≡ false = ground (arith, h) in rw n refl

skip_prefix-plain : (c : ℕ) (s : List ℕ) → has_hex (c ∷ s) ≡ false → skip_prefix (c ∷ s) ≡ c ∷ s
skip_prefix-plain c [] h = refl
skip_prefix-plain c (x ∷ s) h = rw h refl

span_digits-zero :
    (rest : List ℕ) → ends_bound rest ≡ true → span_digits 8 0 (48 ∷ rest) ≡ (0, rest)
unfolding span_digits
span_digits-zero [] e = refl
span_digits-zero (c ∷ rest) e = let n : is_digit_of 8 c ≡ false = ground (arith, e) in rw n refl

strtoul-zero :
    (rest : List ℕ)
    → ends_bound rest ≡ true
    → (strtoul (48 ∷ rest) ≡ (0, rest)) × (converts (48 ∷ rest) ≡ true)
strtoul-zero rest e =
    let x = has_hex-zero rest e in
    let (run, y) =
      strtoul-plain 8 (48 ∷ rest) (skip_spaces-digit 0 rest (omega arith)) refl refl (rw x refl)
        (skip_prefix-plain 48 rest x) refl in
    (run ∙ span_digits-zero rest e, y)

strtoul-nonzero :
    (d : ℕ) (ds rest : List ℕ)
    → All IsDigit (d ∷ ds)
    → d ≢ 0
    → ends_bound rest ≡ true
    → (strtoul (chars (d ∷ ds) ++ rest) ≡ (value_from 0 (d ∷ ds), rest))
      × (converts (chars (d ∷ ds) ++ rest) ≡ true)
strtoul-nonzero d ds rest h z e =
    let c : (48 + d == 48) ≡ false = ground arith in
    let x = has_hex-number (48 + d) (chars ds ++ rest) c in
    let (run, y) =
      strtoul-plain 10 ((48 + d) ∷ (chars ds ++ rest)) (skip_spaces-digit d _ h.0)
        (skip_sign-digit d _ h.0) (ground arith) (rw (x, c) refl)
        (skip_prefix-plain (48 + d) (chars ds ++ rest) x) (ground arith) in
    (run ∙ span_digits-chars 0 (d ∷ ds) rest h e, y)

pub strtoul-chars_from :
    (d : ℕ) (ds rest : List ℕ)
    → IsNumber d ds
    → ends_bound rest ≡ true
    → (strtoul (chars (d ∷ ds) ++ rest) ≡ (value_from 0 (d ∷ ds), rest))
      × (converts (chars (d ∷ ds) ++ rest) ≡ true)
strtoul-chars_from d ds rest (h, inl z, lt) e = strtoul-nonzero d ds rest h z e
strtoul-chars_from (suc d) ds rest (h, inr z, lt) e =
    strtoul-nonzero (suc d) ds rest h (omega arith) e
strtoul-chars_from zero [] rest (h, inr z, lt) e = strtoul-zero rest e
strtoul-chars_from zero (d ∷ ds) rest (h, inr z, lt) e = cc

-- A comma is no number.
pub no_number :
    (rest : List ℕ) → (strtoul (44 ∷ rest) ≡ (0, 44 ∷ rest)) × (converts (44 ∷ rest) ≡ false)
unfolding strtoul skip_spaces
no_number rest =
    let x = has_hex-number 44 rest refl in
    let p = skip_prefix-plain 44 rest x in (rw (x, p) refl, rw (x, p) refl)
