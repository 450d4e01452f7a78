-- ===== src/Kafka.antt =====
-- src/kafka.c: the partitions that a consumer is assigned by hand. A string is the list of its
-- characters.
pub mod Partitions
pub mod Numbers
pub mod Assign
pub mod Messages
pub mod Consumers
pub mod Validate
mod Tests
use schaufel.Common.{
  ℕ, zero, suc, ◌+◌, ◌-◌, ◌*◌, ◌%◌, ◌^◌, Bool, true, false, not, ◌&&◌, ◌||◌, Option, none, some,
  List, [], ◌∷◌, ◌++◌, length, ltb, leb, ◌==◌, if◌then◌else◌,
}

-- strtoul in base 0: white space, a sign, and a prefix for the base are read before the digits.
abbrev pub is_space : ℕ → Bool
is_space c = c == 32 || (leb 9 c && leb c 13)

unfoldable pub skip_spaces : List ℕ → List ℕ
skip_spaces [] = []
skip_spaces (c ∷ cs) = let rest = skip_spaces cs in if is_space c then rest else c ∷ cs

abbrev pub is_negative : List ℕ → Bool
is_negative [] = false
is_negative (c ∷ cs) = c == 45

abbrev pub skip_sign : List ℕ → List ℕ
skip_sign [] = []
skip_sign (c ∷ cs) = if c == 45 || c == 43 then cs else c ∷ cs

-- The value of a digit, or of a letter as one; else 16.
abbrev pub digit_of : ℕ → ℕ
digit_of c =
    if leb 48 c && leb c 57
    then c - 48
    else if leb 97 c && leb c 102
    then c - 87
    else if leb 65 c && leb c 70
    then c - 55
    else 16

abbrev pub is_digit_of : ℕ → ℕ → Bool
is_digit_of base c = ltb (digit_of c) base

-- "0x" or "0X" is a prefix only before a digit.
abbrev pub has_hex : List ℕ → Bool
has_hex (c ∷ x ∷ d ∷ cs) = c == 48 && (x == 120 || x == 88) && is_digit_of 16 d
has_hex _ = false

abbrev pub base_of : List ℕ → ℕ
base_of [] = 10
base_of (c ∷ cs) = if has_hex (c ∷ cs) then 16 else if c == 48 then 8 else 10

abbrev pub skip_prefix : List ℕ → List ℕ
skip_prefix (c ∷ x ∷ cs) = if has_hex (c ∷ x ∷ cs) then cs else c ∷ x ∷ cs
skip_prefix cs = cs

unfoldable pub span_digits : ℕ → ℕ → List ℕ → ℕ × List ℕ
span_digits base acc [] = (acc, [])
span_digits base acc (c ∷ cs) =
    let rest = span_digits base (acc * base + digit_of c) cs in
    if is_digit_of base c then rest else (acc, c ∷ cs)

abbrev pub starts_digit : ℕ → List ℕ → Bool
starts_digit base [] = false
starts_digit base (c ∷ cs) = is_digit_of base c

-- A negative number is negated as an unsigned long. A value from 2 ^ 64 on stands for the overflow,
-- which sets errno.
abbrev pub negated : Bool → ℕ → ℕ
negated neg v = if neg && ltb v (2 ^ 64) then (2 ^ 64 - v) % 2 ^ 64 else v

-- What follows the white space and the sign.
abbrev pub unsigned : List ℕ → List ℕ
unsigned cs = skip_sign (skip_spaces cs)

-- Is there a number at all? Elsewhere `endptr` stays at the start.
abbrev pub converts : List ℕ → Bool
converts cs = starts_digit (base_of (unsigned cs)) (skip_prefix (unsigned cs))

-- The value, and the string at `endptr`.
unfoldable pub strtoul : List ℕ → ℕ × List ℕ
strtoul cs =
    let read = span_digits (base_of (unsigned cs)) 0 (skip_prefix (unsigned cs)) in
    if converts cs then (negated (is_negative (skip_spaces cs)) read.0, read.1) else (0, cs)

-- The second bound, and where it ends: after a '-', or the first one again. `none` is the abort on an
-- invalid token.
abbrev pub second_bound : List ℕ → ℕ × List ℕ → Option (ℕ × List ℕ)
second_bound parts (a, []) = if converts parts then some (a, []) else none
second_bound parts (a, c ∷ cs) =
    if c == 45 then some (strtoul cs) else if converts parts then some (a, c ∷ cs) else none

-- `while(a <= b)`, of `n` numbers from `a` on: `none` is the abort at more than 8190 partitions. An
-- element is an int32_t; `count` is how many there are.
unfoldable pub push_range : ℕ → ℕ → ℕ → Option (List ℕ × ℕ)
push_range zero a count = some ([], count)
push_range (suc n) a count = elim (ltb 8190 (count + 1)) [
  | true ↦ none
  | false ↦ elim (push_range n (a + 1) (count + 1)) [
    | none ↦ none
    | some (ps, total) ↦ some (a % 2 ^ 32 ∷ ps, total)
  ]
]

-- The numbers from the lower bound to the upper one, whichever comes first. Above 2 ^ 64 errno is set.
abbrev pub push_bounds : ℕ → ℕ → ℕ → Option (List ℕ × ℕ)
push_bounds a b count =
    if leb (2 ^ 64) a || leb (2 ^ 64) b
    then none
    else if ltb b a
    then push_range (a + 1 - b) b count
    else push_range (b + 1 - a) a count

-- The partitions before the -1 that ends the array, or the abort; `unfinished` is the end of the
-- fuel.
pub data Exploded : Type 0 where
  aborts unfinished : Exploded
  partitions : List ℕ → Exploded

abbrev pub prepend : List ℕ → Exploded → Exploded
prepend ps aborts = aborts
prepend ps unfinished = unfinished
prepend ps (partitions qs) = partitions (ps ++ qs)

-- After the numbers of a range, the rest of the string.
abbrev pub after_push : (ℕ → Exploded) → Option (List ℕ × ℕ) → Exploded
after_push next none = aborts
after_push next (some (ps, total)) = prepend ps (next total)

-- `while(*parts)`.
unfoldable pub explode_from : ℕ → List ℕ → ℕ → Exploded
explode_from fuel [] count = partitions []
explode_from zero (c ∷ cs) count = unfinished
explode_from (suc fuel) (c ∷ cs) count =
    let first = strtoul (c ∷ cs) in
    elim (second_bound (c ∷ cs) first) [
      | none ↦ aborts
      | some (b, end) ↦ after_push (explode_from fuel end) (push_bounds (first.0) b count)
    ]

-- `explode_partitions`, of a string: a round for each character is enough.
unfoldable pub explode_partitions : List ℕ → Exploded
explode_partitions parts = explode_from (length parts) parts 0
