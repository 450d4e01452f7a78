-- ===== src/Kafka/Partitions.antt =====
-- `explode_partitions` of src/kafka.c: it ends on every string, and what it makes of one range.
use schaufel.Common.{
  ℕ, zero, suc, ◌+◌, ◌*◌, ◌≤◌, ◌<◌, ◌≡◌, ◌≢◌, ap, ◌||◌, true, Option, none, some, List, [], ◌∷◌,
  length, ◌==◌, arith, Bool-cases, Option-cases, inl, inr,
}
use schaufel.Kafka.{
  is_space, skip_spaces, skip_sign, has_hex, skip_prefix, digit_of, starts_digit, unsigned, base_of,
  is_digit_of, span_digits, strtoul, converts, second_bound, push_bounds, Exploded, aborts,
  unfinished, partitions, prepend, explode_from, explode_partitions,
}

-- A number takes no character that it does not read.
span_digits-length : (base acc : ℕ) (cs : List ℕ) → length ((span_digits base acc cs).1) ≤ length cs
unfolding span_digits
span_digits-length base acc [] = omega arith
span_digits-length base acc (c ∷ cs) =
    let rest = span_digits-length base (acc * base + digit_of c) cs in
    elim (Bool-cases (is_digit_of base c)) [
      | inl y ↦ rw y (omega arith)
      | inr n ↦ rw n (omega arith)
    ]

-- One that is there takes at least one.
span_digits-reads :
    (base : ℕ) (cs : List ℕ)
    → starts_digit base cs ≡ true
    → length ((span_digits base 0 cs).1) < length cs
unfolding span_digits
span_digits-reads base [] h = cc
span_digits-reads base (c ∷ cs) h =
    rw h (omega (arith, span_digits-length base (0 * base + digit_of c) cs))

skip_spaces-length : (cs : List ℕ) → length (skip_spaces cs) ≤ length cs
unfolding skip_spaces
skip_spaces-length [] = omega arith
skip_spaces-length (c ∷ cs) = elim (Bool-cases (is_space c)) [
  | inl y ↦ rw y (omega (arith, skip_spaces-length cs))
  | inr n ↦ rw n (omega arith)
]

skip_sign-length : (cs : List ℕ) → length (skip_sign cs) ≤ length cs
skip_sign-length [] = omega arith
skip_sign-length (c ∷ cs) = elim (Bool-cases (c == 45 || c == 43)) [
  | inl y ↦ rw y (omega arith)
  | inr n ↦ rw n (omega arith)
]

skip_prefix-length : (cs : List ℕ) → length (skip_prefix cs) ≤ length cs
skip_prefix-length [] = omega arith
skip_prefix-length (c ∷ []) = omega arith
skip_prefix-length (c ∷ x ∷ cs) = elim (Bool-cases (has_hex (c ∷ x ∷ cs))) [
  | inl y ↦ rw y (omega arith)
  | inr n ↦ rw n (omega arith)
]

digits-length : (cs : List ℕ) → length (skip_prefix (unsigned cs)) ≤ length cs
digits-length cs = omega (
  arith,
  skip_prefix-length (unsigned cs),
  skip_sign-length (skip_spaces cs),
  skip_spaces-length cs,
)

strtoul-converts : (cs : List ℕ) → converts cs ≡ true → length ((strtoul cs).1) < length cs
unfolding strtoul
strtoul-converts cs y = rw y (
    omega (
      arith,
      digits-length cs,
      span_digits-reads (base_of (unsigned cs)) (skip_prefix (unsigned cs)) y,
    ))

strtoul-length : (cs : List ℕ) → length ((strtoul cs).1) ≤ length cs
unfolding strtoul
strtoul-length cs = elim (Bool-cases (converts cs)) [
  | inl y ↦ rw y (
      omega (
        arith,
        digits-length cs,
        span_digits-length (base_of (unsigned cs)) 0 (skip_prefix (unsigned cs)),
      ))
  | inr n ↦ rw n (omega arith)
]

found_eq :
    {a b : ℕ} {xs ys : List ℕ}
    → ◌≡◌ {A = Option (ℕ × List ℕ)} (some (a, xs)) (some (b, ys))
    → length xs ≡ length ys
found_eq h = let same : _ ≡ _ = ap second h in same
  where
    second : Option (ℕ × List ℕ) → ℕ
    second none = 0
    second (some (a, xs)) = length xs

second_bound-length :
    (c : ℕ) (cs : List ℕ) (first : ℕ × List ℕ) (b : ℕ) (end : List ℕ)
    → length first.1 ≤ length (c ∷ cs)
    → (converts (c ∷ cs) ≡ true → length first.1 < length (c ∷ cs))
    → second_bound (c ∷ cs) first ≡ some (b, end)
    → length end ≤ length cs
second_bound-length c cs (a, []) b end all some_read s = elim (Bool-cases (converts (c ∷ cs))) [
  | inl y ↦ omega (arith, found_eq (rw y at s))
  | inr n ↦ let k = rw n at s in cc
]
second_bound-length c cs (a, d ∷ r) b end all some_read s = elim (Bool-cases (d == 45)) [
  | inl y ↦ let same = found_eq (rw y at s) in let less = strtoul-length r in omega arith
  | inr m ↦ elim (Bool-cases (converts (c ∷ cs))) [
    | inl y ↦ let same = found_eq (rw (m, y) at s) in let less = some_read y in omega arith
    | inr n ↦ let k = rw (m, n) at s in cc
  ]
]

prepend-unfinished : (ps : List ℕ) (e : Exploded) → e ≢ unfinished → prepend ps e ≢ unfinished
prepend-unfinished ps aborts h = h
prepend-unfinished ps unfinished h = h
prepend-unfinished ps (partitions qs) h = λ e. cc

explode_from-ends :
    (fuel : ℕ) (parts : List ℕ) (count : ℕ)
    → length parts ≤ fuel
    → explode_from fuel parts count ≢ unfinished
unfolding explode_from
explode_from-ends fuel [] count h = λ e. cc
explode_from-ends zero (c ∷ cs) count h = absurd (omega arith)
explode_from-ends (suc fuel) (c ∷ cs) count h =
    let first = strtoul (c ∷ cs) in
    elim (Option-cases (second_bound (c ∷ cs) first)) [
      | inl e ↦ rw (explode_from, e) (λ k. cc)
      | inr ((b, end), e) ↦
          let less =
            second_bound-length c cs first b end (strtoul-length (c ∷ cs))
              (strtoul-converts (c ∷ cs)) e in
          elim (Option-cases (push_bounds (first.0) b count)) [
            | inl p ↦ rw (explode_from, e, p) (λ k. cc)
            | inr ((ps, total), p) ↦
                rw (explode_from, e, p)
                  (prepend-unfinished ps _ (explode_from-ends fuel end total (omega arith)))
          ]
    ]

-- `explode_partitions` ends on every string, whatever its characters: each round but one that aborts
-- reads at least one of them.
pub explode_partitions-ends : (parts : List ℕ) → explode_partitions parts ≢ unfinished
unfolding explode_partitions
explode_partitions-ends parts = explode_from-ends (length parts) parts 0 (omega arith)
