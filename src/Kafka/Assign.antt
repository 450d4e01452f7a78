-- ===== src/Kafka/Assign.antt =====
-- What `explode_partitions` of src/kafka.c makes of one range, and of a list with a comma.
use mathlib.Core.Path.{subst}
use schaufel.Common.{
  ℕ, zero, suc, ◌+◌, ◌-◌, ◌%◌, ◌^◌, ◌≤◌, ◌<◌, ◌≡◌, refl, sym, ap, ◌∙◌, true, false, ◌||◌, Option,
  none, some, List, [], ◌∷◌, ◌++◌, length, ltb, leb, arith, Bool-cases, inl, inr,
}
use mathlib.Core.List.{append-nil}
use schaufel.Timestamp.Digits.{chars, value_from}
use schaufel.Kafka.{
  strtoul, second_bound, push_range, push_bounds, Exploded, aborts, partitions, after_push,
  explode_from, explode_partitions,
}
use schaufel.Kafka.Numbers.{IsNumber, ends_bound, strtoul-chars_from, no_number}

-- The numbers from `a` on, as the int32_t that they are stored in.
abbrev pub range : ℕ → ℕ → List ℕ
range zero a = []
range (suc n) a = a % 2 ^ 32 ∷ range n (a + 1)

push_range-range :
    (n a count : ℕ) → count + n ≤ 8190 → push_range n a count ≡ some (range n a, count + n)
unfolding push_range
push_range-range zero a count h =
    let c : count ≡ count + 0 = omega arith in ap (λ k. some ([], k)) c
push_range-range (suc n) a count h =
    let k : ltb 8190 (count + 1) ≡ false = ground arith in
    let c : count + 1 + n ≡ count + suc n = omega arith in
    rw (push_range, k, push_range-range n (a + 1) (count + 1) (omega arith), c) refl

push_bounds-range :
    (a b count : ℕ)
    → a ≤ b
    → b < 2 ^ 64
    → count + (b + 1 - a) ≤ 8190
    → (push_bounds a b count ≡ some (range (b + 1 - a) a, count + (b + 1 - a)))
      × (push_bounds b a count ≡ some (range (b + 1 - a) a, count + (b + 1 - a)))
push_bounds-range a b count le lt few =
    let z : (leb (2 ^ 64) a || leb (2 ^ 64) b) ≡ false = ground arith in
    let y : (leb (2 ^ 64) b || leb (2 ^ 64) a) ≡ false = ground arith in
    let l : ltb b a ≡ false = ground arith in
    let run = push_range-range (b + 1 - a) a count few in
    (
      rw (push_bounds, z, l) run,
      elim (Bool-cases (ltb a b)) [
        | inl u ↦ rw (push_bounds, y, u) run
        | inr u ↦
            let same : a ≡ b = ground (arith, u) in
            rw (push_bounds, y, u)
              (subst
                (λ k.
                  push_range (k + 1 - b) b count ≡ some (range (b + 1 - k) k, count + (b + 1 - k)))
                (sym same) (push_range-range (b + 1 - b) b count (omega arith)))
      ],
    )

explode_round :
    (fuel c : ℕ) (cs : List ℕ) (count a b : ℕ) (mid end : List ℕ)
    → strtoul (c ∷ cs) ≡ (a, mid)
    → second_bound (c ∷ cs) (a, mid) ≡ some (b, end)
    → explode_from (suc fuel) (c ∷ cs) count
      ≡ after_push (explode_from fuel end) (push_bounds a b count)
unfolding explode_from
explode_round fuel c cs count a b mid end f s =
    let next : ℕ → Option (ℕ × List ℕ) → Exploded = λ a o. elim o [
      | none ↦ aborts
      | some (b, end) ↦ after_push (explode_from fuel end) (push_bounds a b count)
    ] in
    ap (λ first. next (first.0) (second_bound (c ∷ cs) first)) f ∙ ap (next a) s

-- A number, and a range of two.
explode_one :
    (fuel d : ℕ) (ds rest : List ℕ) (count : ℕ)
    → IsNumber d ds
    → let a = value_from 0 (d ∷ ds) in
      explode_from (suc fuel) (chars (d ∷ ds) ++ (44 ∷ rest)) count
      ≡ after_push (explode_from fuel (44 ∷ rest)) (push_bounds a a count)
explode_one fuel d ds rest count nd =
    let (f, y) = strtoul-chars_from d ds (44 ∷ rest) nd refl in
    explode_round fuel _ _ count _ _ _ _ f (rw y refl)

explode_two :
    (fuel d : ℕ) (ds : List ℕ) (e : ℕ) (es rest : List ℕ) (count : ℕ)
    → IsNumber d ds
    → IsNumber e es
    → ends_bound rest ≡ true
    → let a = value_from 0 (d ∷ ds) in
      let b = value_from 0 (e ∷ es) in
      explode_from (suc fuel) (chars (d ∷ ds) ++ (45 ∷ (chars (e ∷ es) ++ rest))) count
      ≡ after_push (explode_from fuel rest) (push_bounds a b count)
explode_two fuel d ds e es rest count nd ne end =
    let (f, _) = strtoul-chars_from d ds (45 ∷ (chars (e ∷ es) ++ rest)) nd refl in
    let (g, _) = strtoul-chars_from e es rest ne end in
    explode_round fuel _ _ count _ _ _ _ f (ap some g)

explode_comma :
    (fuel : ℕ) (rest : List ℕ) (count : ℕ) → explode_from (suc fuel) (44 ∷ rest) count ≡ aborts
unfolding explode_from
explode_comma fuel rest count = let (f, n) = no_number rest in rw (explode_from, f, n) refl

after_push-aborts :
    (next : ℕ → Exploded) (o : Option (List ℕ × ℕ))
    → ((total : ℕ) → next total ≡ aborts)
    → after_push next o ≡ aborts
after_push-aborts next none h = refl
after_push-aborts next (some (ps, total)) h = rw (h total) refl

comma_aborts :
    (fuel : ℕ) (rest : List ℕ) (o : Option (List ℕ × ℕ))
    → after_push (explode_from (suc fuel) (44 ∷ rest)) o ≡ aborts
comma_aborts fuel rest o = after_push-aborts _ o (explode_comma fuel rest)

length-insert :
    (xs : List ℕ) (y : ℕ) (rest : List ℕ) → length (xs ++ (y ∷ rest)) ≡ suc (length (xs ++ rest))
length-insert [] y rest = refl
length-insert (x ∷ xs) y rest = ap suc (length-insert xs y rest)

explode_range :
    (fuel d : ℕ) (ds : List ℕ) (e : ℕ) (es ps : List ℕ) (total : ℕ)
    → IsNumber d ds
    → IsNumber e es
    → push_bounds (value_from 0 (d ∷ ds)) (value_from 0 (e ∷ es)) 0 ≡ some (ps, total)
    → explode_from (suc fuel) (chars (d ∷ ds) ++ (45 ∷ chars (e ∷ es))) 0 ≡ partitions ps
unfolding explode_from
explode_range fuel d ds e es ps total nd ne run =
    let two = explode_two fuel d ds e es [] 0 nd ne refl in
    let same = append-nil (chars (e ∷ es)) in
    ap (λ l. explode_from (suc fuel) (chars (d ∷ ds) ++ (45 ∷ l)) 0) (sym same)
    ∙ (two ∙ (ap (after_push (explode_from fuel [])) run ∙ ap partitions (append-nil ps)))

-- Of a range of decimal numbers without leading zeros, whichever of them is the larger, `explode_partitions` makes the
-- numbers from the smaller one to the larger one, both included, as int32_t, where these are fewer
-- than 8191.
pub explode_partitions-range :
    (d : ℕ) (ds : List ℕ) (e : ℕ) (es : List ℕ)
    → IsNumber d ds
    → IsNumber e es
    → value_from 0 (d ∷ ds) ≤ value_from 0 (e ∷ es)
    → value_from 0 (e ∷ es) - value_from 0 (d ∷ ds) < 8190
    → let a = value_from 0 (d ∷ ds) in
      let b = value_from 0 (e ∷ es) in
      (explode_partitions (chars (d ∷ ds) ++ (45 ∷ chars (e ∷ es)))
        ≡ partitions (range (b + 1 - a) a))
      × (explode_partitions (chars (e ∷ es) ++ (45 ∷ chars (d ∷ ds)))
          ≡ partitions (range (b + 1 - a) a))
unfolding explode_partitions
explode_partitions-range d ds e es nd ne le few =
    let (up, down) =
      push_bounds-range (value_from 0 (d ∷ ds)) (value_from 0 (e ∷ es)) 0 le ne.2 (omega arith) in
    (explode_range _ d ds e es _ _ nd ne up, explode_range _ e es d ds _ _ ne nd down)

-- A list of partitions with a comma after its first number or its first range, without leading zeros,
-- as in the comment of `kafka_validator`, makes `explode_partitions` abort, whatever follows.
pub explode_partitions-comma :
    (d : ℕ) (ds : List ℕ) (e : ℕ) (es rest : List ℕ)
    → IsNumber d ds
    → IsNumber e es
    → (explode_partitions (chars (d ∷ ds) ++ (44 ∷ rest)) ≡ aborts)
      × (explode_partitions (chars (d ∷ ds) ++ (45 ∷ (chars (e ∷ es) ++ (44 ∷ rest)))) ≡ aborts)
unfolding explode_partitions
explode_partitions-comma d ds e es rest nd ne = (
  ap (λ n. explode_from (suc n) (chars (d ∷ ds) ++ (44 ∷ rest)) 0)
        (length-insert (chars ds) 44 rest)
      ∙ (explode_one _ d ds rest 0 nd ∙ comma_aborts _ rest _),
  ap (λ n. explode_from (suc n) (chars (d ∷ ds) ++ (45 ∷ (chars (e ∷ es) ++ (44 ∷ rest)))) 0)
        (length-insert (chars ds) 45 (chars (e ∷ es) ++ (44 ∷ rest)))
      ∙ (explode_two _ d ds e es (44 ∷ rest) 0 nd ne refl ∙ comma_aborts _ rest _),
)
