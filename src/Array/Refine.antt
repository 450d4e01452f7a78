-- ===== src/Array/Refine.antt =====
-- An array of src/utils/array.c as the list of its values.
use schaufel.Common.{
  ℕ, zero, suc, ◌+◌, ◌-◌, ◌*◌, ◌%◌, ◌^◌, ◌<◌, ◌≤◌, ◌≡◌, refl, sym, ◌∙◌, ap, false, Option, none,
  some, List, [], ◌∷◌, ◌++◌, ltb, ◌==◌, length, length-append, arith, Bool-cases, List-cases,
  ==_iff, inl, inr,
}
use schaufel.Array.{
  Array, nulls, cell, set_cell, array_get, grown, array_insert, array_pop, written,
}

length-nulls : (V : Type 0) (n : ℕ) → length (nulls {V = V} n) ≡ n
length-nulls V zero = refl
length-nulls V (suc n) = omega (arith, length-nulls V n)

module _ {V : Type 0} where
  abbrev pub values : List V → List (Option V)
  values [] = []
  values (x ∷ xs) = some x ∷ values xs

  -- The value at an index, or NULL.
  abbrev pub get_elem? : List V → ℕ → Option V
  get_elem? [] i = none
  get_elem? (x ∷ xs) zero = some x
  get_elem? (x ∷ xs) (suc i) = get_elem? xs i

  -- The array holds the values `xs`, in memory for `len` values.
  pub record IsArray (a : Array V) (xs : List V) : Type 0 where
    pub rest : List (Option V)
    pub stored : a.payload ≡ values xs ++ rest
    pub counted : a.used ≡ length xs
    pub allocated : length xs + length rest ≡ a.len
    pub positive : 1 ≤ a.len

  set_cell-values :
      (xs : List V) (c : Option V) (rest : List (Option V)) (v : V)
      → set_cell (values xs ++ (c ∷ rest)) (length xs) v ≡ some (values (xs ++ (v ∷ [])) ++ rest)
  set_cell-values [] c rest v = refl
  set_cell-values (x ∷ xs) c rest v = rw (set_cell-values xs c rest v) refl

  cell-values :
      (xs : List V) (rest : List (Option V)) (i : ℕ)
      → i < length xs
      → cell (values xs ++ rest) i ≡ some (get_elem? xs i)
  cell-values [] rest i lt = absurd (omega arith)
  cell-values (x ∷ xs) rest zero lt = refl
  cell-values (x ∷ xs) rest (suc i) lt = cell-values xs rest i (omega arith)

  get_elem?_past : (xs : List V) (i : ℕ) → length xs ≤ i → get_elem? xs i ≡ none
  get_elem?_past [] i le = refl
  get_elem?_past (x ∷ xs) zero le = absurd (omega arith)
  get_elem?_past (x ∷ xs) (suc i) le = get_elem?_past xs i (omega arith)

  -- `array_get` of an array that is not empty, and shorter than 2 ^ 64, is the value at the index, or NULL from its end on:
  -- it reads no cell that was not written.
  pub array_get_lem :
      (a : Array V) (xs : List V) (i : ℕ)
      → IsArray a xs
      → 1 ≤ a.used
      → a.len < 2 ^ 64
      → array_get a i ≡ some (get_elem? xs i)
  unfolding array_get
  array_get_lem a xs i h some_used fits =
      elim (Bool-cases (ltb ((a.used + (2 ^ 64 - 1)) % 2 ^ 64) i)) [
        | inl y ↦
            let past : length xs ≤ i = ground (arith, h.counted, h.allocated) in
            rw y (ap some (sym (get_elem?_past xs i past)))
        | inr n ↦
            let inside : i < length xs = ground (arith, h.counted, h.allocated) in
            rw (n, h.stored) (cell-values xs h.rest i inside)
      ]

  append_nil : (xs : List (Option V)) → xs ++ [] ≡ xs
  append_nil [] = refl
  append_nil (x ∷ xs) = ap (λ l. x ∷ l) (append_nil xs)

  append_assoc : (xs ys zs : List (Option V)) → (xs ++ ys) ++ zs ≡ xs ++ (ys ++ zs)
  append_assoc [] ys zs = refl
  append_assoc (x ∷ xs) ys zs = ap (λ l. x ∷ l) (append_assoc xs ys zs)

  write_lem :
      (b : Array V) (xs : List V) (v : V)
      → IsArray b xs
      → b.used < b.len
      → (d : Array V) × (written b (set_cell b.payload b.used v) ≡ some d)
        × IsArray d (xs ++ (v ∷ []))
  write_lem b xs v h lt = elim (List-cases h.rest) [
    | inl e ↦ absurd (omega (arith, h.counted, h.allocated, ap length e))
    | inr (c, cs, e) ↦
        let at_end : b.payload ≡ values xs ++ (c ∷ cs) = h.stored ∙ ap (λ l. values xs ++ l) e in
        (
          record b { payload = values (xs ++ (v ∷ [])) ++ cs; used = b.used + 1 },
          rw (at_end, h.counted) (rw (set_cell-values xs c cs v) refl),
          record {
            rest = cs;
            stored = refl;
            counted = omega (arith, h.counted, length-append xs (v ∷ []));
            allocated = omega (arith, h.allocated, ap length e, length-append xs (v ∷ []));
            positive = h.positive;
          },
        )
  ]

  grown-IsArray :
      (a : Array V) (xs : List V)
      → IsArray a xs
      → a.len * 2 < 2 ^ 64
      → IsArray (grown a) xs × ((grown a).used < (grown a).len)
  grown-IsArray a xs h fits = elim (Bool-cases (a.used == a.len)) [
    | inl y ↦
        let k : a.used ≡ a.len = (==_iff a.used a.len).0 y in
        let more = nulls {V = V} (a.len * 2 % 2 ^ 64 - a.len) in
        rw y (
          record {
            rest = h.rest ++ more;
            stored = ap (λ l. l ++ more) h.stored ∙ append_assoc (values xs) h.rest more;
            counted = h.counted;
            allocated = omega (
              arith,
              h.allocated,
              length-append h.rest more,
              length-nulls V (a.len * 2 % 2 ^ 64 - a.len),
            );
            positive = omega (arith, h.positive);
          },
          omega (arith, k, h.positive),
        )
    | inr n ↦ rw n (h, ground (arith, h.counted, h.allocated))
  ]

  -- `array_insert` appends to an array whose doubled length is below 2 ^ 64, and writes inside the memory of the array, which it doubles where it is
  -- full.
  pub array_insert_lem :
      (a : Array V) (xs : List V) (v : V)
      → IsArray a xs
      → a.len * 2 < 2 ^ 64
      → (b : Array V) × (array_insert a v ≡ some b) × IsArray b (xs ++ (v ∷ []))
  unfolding array_insert
  array_insert_lem a xs v h fits =
      let (g, room) = grown-IsArray a xs h fits in write_lem (grown a) xs v g room

  get_elem?_last : (xs : List V) (v : V) → get_elem? (xs ++ (v ∷ [])) (length xs) ≡ some v
  get_elem?_last [] v = refl
  get_elem?_last (x ∷ xs) v = get_elem?_last xs v

  values-append : (xs ys : List V) → values (xs ++ ys) ≡ values xs ++ values ys
  values-append [] ys = refl
  values-append (x ∷ xs) ys = ap (λ l. some x ∷ l) (values-append xs ys)

  -- `array_pop` takes the value that was inserted last.
  pub array_pop_lem :
      (a : Array V) (xs : List V) (v : V)
      → IsArray a (xs ++ (v ∷ []))
      → (b : Array V) × (array_pop a ≡ some (some v, b)) × IsArray b xs
  unfolding array_pop
  array_pop_lem a xs v h =
      let n : length (xs ++ (v ∷ [])) ≡ length xs + 1 = omega (arith, length-append xs (v ∷ [])) in
      let some_used : (a.used == 0) ≡ false = ground (arith, h.counted, n) in
      let last : a.used - 1 ≡ length xs = omega (arith, h.counted, n) in
      let read = cell-values (xs ++ (v ∷ [])) h.rest (length xs) (omega (arith, n)) in
      (
        record a { used = length xs },
        rw (some_used, last, h.stored) (rw (read, get_elem?_last xs v, last) refl),
        record {
          rest = some v ∷ h.rest;
          stored =
              h.stored
              ∙ (ap (λ l. l ++ h.rest) (values-append xs (v ∷ []))
                  ∙ append_assoc (values xs) (some v ∷ []) h.rest);
          counted = refl;
          allocated = omega (arith, h.allocated, n);
          positive = h.positive;
        },
      )
