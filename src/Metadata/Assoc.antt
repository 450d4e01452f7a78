-- ===== src/Metadata/Assoc.antt =====
-- A hash table as an association list, whose keys differ.
use schaufel.Common.{
  ℕ, ◌≡◌, refl, ap, arith, Bool, true, false, not, Option, none, some, List, [], ◌∷◌, ◌++◌,
  if◌then◌else◌, Bool-cases, Option-cases, inl, inr, ==_refl,
}
use schaufel.JsonExport.{same_string}
use schaufel.Metadata.{HashTable, is_found}

pub same_string_refl : (s : List ℕ) → same_string s s ≡ true
same_string_refl [] = refl
same_string_refl (a ∷ xs) = rw (==_refl a) (same_string_refl xs)

pub same_string_eq : (s t : List ℕ) → same_string s t ≡ true → s ≡ t
same_string_eq [] [] h = refl
same_string_eq [] (b ∷ ys) h = cc
same_string_eq (a ∷ xs) [] h = cc
same_string_eq (a ∷ xs) (b ∷ ys) h = ground (arith, same_string_eq xs ys)

module _ {V : Type 0} where
  abbrev look : List (List ℕ × V) → List ℕ → Option V
  look [] k = none
  look ((j, v) ∷ t) k = if same_string j k then some v else look t k

  abbrev replace : List (List ℕ × V) → List ℕ → V → List (List ℕ × V)
  replace [] k v = []
  replace ((j, w) ∷ t) k v = if same_string j k then (j, v) ∷ t else (j, w) ∷ replace t k v

  abbrev put : List (List ℕ × V) → List ℕ → V → List (List ℕ × V) × Bool
  put t k v = if is_found (look t k) then (replace t k v, false) else ((k, v) ∷ t, true)

  abbrev second : List (List ℕ × V) → List V
  second [] = []
  second ((k, v) ∷ t) = v ∷ second t

  pub look-replace :
      (t : List (List ℕ × V)) (k j : List ℕ) (v w : V)
      → look t k ≡ some w
      → look (replace t k v) j ≡ (if same_string k j then some v else look t j)
  look-replace [] k j v w h = cc
  look-replace ((i, u) ∷ t) k j v w h = ground (
    arith,
    same_string_eq i k,
    same_string_eq i j,
    same_string_eq k j,
    same_string_refl j,
    same_string_refl k,
    look-replace t k j v w,
  )

  pub items_replace :
      (t : List (List ℕ × V)) (k : List ℕ) (v w : V)
      → look t k ≡ some w
      → (xs : List V) × (ys : List V) × (second t ≡ xs ++ (w ∷ ys))
        × (second (replace t k v) ≡ xs ++ (v ∷ ys))
  items_replace [] k v w h = cc
  items_replace ((i, u) ∷ t) k v w h = elim (Bool-cases (same_string i k)) [
    | inl e ↦ let s : u ≡ w = ground arith in ([], second t, ap (λ x. x ∷ second t) s, rw e refl)
    | inr e ↦
        let g : look t k ≡ some w = ground arith in
        let (xs, ys, a, b) = items_replace t k v w g in
        (u ∷ xs, ys, ap (λ l. u ∷ l) a, rw e (ap (λ l. u ∷ l) b))
  ]

  pub look-put :
      (t : List (List ℕ × V)) (k j : List ℕ) (v : V)
      → look (put t k v).0 j ≡ (if same_string k j then some v else look t j)
  look-put t k j v = elim (Option-cases (look t k)) [
    | inl e ↦ rw e refl
    | inr (w, e) ↦ rw e (look-replace t k j v w e)
  ]

  pub put_new :
      (t : List (List ℕ × V)) (k : List ℕ) (v : V) → (put t k v).1 ≡ not (is_found (look t k))
  put_new t k v = elim (Option-cases (look t k)) [ inl e ↦ rw e refl | inr (w, e) ↦ rw e refl ]

  pub put_items :
      (t : List (List ℕ × V)) (k : List ℕ) (v : V)
      → look t k ≡ none
      → (xs : List V) × (ys : List V) × (second t ≡ xs ++ ys)
        × (second (put t k v).0 ≡ xs ++ (v ∷ ys))
  put_items t k v e = ([], second t, refl, rw e refl)

-- The laws hold of it.
abbrev pub assoc_table : (V : Type 0) → HashTable V
assoc_table V = record {
  Table = List (List ℕ × V);
  create = [];
  find = look;
  insert = put;
  write = replace;
  items = second;
  find-create = λ k. refl;
  find-insert = look-put;
  insert_new = put_new;
  find-write = look-replace;
  items-create = refl;
  items-insert = put_items;
  items-write = items_replace;
}
