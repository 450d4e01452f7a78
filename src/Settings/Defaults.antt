-- ===== src/Settings/Defaults.antt =====
-- Defaults that `config_set_default_string` of src/utils/config.c puts into a configuration.
use schaufel.Common.{
  ℕ, ◌<◌, ◌≡◌, ◌≢◌, refl, sym, ap, ◌∙◌, true, Option, none, some, List, [], ◌∷◌, length, ltb, arith,
  All, Option-cases, ◌⊎◌, inl, inr,
}
use schaufel.Metadata.Assoc.{same_string_refl}
use schaufel.Settings.{
  group, string, Kind, is_name, Library, split_path, create_from, config_create_path,
  config_set_default_string,
}

abbrev pub AreNames : List (List ℕ) → Type 0
AreNames ns = All (λ n. is_name n ≡ true) ns

module _ (L : Library) where
  -- The setting at the end of a path.
  abbrev pub resolve : L.Tree → L.Node → List ℕ → List (List ℕ) → Option L.Node
  resolve t p name [] = L.member t p name
  resolve t p name (n ∷ ns) = elim (L.member t p name) [ none ↦ none | some f ↦ resolve t f n ns ]

  -- As far as the settings on the path exist, they are groups.
  abbrev pub IsClear : L.Tree → L.Node → List ℕ → List (List ℕ) → Type 0
  IsClear t p name [] = Unit {0}
  IsClear t p name (n ∷ ns) =
      (L.member t p name ≡ none)
      ⊎ ((f : L.Node) × (L.member t p name ≡ some f) × (L.kind t f ≡ group) × IsClear t f n ns)

  -- Every setting of the first tree is in the second, with its type and its string.
  abbrev pub Keeps : L.Tree → L.Tree → Type 0
  Keeps t t' =
      (q : L.Node) (j : List ℕ) (r : L.Node)
      → L.member t q j ≡ some r
      → (L.member t' q j ≡ some r)
        × (L.kind t' r ≡ L.kind t r)
        × (L.string_of t' r ≡ L.string_of t r)

  abbrev pub IsFresh : L.Tree → L.Node → Type 0
  IsFresh t m = (q : L.Node) (j : List ℕ) (r : L.Node) → L.member t q j ≡ some r → r ≢ m

  pub Keeps-trans : (t u w : L.Tree) → Keeps t u → Keeps u w → Keeps t w
  Keeps-trans t u w f g q j r h =
      let (a, b, c) = f q j r h in let (a', b', c') = g q j r a in (a', b' ∙ b, c' ∙ c)

  pub Keeps-add :
      (t u : L.Tree) (m : L.Node)
      → ((q : L.Node) (j : List ℕ) (r : L.Node)
          → L.member t q j ≡ some r
          → (L.member u q j ≡ some r) × (r ≢ m))
      → ((q : L.Node) → q ≢ m → (L.kind u q ≡ L.kind t q) × (L.string_of u q ≡ L.string_of t q))
      → Keeps t u
  Keeps-add t u m keep frame q j r h =
      let (a, ne) = keep q j r h in let (b, c) = frame r ne in (a, b, c)

  resolve-none :
      (t : L.Tree) (m : L.Node) (name : List ℕ) (ns : List (List ℕ))
      → L.member t m name ≡ none
      → resolve t m name ns ≡ none
  resolve-none t m name [] h = h
  resolve-none t m name (n ∷ ns) h = rw (h, resolve) refl

  resolve-some :
      (t : L.Tree) (m f : L.Node) (name n : List ℕ) (ns : List (List ℕ)) {o : Option L.Node}
      → L.member t m name ≡ some f
      → resolve t f n ns ≡ o
      → resolve t m name (n ∷ ns) ≡ o
  resolve-some t m f name n ns h g = rw (h, resolve) g

  IsClear-new :
      (t : L.Tree) (m : L.Node) (name : List ℕ) (ns : List (List ℕ))
      → ((j : List ℕ) → L.member t m j ≡ none)
      → IsClear t m name ns
  IsClear-new t m name [] h = tt
  IsClear-new t m name (n ∷ ns) h = inl (h name)

  -- What becomes of a path: its last setting was there and nothing changes, or it is a new string.
  abbrev Created :
      L.Tree → L.Node → List ℕ → List (List ℕ) → Option (L.Tree × Option L.Node) → Type 0
  Created t p name ns result =
      (t' : L.Tree) × (o : Option L.Node) × (leaf : L.Node) × (result ≡ some (t', o))
      × Keeps t t'
      × (resolve t' p name ns ≡ some leaf)
      × (((o ≡ none) × (resolve t p name ns ≡ some leaf) × (t' ≡ t))
          ⊎ ((o ≡ some leaf)
              × (resolve t p name ns ≡ none)
              × (L.kind t' leaf ≡ string)
              × IsFresh t leaf))

  create_leaf :
      (t : L.Tree) (p : L.Node) (name : List ℕ)
      → L.kind t p ≡ group
      → is_name name ≡ true
      → Created t p name [] (create_from L t (some p) name [] string)
  unfolding create_from
  create_leaf t p name g v = elim (Option-cases (L.member t p name)) [
    | inr (m, e) ↦ (
      t,
      none,
      m,
      ap some (L.add-old t p m name string g e),
      λ q j r h. (h, refl, refl),
      e,
      inl (refl, e, refl),
    )
    | inl e ↦
        let (t', m, run, k, _, new, keep, _, frame) = L.add-new t p name string g v e in
        (
          t',
          some m,
          m,
          ap some run,
          Keeps-add t t' m keep frame,
          new name ∙ rw (same_string_refl name) refl,
          inr (refl, e, k, λ q j r h. (keep q j r h).1),
        )
  ]

  create_from-old :
      (t : L.Tree) (p f : L.Node) (name n : List ℕ) (ns : List (List ℕ)) (k : Kind)
      → L.member t p name ≡ some f
      → L.kind t f ≡ group
      → create_from L t (some p) name (n ∷ ns) k ≡ create_from L t (some f) n ns k
  unfolding create_from
  create_from-old t p f name n ns k e g = ground arith

  create_from-new :
      (t u : L.Tree) (p m : L.Node) (name n : List ℕ) (ns : List (List ℕ)) (k : Kind)
      → L.member t p name ≡ none
      → L.add t (some p) name group ≡ (u, some m)
      → create_from L t (some p) name (n ∷ ns) k ≡ create_from L u (some m) n ns k
  unfolding create_from
  create_from-new t u p m name n ns k e a = ground arith

  create_from-Created :
      (ns : List (List ℕ)) (t : L.Tree) (p : L.Node) (name : List ℕ)
      → L.kind t p ≡ group
      → AreNames (name ∷ ns)
      → IsClear t p name ns
      → Created t p name ns (create_from L t (some p) name ns string)
  create_from-Created [] t p name g v c = create_leaf t p name g v.0
  create_from-Created (n ∷ ns) t p name g v (inr (f, e, gf, c)) =
      let (t', o, leaf, run, keeps, res, how) = create_from-Created ns t f n gf v.1 c in
      (
        t',
        o,
        leaf,
        create_from-old t p f name n ns string e gf ∙ run,
        keeps,
        resolve-some t' p f name n ns (keeps p name f e).0 res,
        elim how [
          | inl (a, b, d) ↦ inl (a, resolve-some t p f name n ns e b, d)
          | inr (a, b, d, i) ↦ inr (a, resolve-some t p f name n ns e b, d, i)
        ],
      )
  create_from-Created (n ∷ ns) t p name g v (inl e) =
      let (u, m, add, k, none_below, new, keep, _, frame) = L.add-new t p name group g v.0 e in
      let (t', o, leaf, run, keeps, res, how) =
        create_from-Created ns u m n k v.1 (IsClear-new u m n ns none_below) in
      let there : L.member u p name ≡ some m = new name ∙ rw (same_string_refl name) refl in
      (
        t',
        o,
        leaf,
        create_from-new t u p m name n ns string e add ∙ run,
        Keeps-trans t u t' (Keeps-add t u m keep frame) keeps,
        resolve-some t' p m name n ns (keeps p name m there).0 res,
        elim how [
          | inl (a, b, d) ↦ (let z = resolve-none u m n ns (none_below n) in cc)
          | inr (a, b, d, i) ↦
              inr (a, resolve-none t p name (n ∷ ns) e, d, λ q j r h. i q j r (keep q j r h).0)
        ],
      )

  resolve-set_string :
      (t : L.Tree) (m : L.Node) (v : List ℕ) (q : L.Node) (name : List ℕ) (ns : List (List ℕ))
      → resolve (L.set_string t m v) q name ns ≡ resolve t q name ns
  resolve-set_string t m v q name [] = L.member-set_string t m q name v
  resolve-set_string t m v q name (n ∷ ns) = elim (Option-cases (L.member t q name)) [
    | inl e ↦
        resolve-none (L.set_string t m v) q name (n ∷ ns) (L.member-set_string t m q name v ∙ e)
        ∙ sym (resolve-none t q name (n ∷ ns) e)
    | inr (f, e) ↦
        resolve-some (L.set_string t m v) q f name n ns (L.member-set_string t m q name v ∙ e)
          (resolve-set_string t m v f n ns)
        ∙ sym (resolve-some t q f name n ns e refl)
  ]

  pub Keeps-set_string :
      (t u : L.Tree) (m : L.Node) (v : List ℕ)
      → Keeps t u
      → IsFresh t m
      → Keeps t (L.set_string u m v)
  Keeps-set_string t u m v f fresh q j r h =
      let (a, b, c) = f q j r h in
      (
        L.member-set_string u m q j v ∙ a,
        L.kind-set_string u m r v ∙ b,
        L.set_string-other u m r v (fresh q j r h) ∙ c,
      )

-- For a group in the configuration and a path of fewer than 512 characters, whose parts are names,
-- and whose settings but the last are groups, as far as they exist: afterwards the path leads to a
-- setting. If it did before, it leads to the same one with the same string; else to a new string,
-- which is the default. Every other setting that was there is still where it was, with the same
-- type and the same string.
pub config_set_default_string_lem :
    (L : Library) (t : L.Tree) (p : L.Node) (path v : List ℕ)
    → L.kind t p ≡ group
    → length path < 512
    → AreNames ((split_path path).0 ∷ (split_path path).1)
    → IsClear L t p (split_path path).0 (split_path path).1
    → (t' : L.Tree) × (leaf : L.Node) × (config_set_default_string L t (some p) path v ≡ some t')
      × Keeps L t t'
      × (resolve L t' p (split_path path).0 (split_path path).1 ≡ some leaf)
      × (((resolve L t p (split_path path).0 (split_path path).1 ≡ some leaf)
            × (L.string_of t' leaf ≡ L.string_of t leaf))
          ⊎ ((resolve L t p (split_path path).0 (split_path path).1 ≡ none)
              × (L.string_of t' leaf ≡ some v)))
unfolding config_set_default_string config_create_path
config_set_default_string_lem L t p path v g short names clear =
    let name = (split_path path).0 in
    let ns = (split_path path).1 in
    let l : ltb (length path) 512 ≡ true = ground arith in
    let (u, o, leaf, run, keeps, res, how) = create_from-Created L ns t p name g names clear in
    elim how [
      | inl (a, b, same) ↦
          (u, leaf, rw (l, run, a) refl, keeps, res, inl (b, ap (λ w. L.string_of w leaf) same))
      | inr (a, b, k, fresh) ↦ (
        L.set_string u leaf v,
        leaf,
        rw (l, run, a) refl,
        Keeps-set_string L t u leaf v keeps fresh,
        resolve-set_string L u leaf v p name ns ∙ res,
        inr (b, L.set_string-same u leaf v k),
      )
    ]
