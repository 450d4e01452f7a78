-- ===== src/JsonExport/Config/Meant.antt =====
-- A setting of the configuration of src/hooks/jsonexport.c, as it is meant, against the array that the
-- validation makes of it.
use schaufel.Common.{
  ℕ, zero, suc, ◌≡◌, refl, Option, none, some, List, [], ◌∷◌, ◌>>=◌, All, Option-cases, ◌⊎◌, inl,
  inr,
}
use schaufel.JsonExport.{PqType, text, Filter, noop, exists, equals, substr, Action, store, Needle}
use schaufel.JsonExport.Config.{
  Str, Setting, scalar, array, group, other, text_name, store_name, noop_name, pqtype_enum,
  actiontype_enum, filtertype_enum, FilterType, filter_noop, filter_match, filter_substr,
  filter_exists, member, Normalised, invalid, normal, checked, with_data, given_string,
  with_members, looked_up, normalise, filter_of, needle_of,
}

-- A setting as it is meant: a pointer, and the names of a type, of an action and of a filter with its
-- data, each of which may be missing.
abbrev pub named {ℓ} : {A : Type ℓ} → (Str → Option A) → A → Option Str → Option A
named enum default none = some default
named enum default (some s) = enum s

abbrev pub read_members :
    (Str → ℕ) → Option Str → Option Str → Option Str → Option Str → Option Str → Option Needle
read_members pointer jpointer pqtype action filter given = do
  j ← jpointer
  p ← named pqtype_enum text pqtype
  a ← named actiontype_enum store action
  t ← named filtertype_enum filter_noop filter
  f ← filter_of (some t) given
  some (record { jpointer = pointer j; pqtype = p; filter = f; action = a })

abbrev pub read_setting : (Str → ℕ) → Setting → Option Needle
read_setting pointer (scalar s) = read_members pointer s none none none none
read_setting pointer (array ms) =
    read_members pointer (given_string (member 0 ms)) (given_string (member 1 ms))
      (given_string (member 2 ms)) (given_string (member 3 ms)) (given_string (member 4 ms))
read_setting pointer (group g) = read_members pointer g.jpointer g.pqtype g.action g.filter g.given
read_setting pointer other = none

-- Every member of an array is a string, and there is no list among the settings.
abbrev pub IsString : Option Str → Type 0
IsString none = ⊥
IsString (some s) = Unit

abbrev pub HasStrings : Setting → Type 0
HasStrings (scalar s) = Unit
HasStrings (array ms) = All IsString ms
HasStrings (group g) = Unit
HasStrings other = ⊥

-- A member that was looked up is missing, or a string.
abbrev NotNull : Option (Option Str) → Type 0
NotNull none = Unit
NotNull (some s) = IsString s

member-NotNull : (i : ℕ) (ms : List (Option Str)) → All IsString ms → NotNull (member i ms)
member-NotNull i [] h = tt
member-NotNull zero (m ∷ ms) h = h.0
member-NotNull (suc i) (m ∷ ms) h = member-NotNull i ms h.1

-- A name is refused, or it names the value that is meant.
checked-named {ℓ} :
    {A : Type ℓ} (enum : Str → Option A) (default : Str) (value : A) (o : Option (Option Str))
    → enum default ≡ some value
    → NotNull o
    → ((checked enum default o ≡ none) × (named enum value (given_string o) ≡ none))
      ⊎ ((s : Str) × (v : A) × (checked enum default o ≡ some (some s))
          × (enum s ≡ some v)
          × (named enum value (given_string o) ≡ some v))
checked-named enum default value none d h = inr (default, value, refl, d, refl)
checked-named enum default value (some none) d h = absurd h
checked-named enum default value (some (some s)) d h = elim (Option-cases (enum s)) [
  | inl e ↦ inl (rw (checked, e) refl, e)
  | inr (v, e) ↦ inr (s, v, rw (checked, e) refl, e, e)
]

-- One setting is refused, or it is made an array that gives the needle which is meant.
abbrev pub Loads : (Str → ℕ) → Normalised → Option Needle → Type 0
Loads pointer r n =
    ((r ≡ invalid) × (n ≡ none))
    ⊎ ((ms : List (Option Str)) × (m : Needle) × (r ≡ normal ms)
        × (needle_of pointer (array ms) ≡ some m)
        × (n ≡ some m))

needle : (Str → ℕ) → Str → PqType → Action → Option Filter → Option Needle
needle pointer j p a f =
    f >>= λ f. some (record { jpointer = pointer j; pqtype = p; filter = f; action = a })

abbrev five : Str → Str → Str → Str → Str → List (Option Str)
five j p a f d = some j ∷ some p ∷ some a ∷ some f ∷ some d ∷ []

-- Five strings that name a type, an action and a filter are a needle.
five-Loads :
    (pointer : Str → ℕ) (j p a f d : Str) (t : PqType) (x : Action) (k : FilterType)
    (given : Option Str) (filter : Filter)
    → pqtype_enum p ≡ some t
    → actiontype_enum a ≡ some x
    → filtertype_enum f ≡ some k
    → filter_of (some k) (some d) ≡ some filter
    → filter_of (some k) given ≡ some filter
    → with_data j (some p) (some a) (some f) given ≡ normal (five j p a f d)
    → Loads pointer
        (with_data j (some p) (some a) (some f) given)
        (needle pointer j t x (filter_of (some k) given))
unfolding needle needle_of
five-Loads pointer j p a f d t x k given filter ep ea ef one two run =
    let n : Needle = record { jpointer = pointer j; pqtype = t; filter = filter; action = x } in
    let m : needle_of pointer (array (five j p a f d)) ≡ some n = rw (ep, ea, ef, one) refl in
    inr (five j p a f d, n, run, m, rw two refl)

with_data-Loads :
    (pointer : Str → ℕ) (j p a f : Str) (t : PqType) (x : Action) (k : FilterType)
    (given : Option Str)
    → pqtype_enum p ≡ some t
    → actiontype_enum a ≡ some x
    → filtertype_enum f ≡ some k
    → Loads pointer
        (with_data j (some p) (some a) (some f) given)
        (needle pointer j t x (filter_of (some k) given))
unfolding needle
with_data-Loads pointer j p a f t x filter_noop given ep ea ef =
    five-Loads pointer j p a f [] t x filter_noop given noop ep ea ef refl refl (rw ef refl)
with_data-Loads pointer j p a f t x filter_exists given ep ea ef =
    five-Loads pointer j p a f [] t x filter_exists given exists ep ea ef refl refl (rw ef refl)
with_data-Loads pointer j p a f t x filter_match none ep ea ef = inl (rw ef refl, refl)
with_data-Loads pointer j p a f t x filter_match (some d) ep ea ef =
    five-Loads pointer j p a f d t x filter_match (some d) (equals d) ep ea ef refl refl
      (rw ef refl)
with_data-Loads pointer j p a f t x filter_substr none ep ea ef = inl (rw ef refl, refl)
with_data-Loads pointer j p a f t x filter_substr (some d) ep ea ef =
    five-Loads pointer j p a f d t x filter_substr (some d) (substr d) ep ea ef refl refl
      (rw ef refl)

Loads-same :
    (pointer : Str → ℕ) (r r' : Normalised) (n n' : Option Needle)
    → r ≡ r'
    → n ≡ n'
    → Loads pointer r' n'
    → Loads pointer r n
Loads-same pointer r r' n n' p q h = rw (p, q) h

-- The members of an array or a group.
with_members-Loads :
    (pointer : Str → ℕ) (j : Option Str) (p a f : Option (Option Str)) (given : Option Str)
    → NotNull p
    → NotNull a
    → NotNull f
    → Loads pointer
        (with_members j p a f given)
        (read_members pointer j (given_string p) (given_string a) (given_string f) given)
unfolding needle pqtype_enum actiontype_enum filtertype_enum
with_members-Loads pointer none p a f given hp ha hf = inl (refl, refl)
with_members-Loads pointer (some j) p a f given hp ha hf =
    elim (checked-named pqtype_enum text_name text p refl hp) [
      | inl (u, v) ↦ inl (rw (with_members, u) refl, rw v refl)
      | inr (p', t, u, ep, v) ↦ elim (checked-named actiontype_enum store_name store a refl ha) [
        | inl (u2, v2) ↦ inl (rw (with_members, u, u2) refl, rw (v, v2) refl)
        | inr (a', x, u2, ea, v2) ↦
            elim (checked-named filtertype_enum noop_name filter_noop f refl hf) [
              | inl (u3, v3) ↦ inl (rw (with_members, u, u2, u3) refl, rw (v, v2, v3) refl)
              | inr (f', k, u3, ef, v3) ↦
                  Loads-same pointer _ _ _ _ (rw (with_members, u, u2, u3) refl)
                    (rw (v, v2, v3) refl) (with_data-Loads pointer j p' a' f' t x k given ep ea ef)
            ]
      ]
    ]

looked_up-NotNull : (o : Option Str) → NotNull (looked_up o) × (given_string (looked_up o) ≡ o)
looked_up-NotNull none = (tt, refl)
looked_up-NotNull (some s) = (tt, refl)

pub setting-Loads :
    (pointer : Str → ℕ) (c : Setting)
    → HasStrings c
    → Loads pointer (normalise c) (read_setting pointer c)
unfolding normalise pqtype_enum actiontype_enum filtertype_enum
setting-Loads pointer (scalar none) h = inl (refl, refl)
setting-Loads pointer (scalar (some s)) h =
    with_members-Loads pointer (some s) none none none none tt tt tt
setting-Loads pointer (array ms) h =
    with_members-Loads pointer (given_string (member 0 ms)) (member 1 ms) (member 2 ms)
      (member 3 ms) (given_string (member 4 ms)) (member-NotNull 1 ms h) (member-NotNull 2 ms h)
      (member-NotNull 3 ms h)
setting-Loads pointer (group g) h =
    let (p, pe) = looked_up-NotNull g.pqtype in
    let (a, ae) = looked_up-NotNull g.action in
    let (f, fe) = looked_up-NotNull g.filter in
    Loads-same pointer _ _ _ _ refl (rw (pe, ae, fe) refl) (
      with_members-Loads pointer g.jpointer (looked_up g.pqtype) (looked_up g.action)
        (looked_up g.filter) g.given p a f)
setting-Loads pointer other h = absurd h
