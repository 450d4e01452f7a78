-- ===== src/Exports/Config/Same.antt =====
-- The configuration of src/exports.c beside that of src/hooks/jsonexport.c.
use mathlib.Core.Path.{subst}
use schaufel.Common.{
  some_eq, Option-cases, ℕ, zero, suc, ◌≡◌, refl, sym, ap, ◌∙◌, false, Option, none, some, List, [],
  ◌∷◌, ◌++◌, length, ◌>>=◌, codes, All, Bool-cases, ◌⊎◌, inl, inr, arith,
}
use schaufel.JsonExport.{same_string}
use schaufel.Hashing.{find_type}
use schaufel.JsonExport.Config
use schaufel.JsonExport.Config.{
  Str, Group, Setting, scalar, array, group, other, store_name, text_name, noop_name, pqtype_enum,
  filtertype_enum, actiontype_enum, action_types, member, Normalised, invalid, crash, normal,
  checked, given_string, looked_up, with_members, with_data, type_needs_data, normalise, Validated,
  rejected, crashed, valid, validate_from, h_jsonexport_validate, needle_of, filter_of,
}
use schaufel.Exports.Config.{
  exports_actiontype_enum, exports_with_members, exporter_normalise, exporter_validate_from,
  exporter_validate, exports_needle_of, exports_needles,
}

-- An action that is not "store_meta".
abbrev pub NotMeta : Option (Option Str) → Type 0
NotMeta none = Unit {0}
NotMeta (some none) = Unit {0}
NotMeta (some (some s)) = same_string s (codes "store_meta") ≡ false

-- A setting without the action "store_meta".
abbrev pub IsPlain : Setting → Type 0
IsPlain (scalar s) = Unit {0}
IsPlain (array ms) = NotMeta (member 2 ms)
IsPlain (group g) = NotMeta (looked_up g.action)
IsPlain other = Unit {0}

enum-same :
    (s : Str)
    → same_string s (codes "store_meta") ≡ false
    → exports_actiontype_enum s ≡ actiontype_enum s
unfolding exports_actiontype_enum actiontype_enum find_type
enum-same s h = rw h refl

checked-same :
    (o : Option (Option Str))
    → NotMeta o
    → checked exports_actiontype_enum store_name o ≡ checked actiontype_enum store_name o
checked-same none h = refl
checked-same (some none) h = refl
checked-same (some (some s)) h = rw (checked, enum-same s h) refl

with_members-same :
    (j : Option Str) (p a f : Option (Option Str)) (d : Option Str)
    → NotMeta a
    → exports_with_members j p a f d ≡ with_members j p a f d
with_members-same none p a f d h = refl
with_members-same (some j) p a f d h = ground (arith, checked-same a h)

normalise-same : (c : Setting) → IsPlain c → exporter_normalise c ≡ normalise c
unfolding exporter_normalise normalise
normalise-same (scalar none) h = refl
normalise-same (scalar (some s)) h = refl
normalise-same (array ms) h = with_members-same _ _ (member 2 ms) _ _ h
normalise-same (group g) h = with_members-same _ _ (looked_up g.action) _ _ h
normalise-same other h = refl

normal_eq : {xs ys : List (Option Str)} → normal xs ≡ normal ys → xs ≡ ys
normal_eq h = cc

valid_eq : {cs ds : List Setting} → valid cs ≡ valid ds → cs ≡ ds
valid_eq h = cc

validated-cases :
    (v : Validated) → (v ≡ rejected) ⊎ (v ≡ crashed) ⊎ ((ds : List Setting) × (v ≡ valid ds))
validated-cases rejected = inl refl
validated-cases crashed = inr (inl refl)
validated-cases (valid ds) = inr (inr (ds, refl))

normalise-cases :
    (n : Normalised) → (n ≡ invalid) ⊎ (n ≡ crash) ⊎ ((ms : List (Option Str)) × (n ≡ normal ms))
normalise-cases invalid = inl refl
normalise-cases crash = inr (inl refl)
normalise-cases (normal ms) = inr (inr (ms, refl))

-- The action of a setting that was normalised.
checked-NotMeta :
    (o : Option (Option Str)) (a : Option Str)
    → NotMeta o
    → checked actiontype_enum store_name o ≡ some a
    → NotMeta (some a)
checked-NotMeta none a h e = subst (λ a. NotMeta (some a)) (some_eq e) refl
checked-NotMeta (some none) a h e = subst (λ a. NotMeta (some a)) (some_eq e) tt
checked-NotMeta (some (some s)) a h e = elim (Option-cases (actiontype_enum s)) [
  | inl n ↦ let k = rw (checked, n) at e in cc
  | inr (t, y) ↦ subst (λ a. NotMeta (some a)) (some_eq (rw (checked, y) at e)) h
]

with_data-member :
    (j : Str) (p a f d : Option Str) (ms : List (Option Str))
    → with_data j p a f d ≡ normal ms
    → member 2 ms ≡ some a
with_data-member j p a none d ms e = cc
with_data-member j p a (some f) none ms e =
    elim (Bool-cases (type_needs_data (filtertype_enum f))) [
      | inl y ↦ let k = rw y at e in cc
      | inr n ↦ ap (member 2) (sym (normal_eq (rw n at e)))
    ]
with_data-member j p a (some f) (some d) ms e =
    elim (Bool-cases (type_needs_data (filtertype_enum f))) [
      | inl y ↦ ap (member 2) (sym (normal_eq (rw y at e)))
      | inr n ↦ ap (member 2) (sym (normal_eq (rw n at e)))
    ]

with_members-NotMeta :
    (j : Option Str) (p a f : Option (Option Str)) (d : Option Str) (ms : List (Option Str))
    → NotMeta a
    → with_members j p a f d ≡ normal ms
    → NotMeta (member 2 ms)
with_members-NotMeta none p a f d ms h e = cc
with_members-NotMeta (some j) p a f d ms h e =
    elim (Option-cases (checked pqtype_enum text_name p)) [
      | inl n ↦ let k : invalid ≡ normal ms = rw (with_members, n) at e in cc
      | inr (p', ep) ↦ elim (Option-cases (checked actiontype_enum store_name a)) [
        | inl n ↦ let k : invalid ≡ normal ms = ground (arith, e) in cc
        | inr (a', ea) ↦ elim (Option-cases (checked filtertype_enum noop_name f)) [
          | inl n ↦ let k : invalid ≡ normal ms = ground (arith, e) in cc
          | inr (f', ef) ↦
              let k : with_data j p' a' f' d ≡ normal ms = ground (arith, e) in
              subst NotMeta (sym (with_data-member j p' a' f' d ms k)) (checked-NotMeta a a' h ea)
        ]
      ]
    ]

normalise-NotMeta :
    (c : Setting) (ms : List (Option Str))
    → IsPlain c
    → normalise c ≡ normal ms
    → NotMeta (member 2 ms)
unfolding normalise
normalise-NotMeta (scalar none) ms h e = cc
normalise-NotMeta (scalar (some s)) ms h e = subst (λ l. NotMeta (member 2 l)) (normal_eq e) refl
normalise-NotMeta (array l) ms h e = with_members-NotMeta _ _ (member 2 l) _ _ ms h e
normalise-NotMeta (group g) ms h e = with_members-NotMeta _ _ (looked_up g.action) _ _ ms h e
normalise-NotMeta other ms h e = subst (λ l. NotMeta (member 2 l)) (normal_eq e) refl

append-IsPlain :
    (cs : List Setting) (c : Setting) → All IsPlain cs → IsPlain c → All IsPlain (cs ++ (c ∷ []))
append-IsPlain [] c h k = (k, tt)
append-IsPlain (b ∷ cs) c h k = (h.0, append-IsPlain cs c h.1 k)

-- The loop of the validation, and what it leaves.
validate_from-same :
    (n : ℕ) (cs : List Setting)
    → All IsPlain cs
    → (exporter_validate_from n cs ≡ validate_from n cs)
      × ((ds : List Setting) → validate_from n cs ≡ valid ds → All IsPlain ds)
unfolding exporter_validate_from validate_from
validate_from-same zero cs h = (refl, λ ds e. subst (All IsPlain) (valid_eq e) h)
validate_from-same (suc n) [] h = (refl, λ ds e. cc)
validate_from-same (suc n) (c ∷ cs) h =
    let same = normalise-same c h.0 in
    elim (normalise-cases (normalise c)) [
      | inl e ↦ (ground (arith, same, e), λ ds k. absurd (ground (arith, k, e)))
      | inr (inl e) ↦ (ground (arith, same, e), λ ds k. absurd (ground (arith, k, e)))
      | inr (inr (ms, e)) ↦
          let plain = append-IsPlain cs (array ms) h.1 (normalise-NotMeta c ms h.0 e) in
          let (ih, left) = validate_from-same n (cs ++ (array ms ∷ [])) plain in
          (ground (arith, same, e, ih), λ ds k. left ds (ground (arith, k, e)))
    ]

given-same :
    (o : Option (Option Str))
    → NotMeta o
    → (given_string o >>= exports_actiontype_enum) ≡ (given_string o >>= actiontype_enum)
given-same none h = refl
given-same (some none) h = refl
given-same (some (some s)) h = enum-same s h

needle_of-same :
    (pointer : Str → ℕ) (c : Setting)
    → IsPlain c
    → exports_needle_of pointer c ≡ needle_of pointer c
unfolding exports_needle_of needle_of
needle_of-same pointer (scalar s) h = refl
needle_of-same pointer (array ms) h = simp (given-same (member 2 ms) h)
needle_of-same pointer (group g) h = refl
needle_of-same pointer other h = refl

needles-same :
    (pointer : Str → ℕ) (cs : List Setting)
    → All IsPlain cs
    → exports_needles pointer cs ≡ Config.needles pointer cs
unfolding exports_needles Config.needles
needles-same pointer [] h = refl
needles-same pointer (c ∷ cs) h =
    rw (needle_of-same pointer c h.0, needles-same pointer cs h.1) refl

-- Settings with a host and a topic, none of whose pointers has the action "store_meta": the validation
-- of src/exports.c ends as that of src/hooks/jsonexport.c does on the same pointers, rejecting them,
-- crashing, or accepting them; and where it accepts them, both leave the same settings, and both
-- functions `_needles` make the same needles of these, or abort.
pub exporter_validate_lem :
    (pointer : Str → ℕ) (host topic : Str) (cs : List Setting)
    → All IsPlain cs
    → let v = exporter_validate (some host) (some topic) (some (some cs)) in
      (v ≡ h_jsonexport_validate (some (some cs)))
      × ((v ≡ rejected)
          ⊎ (v ≡ crashed)
          ⊎ ((ds : List Setting) × (v ≡ valid ds)
              × (exports_needles pointer ds ≡ Config.needles pointer ds)))
unfolding exporter_validate h_jsonexport_validate
exporter_validate_lem pointer host topic cs h =
    let (same, left) = validate_from-same (length cs) cs h in
    (
      same,
      elim (validated-cases (validate_from (length cs) cs)) [
        | inl e ↦ inl (same ∙ e)
        | inr (inl e) ↦ inr (inl (same ∙ e))
        | inr (inr (ds, e)) ↦ inr (inr (ds, same ∙ e, needles-same pointer ds (left ds e)))
      ],
    )
