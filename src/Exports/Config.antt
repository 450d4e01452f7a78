-- ===== src/Exports/Config.antt =====
-- The configuration of src/exports.c: `exporter_validate` and `_needles`, on the settings of
-- JsonExport.Config. The actions are those of src/hooks/jsonexport.c without "store_meta".
pub mod Same
mod Tests
use schaufel.Common.{
  ℕ, zero, suc, Bool, true, false, Option, none, some, List, [], ◌∷◌, ◌++◌, length, if◌then◌else◌,
  ◌>>=◌, codes,
}
use schaufel.JsonExport.{Action, store, store_true, discard_false, discard_true, Needle}
use schaufel.Hashing.{find_type}
use schaufel.JsonExport.Config.{
  Str, Group, Setting, scalar, array, group, other, text_name, store_name, noop_name, pqtype_enum,
  filtertype_enum, member, Normalised, invalid, crash, normal, checked, with_data, given_string,
  looked_up, Validated, rejected, crashed, valid, filter_of,
}

abbrev pub exports_action_types : List (Str × Action)
exports_action_types =
    (codes "store", store)
    ∷ (codes "store_true", store_true)
    ∷ (codes "discard_false", discard_false)
    ∷ (codes "discard_true", discard_true)
    ∷ []

-- `_actiontype_enum`.
unfoldable pub exports_actiontype_enum : Str → Option Action
exports_actiontype_enum s = find_type s exports_action_types

-- The members of an array or of a group.
abbrev pub exports_with_members :
    Option Str
    → Option (Option Str)
    → Option (Option Str)
    → Option (Option Str)
    → Option Str
    → Normalised
exports_with_members none pqtype action filter given = invalid
exports_with_members (some jpointer) pqtype action filter given =
    elim (checked pqtype_enum text_name pqtype) [
      | none ↦ invalid
      | some p ↦ elim (checked exports_actiontype_enum store_name action) [
        | none ↦ invalid
        | some a ↦ elim (checked filtertype_enum noop_name filter) [
          | none ↦ invalid
          | some f ↦ with_data jpointer p a f given
        ]
      ]
    ]

-- The body of the loop of `exporter_validate`. After the last branch there is no `goto error`.
unfoldable pub exporter_normalise : Setting → Normalised
exporter_normalise (scalar none) = invalid
exporter_normalise (scalar (some s)) =
    normal (some s ∷ some text_name ∷ some store_name ∷ some noop_name ∷ some [] ∷ [])
exporter_normalise (array ms) =
    exports_with_members (given_string (member 0 ms)) (member 1 ms) (member 2 ms) (member 3 ms)
      (given_string (member 4 ms))
exporter_normalise (group g) =
    exports_with_members g.jpointer (looked_up g.pqtype) (looked_up g.action) (looked_up g.filter)
      g.given
exporter_normalise other =
    normal (none ∷ some text_name ∷ some store_name ∷ some noop_name ∷ some [] ∷ [])

-- The loop: the first element is normalised at the end of the list, and removed.
unfoldable pub exporter_validate_from : ℕ → List Setting → Validated
exporter_validate_from zero cs = valid cs
exporter_validate_from (suc n) [] = rejected
exporter_validate_from (suc n) (c ∷ cs) = elim (exporter_normalise c) [
  | invalid ↦ rejected
  | crash ↦ crashed
  | normal ms ↦ exporter_validate_from n (cs ++ (array ms ∷ []))
]

abbrev validate_pointers : Option (Option (List Setting)) → Validated
validate_pointers none = rejected
validate_pointers (some none) = rejected
validate_pointers (some (some cs)) = exporter_validate_from (length cs) cs

abbrev with_topic : Option Str → Option (Option (List Setting)) → Validated
with_topic none pointers = rejected
with_topic (some topic) pointers = validate_pointers pointers

-- `exporter_validate`, by the strings `host` and `topic` and by `jpointers`, which may be no list.
unfoldable pub exporter_validate :
    Option Str → Option Str → Option (Option (List Setting)) → Validated
unfolding validate_pointers with_topic
exporter_validate none topic pointers = rejected
exporter_validate (some host) topic pointers = with_topic topic pointers

-- The body of the loop of `_needles`, with the number of each JSON pointer an argument; `none` is an
-- abort, a string function on NULL, or a needle without a format, an action or a filter.
unfoldable pub exports_needle_of : (Str → ℕ) → Setting → Option Needle
exports_needle_of pointer (array ms) = do
  j ← given_string (member 0 ms)
  p ← given_string (member 1 ms) >>= pqtype_enum
  a ← given_string (member 2 ms) >>= exports_actiontype_enum
  f ← given_string (member 3 ms)
  filter ← filter_of (filtertype_enum f) (given_string (member 4 ms))
  some (record { jpointer = pointer j; pqtype = p; filter = filter; action = a })
exports_needle_of pointer (scalar s) = none
exports_needle_of pointer (group g) = none
exports_needle_of pointer other = none

-- `_needles`.
unfoldable pub exports_needles : (Str → ℕ) → List Setting → Option (List Needle)
exports_needles pointer [] = some []
exports_needles pointer (c ∷ cs) = do
  n ← exports_needle_of pointer c
  ns ← exports_needles pointer cs
  some (n ∷ ns)
