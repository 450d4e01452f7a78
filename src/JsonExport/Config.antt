-- ===== src/JsonExport/Config.antt =====
-- The configuration of src/hooks/jsonexport.c: `h_jsonexport_validate` replaces each setting of the
-- list by an array of five strings, and `_needles` reads those arrays. The configuration library is
-- seen through its results: an element, a string, or NULL.
pub mod Meant
pub mod Load
mod Tests
use schaufel.Common.{
  ℕ, zero, suc, Bool, true, false, Option, none, some, List, [], ◌∷◌, ◌++◌, length, if◌then◌else◌,
  ◌>>=◌,
}
use schaufel.JsonExport.{
  PqType, text, timestamp, Filter, noop, exists, equals, substr, Action, store, store_true,
  discard_false, discard_true, store_meta, Needle,
}
use schaufel.Hashing.{find_type}

abbrev pub Str : Type 0
Str = List ℕ

-- A group, by the members that are looked up as strings.
pub record Group : Type 0 where
  pub jpointer : Option Str
  pub pqtype : Option Str
  pub action : Option Str
  pub filter : Option Str
  pub given : Option Str

-- An element of `jpointers`. A string is `none` where the scalar is not one; `other` is a list.
pub data Setting : Type 0 where
  scalar : Option Str → Setting
  array : List (Option Str) → Setting
  group : Group → Setting
  other : Setting

-- "text" and "timestamp".
abbrev pub text_name : Str
text_name = 116 ∷ 101 ∷ 120 ∷ 116 ∷ []

abbrev pub pq_types : List (Str × PqType)
pq_types =
    (text_name, text) ∷ (116 ∷ 105 ∷ 109 ∷ 101 ∷ 115 ∷ 116 ∷ 97 ∷ 109 ∷ 112 ∷ [], timestamp) ∷ []

-- "store", "store_true", "discard_false", "discard_true" and "store_meta".
abbrev pub store_name : Str
store_name = 115 ∷ 116 ∷ 111 ∷ 114 ∷ 101 ∷ []

abbrev pub action_types : List (Str × Action)
action_types =
    (store_name, store)
    ∷ (store_name ++ (95 ∷ 116 ∷ 114 ∷ 117 ∷ 101 ∷ []), store_true)
    ∷ (100 ∷ 105 ∷ 115 ∷ 99 ∷ 97 ∷ 114 ∷ 100 ∷ 95 ∷ 102 ∷ 97 ∷ 108 ∷ 115 ∷ 101 ∷ [], discard_false)
    ∷ (100 ∷ 105 ∷ 115 ∷ 99 ∷ 97 ∷ 114 ∷ 100 ∷ 95 ∷ 116 ∷ 114 ∷ 117 ∷ 101 ∷ [], discard_true)
    ∷ (store_name ++ (95 ∷ 109 ∷ 101 ∷ 116 ∷ 97 ∷ []), store_meta)
    ∷ []

pub data FilterType : Type 0 where
  filter_noop filter_match filter_substr filter_exists : FilterType

abbrev pub needs_data : FilterType → Bool
needs_data filter_noop = false
needs_data filter_match = true
needs_data filter_substr = true
needs_data filter_exists = false

-- "noop", "match", "substr" and "exists".
abbrev pub noop_name : Str
noop_name = 110 ∷ 111 ∷ 111 ∷ 112 ∷ []

abbrev pub filter_types : List (Str × FilterType)
filter_types =
    (noop_name, filter_noop)
    ∷ (109 ∷ 97 ∷ 116 ∷ 99 ∷ 104 ∷ [], filter_match)
    ∷ (115 ∷ 117 ∷ 98 ∷ 115 ∷ 116 ∷ 114 ∷ [], filter_substr)
    ∷ (101 ∷ 120 ∷ 105 ∷ 115 ∷ 116 ∷ 115 ∷ [], filter_exists)
    ∷ []

-- `_pqtype_enum`, `_actiontype_enum` and `_filtertype_enum`: an undefined type is `none`.
unfoldable pub pqtype_enum : Str → Option PqType
pqtype_enum s = find_type s pq_types

unfoldable pub actiontype_enum : Str → Option Action
actiontype_enum s = find_type s action_types

unfoldable pub filtertype_enum : Str → Option FilterType
filtertype_enum s = find_type s filter_types

-- `config_setting_get_elem`, and the string of the element, if it is one.
abbrev pub member : ℕ → List (Option Str) → Option (Option Str)
member i [] = none
member zero (m ∷ ms) = some m
member (suc i) (m ∷ ms) = member i ms

-- What becomes of a setting: the message and `goto error`, strcmp of NULL, or the five strings.
pub data Normalised : Type 0 where
  invalid crash : Normalised
  normal : List (Option Str) → Normalised

-- A member with a default: `none` is an error. A member that is no string gives NULL.
abbrev pub checked {ℓ} :
    {A : Type ℓ} → (Str → Option A) → Str → Option (Option Str) → Option (Option Str)
checked enum default none = some (some default)
checked enum default (some none) = some none
checked enum default (some (some s)) = elim (enum s) [ none ↦ none | some t ↦ some (some s) ]

abbrev pub type_needs_data : Option FilterType → Bool
type_needs_data none = false
type_needs_data (some t) = needs_data t

-- `if (filter_types[_filtertype_enum(filter)].needs_data)`, and the five strings.
abbrev pub with_data : Str → Option Str → Option Str → Option Str → Option Str → Normalised
with_data jpointer pqtype action none given = crash
with_data jpointer pqtype action (some filter) given =
    if type_needs_data (filtertype_enum filter)
    then elim given [
      | none ↦ invalid
      | some d ↦ normal (some jpointer ∷ pqtype ∷ action ∷ some filter ∷ some d ∷ [])
    ]
    else normal (some jpointer ∷ pqtype ∷ action ∷ some filter ∷ some [] ∷ [])

abbrev pub given_string : Option (Option Str) → Option Str
given_string none = none
given_string (some s) = s

-- The members of an array or of a group: the pointer, and the four that have a default.
abbrev pub with_members :
    Option Str
    → Option (Option Str)
    → Option (Option Str)
    → Option (Option Str)
    → Option Str
    → Normalised
with_members none pqtype action filter given = invalid
with_members (some jpointer) pqtype action filter given =
    elim (checked pqtype_enum text_name pqtype) [
      | none ↦ invalid
      | some p ↦ elim (checked actiontype_enum store_name action) [
        | none ↦ invalid
        | some a ↦ elim (checked filtertype_enum noop_name filter) [
          | none ↦ invalid
          | some f ↦ with_data jpointer p a f given
        ]
      ]
    ]

abbrev pub looked_up : Option Str → Option (Option Str)
looked_up none = none
looked_up (some s) = some (some s)

-- The body of the loop of `h_jsonexport_validate`. After the last branch there is no `goto error`.
unfoldable pub normalise : Setting → Normalised
normalise (scalar none) = invalid
normalise (scalar (some s)) =
    normal (some s ∷ some text_name ∷ some store_name ∷ some noop_name ∷ some [] ∷ [])
normalise (array ms) =
    with_members (given_string (member 0 ms)) (member 1 ms) (member 2 ms) (member 3 ms)
      (given_string (member 4 ms))
normalise (group g) =
    with_members g.jpointer (looked_up g.pqtype) (looked_up g.action) (looked_up g.filter) g.given
normalise other = normal (none ∷ some text_name ∷ some store_name ∷ some noop_name ∷ some [] ∷ [])

-- The list afterwards, or how the validation ends.
pub data Validated : Type 0 where
  rejected crashed : Validated
  valid : List Setting → Validated

-- The loop: the first element is normalised at the end of the list, and removed.
unfoldable pub validate_from : ℕ → List Setting → Validated
validate_from zero cs = valid cs
validate_from (suc n) [] = rejected
validate_from (suc n) (c ∷ cs) = elim (normalise c) [
  | invalid ↦ rejected
  | crash ↦ crashed
  | normal ms ↦ validate_from n (cs ++ (array ms ∷ []))
]

-- `h_jsonexport_validate`: there may be no member `jpointers`, or one that is not a list.
unfoldable pub h_jsonexport_validate : Option (Option (List Setting)) → Validated
h_jsonexport_validate none = rejected
h_jsonexport_validate (some none) = rejected
h_jsonexport_validate (some (some cs)) = validate_from (length cs) cs

-- The filter of a needle, with its data; `none` is a NULL function or NULL data.
abbrev pub filter_of : Option FilterType → Option Str → Option Filter
filter_of none d = none
filter_of (some filter_noop) d = some noop
filter_of (some filter_exists) d = some exists
filter_of (some filter_match) d = d >>= λ s. some (equals s)
filter_of (some filter_substr) d = d >>= λ s. some (substr s)

-- The body of the loop of `_needles`, with the number of each JSON pointer an argument: `none` is an
-- abort, a string function on NULL, or a needle whose format, action or filter is NULL.
unfoldable pub needle_of : (Str → ℕ) → Setting → Option Needle
needle_of pointer (array ms) = do
  j ← given_string (member 0 ms)
  p ← given_string (member 1 ms) >>= pqtype_enum
  a ← given_string (member 2 ms) >>= actiontype_enum
  f ← given_string (member 3 ms)
  filter ← filter_of (filtertype_enum f) (given_string (member 4 ms))
  some (record { jpointer = pointer j; pqtype = p; filter = filter; action = a })
needle_of pointer (scalar s) = none
needle_of pointer (group g) = none
needle_of pointer other = none

-- `_needles`.
unfoldable pub needles : (Str → ℕ) → List Setting → Option (List Needle)
needles pointer [] = some []
needles pointer (c ∷ cs) = do n ← needle_of pointer c; ns ← needles pointer cs; some (n ∷ ns)
