-- ===== src/JsonExport/Config/Tests.antt =====
-- The configuration of doc/hooks.conf, and others.
use schaufel.Common.{ℕ, ◌≡◌, ◌⊎◌, refl, none, some, List, [], ◌∷◌, length}
use schaufel.JsonExport.{Needle}
use schaufel.JsonExport.Config.{
  Str, Setting, scalar, array, other, text_name, normalise, invalid, rejected, valid, needles,
  pqtype_enum, actiontype_enum, filtertype_enum, needle_of, h_jsonexport_validate, validate_from,
}
use schaufel.JsonExport.Config.Load.{read_all, validate-needles}

abbrev store_meta_name : Str
store_meta_name = 115 ∷ 116 ∷ 111 ∷ 114 ∷ 101 ∷ 95 ∷ 109 ∷ 101 ∷ 116 ∷ 97 ∷ []

-- [ "/token", "text", "store_meta" ] and "/context", with one letter for each pointer.
abbrev sample : List Setting
sample =
    array (some (116 ∷ []) ∷ some text_name ∷ some store_meta_name ∷ [])
    ∷ scalar (some (99 ∷ []))
    ∷ []

abbrev pointer : Str → ℕ
pointer s = length s

validate-needles_example :
    ((h_jsonexport_validate (some (some sample)) ≡ rejected) × (read_all pointer sample ≡ none))
    ⊎ ((xs : List Setting) × (ns : List Needle) × (h_jsonexport_validate (some (some sample))
          ≡ valid xs)
        × (needles pointer xs ≡ some ns)
        × (read_all pointer sample ≡ some ns))
validate-needles_example = validate-needles pointer sample ((tt, (tt, (tt, tt))), (tt, tt))

-- [ "/timestamp", "date" ] of doc/hooks.conf: there is no such type.
sample_rejected :
    normalise (array (some (116 ∷ []) ∷ some (100 ∷ 97 ∷ 116 ∷ 101 ∷ []) ∷ [])) ≡ invalid
unfolding normalise pqtype_enum
sample_rejected = refl

-- A list is let through, with no pointer, which `_needles` then fails on.
list_passes :
    (xs : List Setting) × (h_jsonexport_validate (some (some (other ∷ []))) ≡ valid xs)
    × (needles pointer xs ≡ none)
unfolding h_jsonexport_validate validate_from normalise needles needle_of
list_passes = (_, refl, refl)

-- A number in place of the type of an array is let through too.
number_passes :
    (xs : List Setting) × (h_jsonexport_validate
        (some (some (array (some (116 ∷ []) ∷ none ∷ []) ∷ [])))
      ≡ valid xs)
    × (needles pointer xs ≡ none)
unfolding h_jsonexport_validate validate_from normalise needles needle_of actiontype_enum
    filtertype_enum
number_passes = (_, refl, refl)
