-- ===== src/Exports/Config/Tests.antt =====
-- The settings of src/exports.c, on one pointer.
use schaufel.Common.{◌≡◌, refl, some, List, [], ◌∷◌, ◌⊎◌, codes}
use schaufel.JsonExport.Config
use schaufel.JsonExport.Config.{
  Str, Setting, scalar, array, rejected, crashed, valid, h_jsonexport_validate,
}
use schaufel.Exports.Config.{
  exporter_validate, exporter_validate_from, exporter_normalise, exports_actiontype_enum,
  exports_needles,
}
use schaufel.Exports.Config.Same.{exporter_validate_lem}

-- The pointer "/a", stored under the condition that it exists.
abbrev one : List Setting
one =
    array (
      some (codes "/a")
      ∷ some (codes "text")
      ∷ some (codes "store_true")
      ∷ some (codes "exists")
      ∷ [])
    ∷ []

exporter_validate_example :
    (exporter_validate (some (codes "h")) (some (codes "t")) (some (some one))
      ≡ h_jsonexport_validate (some (some one)))
    × ((exporter_validate (some (codes "h")) (some (codes "t")) (some (some one)) ≡ rejected)
        ⊎ (exporter_validate (some (codes "h")) (some (codes "t")) (some (some one)) ≡ crashed)
        ⊎ ((ds : List Setting) × (exporter_validate
                (some (codes "h"))
                (some (codes "t"))
                (some (some one))
              ≡ valid ds)
            × (exports_needles (λ s. 0) ds ≡ Config.needles (λ s. 0) ds)))
exporter_validate_example = exporter_validate_lem (λ s. 0) (codes "h") (codes "t") one (refl, tt)

-- "store_meta" is refused.
no_store_meta :
    exporter_validate (some (codes "h")) (some (codes "t")) (
      some (
        some
          (array (some (codes "/a") ∷ some (codes "text") ∷ some (codes "store_meta") ∷ []) ∷ [])))
    ≡ rejected
unfolding exporter_validate exporter_validate_from exporter_normalise exports_actiontype_enum
    Config.pqtype_enum
no_store_meta = refl
