-- ===== src/JsonExport/Config/Load.antt =====
-- Validating the configuration of src/hooks/jsonexport.c and then reading it is reading the settings
-- themselves, with their defaults.
use mathlib.Core.Path.{subst}
use mathlib.Core.List.{append_assoc, append-nil}
use schaufel.Common.{
  ℕ, ◌≡◌, refl, sym, ap, ◌∙◌, Option, none, some, List, [], ◌∷◌, ◌++◌, length, ◌>>=◌, All, ◌⊎◌, inl,
  inr,
}
use schaufel.JsonExport.{Needle}
use schaufel.JsonExport.Config.{
  Str, Setting, array, rejected, valid, validate_from, h_jsonexport_validate, needles,
}
use schaufel.JsonExport.Config.Meant.{read_setting, HasStrings, setting-Loads}

abbrev pub read_all : (Str → ℕ) → List Setting → Option (List Needle)
read_all pointer [] = some []
read_all pointer (c ∷ cs) = do n ← read_setting pointer c; ns ← read_all pointer cs; some (n ∷ ns)

-- The loop over the settings `cs`, with those that are done, `ds`, after them.
loop-loads :
    (pointer : Str → ℕ) (cs ds : List Setting)
    → All HasStrings cs
    → ((validate_from (length cs) (cs ++ ds) ≡ rejected) × (read_all pointer cs ≡ none))
      ⊎ ((xs : List Setting) × (ns : List Needle) × (validate_from (length cs) (cs ++ ds)
            ≡ valid (ds ++ xs))
          × (needles pointer xs ≡ some ns)
          × (read_all pointer cs ≡ some ns))
unfolding validate_from needles
loop-loads pointer [] ds h = inr ([], [], ap valid (sym (append-nil ds)), refl, refl)
loop-loads pointer (c ∷ cs) ds h = elim (setting-Loads pointer c h.0) [
  | inl (r, n) ↦ inl (rw (validate_from, r) refl, rw n refl)
  | inr (ms, m, r, here, n) ↦
      let step : validate_from (length (c ∷ cs)) ((c ∷ cs) ++ ds)
          ≡ validate_from (length cs) (cs ++ (ds ++ (array ms ∷ []))) =
        rw (validate_from, r)
          (ap (validate_from (length cs)) (append_assoc cs ds (array ms ∷ []))) in
      elim (loop-loads pointer cs (ds ++ (array ms ∷ [])) h.1) [
        | inl (run, rest) ↦ inl (step ∙ run, rw (n, rest) refl)
        | inr (xs, ns, run, later, rest) ↦ inr (
          array ms ∷ xs,
          m ∷ ns,
          step ∙ (run ∙ ap valid (append_assoc ds (array ms ∷ []) xs)),
          rw (here, later) refl,
          rw (n, rest) refl,
        )
      ]
]

-- For settings whose arrays hold strings only, and without a list among them: either the validation
-- rejects them, and one of them names no pointer, a type, an action or a filter that does not exist,
-- or a filter without the data that it needs; or it leaves a configuration from which `_needles`
-- gets a needle for each setting, in order, with no function missing: with the pointer that the
-- setting names, its type or text, its action or store, and its filter or noop.
pub validate-needles :
    (pointer : Str → ℕ) (cs : List Setting)
    → All HasStrings cs
    → ((h_jsonexport_validate (some (some cs)) ≡ rejected) × (read_all pointer cs ≡ none))
      ⊎ ((xs : List Setting) × (ns : List Needle) × (h_jsonexport_validate (some (some cs))
            ≡ valid xs)
          × (needles pointer xs ≡ some ns)
          × (read_all pointer cs ≡ some ns))
unfolding h_jsonexport_validate
validate-needles pointer cs h =
    subst
      (λ l.
        ((validate_from (length cs) l ≡ rejected) × (read_all pointer cs ≡ none))
        ⊎ ((xs : List Setting) × (ns : List Needle) × (validate_from (length cs) l ≡ valid xs)
            × (needles pointer xs ≡ some ns)
            × (read_all pointer cs ≡ some ns)))
      (append-nil cs) (loop-loads pointer cs [] h)
