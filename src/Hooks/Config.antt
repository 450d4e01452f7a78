-- ===== src/Hooks/Config.antt =====
-- The configuration of hook points: `_find_hook`, `hooks_validate` and `hooks_add` of src/hooks.c, and
-- `queue_validate` of src/queue.c. What the hooks do with their own settings is an argument.
pub mod Ready
mod Tests
use schaufel.Common.{
  ℕ, Bool, true, false, ◌&&◌, Option, none, some, List, [], ◌∷◌, ◌++◌, if◌then◌else◌, ◌>>=◌,
}
use schaufel.JsonExport.{same_string}

-- `struct hptr`, for settings `C` and hooks `H`: the name, the validator, which may change the
-- settings, and the initialisation; `none` is an abort there, or a hook that cannot run.
pub record Kind (C H : Type 0) : Type 0 where
  pub name : List ℕ
  pub validate : C → Bool × C
  pub init : C → Option H

-- An element of a list of hooks: its member `type`, which may be missing or no string, and the rest.
pub record Entry (C : Type 0) : Type 0 where
  pub type_name : Option (Option (List ℕ))
  pub body : C

-- `_find_hook`.
unfoldable pub find_hook : {C H : Type 0} → List (Kind C H) → List ℕ → Option (Kind C H)
find_hook [] name = none
find_hook (k ∷ ks) name =
    let rest = find_hook ks name in if same_string name k.name then some k else rest

-- `hooks_register`: "dummy", "xmark" and "jsonexport".
abbrev pub hooks_register : {C H : Type 0} → Kind C H → Kind C H → Kind C H → List (Kind C H)
hooks_register dummy xmark jsonexport =
    (record dummy { name = 100 ∷ 117 ∷ 109 ∷ 109 ∷ 121 ∷ [] })
    ∷ (record xmark { name = 120 ∷ 109 ∷ 97 ∷ 114 ∷ 107 ∷ [] })
    ∷ (record jsonexport { name = 106 ∷ 115 ∷ 111 ∷ 110 ∷ 101 ∷ 120 ∷ 112 ∷ 111 ∷ 114 ∷ 116 ∷ [] })
    ∷ []

-- The hook that an element names; `none` where `type` is missing, no string, or unknown.
abbrev pub kind_of : {C H : Type 0} → List (Kind C H) → Entry C → Option (Kind C H)
kind_of kinds e = do type ← e.type_name; name ← type; find_hook kinds name

abbrev pub validate_kind : {C H : Type 0} → Entry C → Option (Kind C H) → Bool × Entry C
validate_kind e none = (false, e)
validate_kind e (some k) = let r = k.validate e.body in (r.0, record e { body = r.1 })

-- The loop of `hooks_validate`, which goes on after an element that fails: the verdict, and the
-- settings afterwards.
unfoldable pub validate_list :
    {C H : Type 0} → List (Kind C H) → List (Entry C) → Bool × List (Entry C)
validate_list kinds [] = (true, [])
validate_list kinds (e ∷ es) =
    let r = validate_kind e (kind_of kinds e) in
    let rest = validate_list kinds es in (r.0 && rest.0, r.1 ∷ rest.1)

-- A member of a group, as a list of hooks: it may be missing, or something else than a list.
abbrev pub Member : Type 0 → Type 0
Member C = Option (Option (List (Entry C)))

-- `hooks_validate`, of a member that `queue_validate` puts in place where it is missing.
unfoldable pub hooks_validate : {C H : Type 0} → List (Kind C H) → Member C → Bool × List (Entry C)
hooks_validate kinds none = validate_list kinds []
hooks_validate kinds (some none) = (false, [])
hooks_validate kinds (some (some es)) = validate_list kinds es

-- `hooks_add`; `none` is an abort, or an access through NULL.
unfoldable pub hooks_add :
    {C H : Type 0} → List (Kind C H) → List H → List (Entry C) → Option (List H)
hooks_add kinds hs [] = some hs
hooks_add kinds hs (e ∷ es) = elim (kind_of kinds e) [
  | none ↦ none
  | some k ↦ elim (k.init e.body) [ none ↦ none | some h ↦ hooks_add kinds (hs ++ (h ∷ [])) es ]
]

-- The settings of a queue: they may be missing or no group; else the members `postadd` and `preget`.
pub record QueueConfig (C : Type 0) : Type 0 where
  pub postadd : Member C
  pub preget : Member C

-- `queue_validate`: the verdict, and both lists afterwards.
unfoldable pub queue_validate :
    {C H : Type 0}
    → List (Kind C H)
    → Option (QueueConfig C)
    → Bool × List (Entry C) × List (Entry C)
queue_validate kinds none = (false, [], [])
queue_validate kinds (some c) =
    let postadd = hooks_validate kinds c.postadd in
    let preget = hooks_validate kinds c.preget in (postadd.0 && preget.0, postadd.1, preget.1)
