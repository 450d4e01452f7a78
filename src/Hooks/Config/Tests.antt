-- ===== src/Hooks/Config/Tests.antt =====
-- A queue configuration with the hooks of src/hooks/jsonexport.c and src/hooks/xmark.c.
use schaufel.Common.{
  ℕ, ◌≡◌, refl, Bool, true, false, Option, none, some, List, [], ◌∷◌, ◌++◌, length, codes,
}
use schaufel.JsonExport.{Needle}
use schaufel.JsonExport.Config.{
  Str, Setting, scalar, rejected, crashed, valid, Validated, h_jsonexport_validate, validate_from,
  normalise, needles, needle_of, pqtype_enum, actiontype_enum, filtertype_enum,
}
use schaufel.Hashing.{Settings, Internal, h_xmark_init}
use schaufel.Hooks.Config.{
  Kind, hooks_register, validate_list, hooks_validate, hooks_add, find_hook, QueueConfig,
  queue_validate,
}
use schaufel.Hooks.Config.Ready.{IsSoundQueue, hooks_of, queue_validate-hooks_add}

-- The settings of a hook, and what its initialisation makes of them.
data Given : Type 0 where
  nothing : Given
  pointers : Option (Option (List Setting)) → Given
  mark : Settings → Given

data Hook : Type 0 where
  dummy_hook : Hook
  export_hook : List Needle → Hook
  xmark_hook : Internal → Hook

abbrev pointer : Str → ℕ
pointer s = length s

abbrev validated : Given → Validated → Bool × Given
validated c rejected = (false, c)
validated c crashed = (false, c)
validated c (valid xs) = (true, pointers (some (some xs)))

abbrev needles_hook : Option (List Needle) → Option Hook
needles_hook none = none
needles_hook (some ns) = some (export_hook ns)

abbrev export_validate : Given → Bool × Given
export_validate nothing = (false, nothing)
export_validate (pointers p) = validated (pointers p) (h_jsonexport_validate p)
export_validate (mark s) = (false, mark s)

abbrev export_init : Given → Option Hook
export_init nothing = none
export_init (mark s) = none
export_init (pointers none) = none
export_init (pointers (some none)) = none
export_init (pointers (some (some xs))) = needles_hook (needles pointer xs)

abbrev xmark_init : Given → Option Hook
xmark_init nothing = none
xmark_init (pointers p) = none
xmark_init (mark s) = some (xmark_hook (h_xmark_init s))

abbrev dummy : Kind Given Hook
dummy = record { name = []; validate = λ c. (true, c); init = λ c. some dummy_hook }

abbrev xmark : Kind Given Hook
xmark = record { name = []; validate = λ c. (true, c); init = xmark_init }

abbrev jsonexport : Kind Given Hook
jsonexport = record { name = []; validate = export_validate; init = export_init }

abbrev kinds : List (Kind Given Hook)
kinds = hooks_register dummy xmark jsonexport

abbrev settings : Settings
settings = record { mark = 1; hashed = none; fold = none }

-- An xmark before the messages are queued, and the pointer "/token" after that.
abbrev config : QueueConfig Given
config = record {
  postadd =
      some (some (record { type_name = some (some (codes "xmark")); body = mark settings } ∷ []));
  preget = some (
      some (
        record {
          type_name = some (some (codes "jsonexport"));
          body = pointers (some (some (scalar (some (codes "/token")) ∷ [])));
        }
        ∷ []));
}

config-IsSoundQueue : IsSoundQueue kinds (some config)
unfolding find_hook h_jsonexport_validate validate_from normalise needles needle_of pqtype_enum
    actiontype_enum filtertype_enum
config-IsSoundQueue = ((λ v. (_, refl), tt), (λ v. (_, refl), tt))

accepted : (queue_validate kinds (some config)).0 ≡ true
unfolding queue_validate hooks_validate validate_list find_hook h_jsonexport_validate validate_from
    normalise
accepted = refl

queue_validate-hooks_add_example :
    let r = queue_validate kinds (some config) in
    (hs : List Hook) × (ks : List Hook) × (hooks_of kinds r.1 ≡ some hs)
    × (hooks_of kinds r.2 ≡ some ks)
    × (hooks_add kinds [] r.1 ≡ some hs)
    × (hooks_add kinds hs r.2 ≡ some (hs ++ ks))
queue_validate-hooks_add_example =
    queue_validate-hooks_add kinds (some config) config-IsSoundQueue accepted
