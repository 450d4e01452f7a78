-- ===== src/JsonExport/Tests.antt =====
-- Runs of src/hooks/jsonexport.c on concrete messages.
use schaufel.Common.{ℕ, ◌≡◌, refl, true, some, List, [], ◌∷◌, ◌==◌, if◌then◌else◌}
use schaufel.JsonExport.{
  Found, missing, null, value, Needle, text, noop, exists, equals, store, store_true, store_meta,
  discard_false, refuses, crashes, deref, format, run_filter, run_action, h_jsonexport,
}

-- "ab" at pointer 1, "x" at pointer 2, nothing elsewhere
abbrev document : ℕ → Found
document n = if n == 1 then value (97 ∷ 98 ∷ []) else if n == 2 then value (120 ∷ []) else missing

-- Keep the message if pointer 2 is "x"; store pointer 1, also as metadata, and pointer 3.
abbrev needles : List Needle
needles =
    record { jpointer = 2; pqtype = text; filter = equals (120 ∷ []); action = discard_false }
    ∷ record { jpointer = 1; pqtype = text; filter = noop; action = store_meta }
    ∷ record { jpointer = 3; pqtype = text; filter = noop; action = store }
    ∷ []

-- The first needle finds another value: the message is dropped.
dropped_message :
    h_jsonexport true (some (λ n. value (121 ∷ []))) needles (123 ∷ 125 ∷ 0 ∷ []) 2 ≡ refuses
unfolding h_jsonexport deref format run_filter run_action
dropped_message = refl

-- A pointer to null exists, but its text is read from NULL.
null_value :
    h_jsonexport true
      (some (λ n. null))
      (record { jpointer = 1; pqtype = text; filter = exists; action = store_true } ∷ [])
      (123 ∷ 125 ∷ 0 ∷ [])
      2
    ≡ crashes
unfolding h_jsonexport deref run_filter run_action
null_value = refl
