-- ===== src/Exports/Tests.antt =====
-- Runs of src/exports.c on concrete dates.
use schaufel.Common.{
  ℕ, All, ◌≡◌, ◌⊎◌, refl, true, false, none, some, List, [], ◌∷◌, ◌++◌, length, ◌==◌, if◌then◌else◌,
}
use schaufel.JsonExport.{
  Found, missing, value, metadata_of, Needle, text, noop, equals, store, discard_false, deref,
  format, run_filter, run_action, h_jsonexport,
}
use schaufel.Postgres.{Meta, aborted, sent, produce}
use schaufel.Postgres.Runs.{meta_init}
use schaufel.Exports.Produce.{exports_produce}
use schaufel.Exports.Produce.Alike.{Alike}
use schaufel.Exports.Produce.Same.{NoLeapSecond, exports_produce_lem}

-- "ab" at pointer 1, "x" at pointer 2, nothing elsewhere
abbrev document : ℕ → Found
document n = if n == 1 then value (97 ∷ 98 ∷ []) else if n == 2 then value (120 ∷ []) else missing

-- Keep the message if pointer 2 is "x"; store pointers 1 and 3.
abbrev needles : List Needle
needles =
    record { jpointer = 2; pqtype = text; filter = equals (120 ∷ []); action = discard_false }
    ∷ record { jpointer = 1; pqtype = text; filter = noop; action = store }
    ∷ record { jpointer = 3; pqtype = text; filter = noop; action = store }
    ∷ []

abbrev row : List ℕ
row = 0 ∷ 2 ∷ 0 ∷ 0 ∷ 0 ∷ 2 ∷ 97 ∷ 98 ∷ 255 ∷ 255 ∷ 255 ∷ 255 ∷ []

start-Alike : Alike (meta_init true false) (meta_init true false)
start-Alike = record {
  binary = refl;
  alone = (refl, refl);
  binary_too = refl;
  count = refl;
  copy = refl;
  iter = refl;
  master = refl;
}

-- They are all texts.
needles-NoLeapSecond : All (NoLeapSecond document) needles
needles-NoLeapSecond = (λ t s e. cc, (λ t s e. cc, (λ t s e. cc, tt)))

exports_produce_example :
    let e =
      exports_produce true true
        (some document)
        needles
        (meta_init true false)
        (123 ∷ 125 ∷ 0 ∷ [])
        2 in
    let p = produce (λ s. none) true (meta_init true false) (row ++ (0 ∷ [])) (length row) in
    ((e ≡ some aborted) × (p ≡ aborted))
    ⊎ ((m' : Meta) × (n' : Meta) × (e ≡ some (sent m')) × (p ≡ sent n') × Alike m' n')
unfolding h_jsonexport deref format run_filter run_action metadata_of
exports_produce_example =
    exports_produce_lem true true document (λ s. none) needles (meta_init true false)
      (meta_init true false) (123 ∷ 125 ∷ 0 ∷ []) row 2 [] start-Alike needles-NoLeapSecond refl
