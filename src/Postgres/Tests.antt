-- ===== src/Postgres/Tests.antt =====
-- Runs of src/postgres.c on concrete messages.
use mathlib.Core.Path.{subst}
use schaufel.Common.{ℕ, ◌<◌, ◌≡◌, refl, true, false, Option, some, List, [], ◌∷◌, ◌++◌, arith}
use schaufel.Helper.{
  sanitize_utf8, sanitize_from, repair_from, repair_null_escape, seq_len, is_continuation,
}
use schaufel.Postgres.{
  Meta, copy_in, copy_data, begin_copy, put_rows, produce, finish, unquote, binheader,
}
use schaufel.Postgres.Batches.{protocol, IsValid}
use schaufel.Postgres.Runs.{
  Call, message, tick, run_calls, meta_init, run_calls_lem, ticks, ticks_lem,
}

-- A stand-in for PQescapeLiteral where nothing needs an escape.
abbrev quoted : List ℕ → Option (List ℕ)
quoted s = some (39 ∷ (s ++ (39 ∷ [])))

-- "{}", and a message of the binary format
abbrev calls : List Call
calls = message (123 ∷ 125 ∷ 0 ∷ []) 2 ∷ tick ∷ []

some_list_eq : {a b : List ℕ} → some a ≡ some b → a ≡ b
some_list_eq h = cc

quoted_lem : (s lit : List ℕ) → quoted s ≡ some lit → (row : List ℕ) × (unquote lit ≡ some row)
quoted_lem s lit e = subst (λ l. (row : List ℕ) × (unquote l ≡ some row)) (some_list_eq e) (_, refl)

one_row :
    run_calls quoted (message (123 ∷ 125 ∷ 0 ∷ []) 2 ∷ []) (meta_init false false)
    ≡ some (record (meta_init false false) {
      count = 1;
      copy = true;
      master = copy_in ∷ copy_data (123 ∷ 125 ∷ []) ∷ copy_data (10 ∷ []) ∷ [];
    })
unfolding run_calls produce sanitize_utf8 sanitize_from repair_from begin_copy put_rows seq_len
    is_continuation
one_row = refl

run_calls_example :
    (m : Meta) × (run_calls quoted calls (meta_init false true) ≡ some m)
    × (m.count < 2000)
    × (protocol (finish m).master ≡ some false)
    × ((finish m).replicated ≡ true → protocol (finish m).replica ≡ some false)
run_calls_example = run_calls_lem quoted quoted_lem false true calls

-- One row of the binary format waits, on a master alone.
abbrev waiting : Meta
waiting = record (meta_init true false) {
  count = 1;
  copy = true;
  commit_iter = 3;
  master = copy_in ∷ copy_data binheader ∷ copy_data (0 ∷ 1 ∷ []) ∷ [];
}

waiting-IsValid : IsValid waiting
waiting-IsValid = record {
  linked = (refl, λ r. cc);
  filled = λ _. refl;
  batch = omega arith;
  iter = omega arith;
}

ticks_example :
    ((ticks 13 waiting).count ≡ 0)
    × (protocol (ticks 13 waiting).master ≡ some false)
    × ((ticks 13 waiting).replicated ≡ true → protocol (ticks 13 waiting).replica ≡ some false)
ticks_example = ticks_lem waiting waiting-IsValid (omega arith)

repaired_escape :
    repair_null_escape (97 ∷ 92 ∷ 117 ∷ 48 ∷ 48 ∷ 48 ∷ 48 ∷ 98 ∷ [])
    ≡ 97 ∷ 63 ∷ 63 ∷ 63 ∷ 63 ∷ 63 ∷ 63 ∷ 98 ∷ []
unfolding repair_from
repaired_escape = refl
