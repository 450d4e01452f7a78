-- ===== src/Hashing/Tests.antt =====
-- Runs of src/utils/fnv.c and src/hooks/xmark.c on concrete names and metadata.
use mathlib.Core.Path.{subst}
use schaufel.Common.{
  ℕ, ◌^◌, ◌<◌, ◌≡◌, ◌≢◌, ap, some_eq, arith, refl, true, Option, none, some, List, [], ◌∷◌,
  if◌then◌else◌,
}
use schaufel.Message.{message_zero}
use schaufel.JsonExport.{same_string}
use schaufel.Hashing.{
  fnv32a, fnv32a_str, fnv32a_int, fold_to, fold_name, Fold, fold_noop, folds, run_hash, fnv_init,
  fold_init, Settings, h_xmark_init, MDatum, marked_with, h_xmark,
}
use schaufel.Hashing.Range.{IsReadable, Marks, h_xmark_lem}

-- "a", whose published FNV-1a hash is 0xe40c292c
hash_of_a : run_hash fnv32a_str (97 ∷ 0 ∷ []) 1 ≡ some 0xe40c292c
unfolding fnv32a
hash_of_a = refl

-- "fold32" is no fold.
no_fold : fold_init (fold_name 32) ≡ none
unfolding fold_init
no_fold = refl

-- As in doc/hooks.conf, with the name of the field shortened: "fnv32a_str" and "fold1".
abbrev settings : Settings
settings = record {
  mark = 1;
  hashed = some (106 ∷ [], 102 ∷ 110 ∷ 118 ∷ 51 ∷ 50 ∷ 97 ∷ 95 ∷ 115 ∷ 116 ∷ 114 ∷ []);
  fold = some (fold_name 1);
}

abbrev find : List ℕ → Option MDatum
find key =
    if same_string key (106 ∷ [])
    then some (record { is_string = true; bytes = 97 ∷ 0 ∷ []; len = 2 })
    else none

abbrev datum : MDatum
datum = record { is_string = true; bytes = 97 ∷ 0 ∷ []; len = 2 }

datum-IsReadable :
    (d : MDatum) → find (106 ∷ []) ≡ some d → d.is_string ≡ true → IsReadable fnv32a_str d
datum-IsReadable d e y =
    let same : datum ≡ d = some_eq e in
    subst (IsReadable fnv32a_str) same (omega arith, omega arith)

other_fold : folds 1 ≢ folds 31
other_fold h = cc (ap bits h)
  where
    bits : Fold → ℕ
    bits fold_noop = 0
    bits (folds n) = n

h_xmark_example :
    (x : ℕ) × (h_xmark (h_xmark_init settings) find message_zero
      ≡ some (marked_with message_zero x))
    × (x < 2 ^ 32)
    × Marks settings fnv32a_str (folds 1) (some datum) x
unfolding fnv_init fold_init
h_xmark_example =
    h_xmark_lem settings (106 ∷ []) (102 ∷ 110 ∷ 118 ∷ 51 ∷ 50 ∷ 97 ∷ 95 ∷ 115 ∷ 116 ∷ 114 ∷ [])
      fnv32a_str (folds 1) find message_zero refl refl refl other_fold datum-IsReadable

-- A hash of an int reads past a datum of two bytes.
short : run_hash fnv32a_int (97 ∷ 0 ∷ []) 1 ≡ none
short = refl

marked : h_xmark (h_xmark_init settings) find message_zero ≡ some (marked_with message_zero 1)
unfolding h_xmark h_xmark_init fnv_init fold_init fnv32a fold_to
marked = refl
