-- ===== src/Hashing.antt =====
-- src/utils/fnv.c and src/hooks/xmark.c: the xmark of a message from a hash of one of its metadata.
-- The metadata table is an argument: what it has for a name.
pub mod Range
mod Tests
use Prim.Native.Nat.{bit_and, bit_xor}
use schaufel.Common.{
  ℕ, zero, suc, ◌+◌, ◌-◌, ◌*◌, ◌/◌, ◌%◌, ◌^◌, Bool, true, false, not, Option, none, some, List, [],
  ◌∷◌, ◌++◌, map, length, take, ltb, if◌then◌else◌, ◌>>=◌,
}
use schaufel.Message.{Message}
use schaufel.Hooks.{Ran}
use schaufel.JsonExport.{same_string}

-- `_fnv32a`, of bytes.
unfoldable pub fnv32a : List ℕ → ℕ → ℕ
fnv32a [] hval = hval
fnv32a (b ∷ bs) hval = fnv32a bs (bit_xor hval b * 0x01000193 % 2 ^ 32)

-- `fnv_types`: the hashes that have a function.
pub data Hash : Type 0 where
  fnv32a_str fnv32a_int : Hash

-- `len` bytes at `buf`; `none` is a read past its end.
abbrev pub read_bytes : ℕ → List ℕ → Option (List ℕ)
read_bytes len buf = if ltb (length buf) len then none else some (take len buf)

abbrev pub hash_bytes : Option (List ℕ) → Option ℕ
hash_bytes none = none
hash_bytes (some bs) = some (fnv32a bs 0x811c9dc5)

-- The hash of `len` bytes at `buf`; the one for an int reads four bytes whatever the length.
abbrev pub run_hash : Hash → List ℕ → ℕ → Option ℕ
run_hash fnv32a_str buf len = hash_bytes (read_bytes len buf)
run_hash fnv32a_int buf len = hash_bytes (read_bytes 4 buf)

-- `_fold`. The shift of an int by 31 overflows: `none`.
unfoldable pub fold_to : ℕ → ℕ → Option ℕ
fold_to fold hval =
    let mask = 2 ^ fold - 1 in
    if ltb fold 31 then some (bit_xor (hval / 2 ^ (32 - fold)) (bit_and hval mask)) else none

-- `fold_types`: the folds that have a function, with the number of bits.
pub data Fold : Type 0 where
  fold_noop : Fold
  folds : ℕ → Fold

abbrev pub run_fold : Fold → ℕ → Option ℕ
run_fold fold_noop hval = some hval
run_fold (folds n) hval = fold_to n hval

-- "fnv32a_str" and "fnv32a_int".
abbrev pub fnv_types : List (List ℕ × Hash)
fnv_types =
    (102 ∷ 110 ∷ 118 ∷ 51 ∷ 50 ∷ 97 ∷ 95 ∷ 115 ∷ 116 ∷ 114 ∷ [], fnv32a_str)
    ∷ (102 ∷ 110 ∷ 118 ∷ 51 ∷ 50 ∷ 97 ∷ 95 ∷ 105 ∷ 110 ∷ 116 ∷ [], fnv32a_int)
    ∷ []

-- "fold" and a number of at most two digits.
abbrev pub fold_name : ℕ → List ℕ
fold_name n =
    102 ∷ 111 ∷ 108 ∷ 100 ∷ (if ltb n 10 then (48 + n) ∷ [] else (48 + n / 10) ∷ (48 + n % 10) ∷ [])

-- "fold31" to "fold1", from the `n`th on.
abbrev pub fold_rows : ℕ → List (List ℕ × Fold)
fold_rows zero = []
fold_rows (suc n) = (fold_name (suc n), folds (suc n)) ∷ fold_rows n

-- After "fold_noop".
abbrev pub fold_types : List (List ℕ × Fold)
fold_types = (102 ∷ 111 ∷ 108 ∷ 100 ∷ 95 ∷ 110 ∷ 111 ∷ 111 ∷ 112 ∷ [], fold_noop) ∷ fold_rows 31

-- The search through a table of names; `none` is the undefined type, whose function is NULL.
abbrev pub find_type {ℓ} : {A : Type ℓ} → List ℕ → List (List ℕ × A) → Option A
find_type name [] = none
find_type name ((key, a) ∷ rows) =
    let rest = find_type name rows in if same_string name key then some a else rest

unfoldable pub fnv_init : List ℕ → Option Hash
fnv_init name = find_type name fnv_types

unfoldable pub fold_init : List ℕ → Option Fold
fold_init name = find_type name fold_types

-- The field of the metadata that is hashed, and its functions.
pub record Field : Type 0 where
  pub key : List ℕ
  pub hash : Option Hash
  pub fold : Option Fold

-- `struct internal`, of the hook.
pub record Internal : Type 0 where
  pub xmark : ℕ
  pub field : Option Field

-- The settings of the hook, each of its type: `hash` is there if `field` is.
pub record Settings : Type 0 where
  pub mark : ℕ
  pub hashed : Option (List ℕ × List ℕ)
  pub fold : Option (List ℕ)

abbrev pub chosen_fold : Option (List ℕ) → Option Fold
chosen_fold none = some fold_noop
chosen_fold (some name) = fold_init name

-- `h_xmark_init`.
unfoldable pub h_xmark_init : Settings → Internal
h_xmark_init s = record {
  xmark = s.mark % 2 ^ 32;
  field = elim s.hashed [
    | none ↦ none
    | some (key, hash) ↦
        some (record { key = key; hash = fnv_init hash; fold = chosen_fold s.fold })
  ];
}

-- `struct mdatum`, as far as the hook reads it.
pub record MDatum : Type 0 where
  pub is_string : Bool
  pub bytes : List ℕ
  pub len : ℕ

abbrev pub marked_with : Message → ℕ → Ran
marked_with m x = record { passed = true; msg = record m { xmark = x }; freed = [] }

-- `md->len-1`, a size_t.
abbrev pub hashed_len : ℕ → ℕ
hashed_len zero = 2 ^ 64 - 1
hashed_len (suc n) = n

-- `i->fold(i->hash(…))`; `none` is a call of a NULL function, or undefined.
abbrev pub hashed_xmark : Field → MDatum → Option ℕ
hashed_xmark f d = do
  fold ← f.fold
  hash ← f.hash
  hval ← run_hash hash d.bytes (hashed_len d.len)
  run_fold fold hval

abbrev pub xmark_of_datum : Internal → Field → Option MDatum → Option ℕ
xmark_of_datum i f none = some i.xmark
xmark_of_datum i f (some d) = if d.is_string then hashed_xmark f d else some i.xmark

abbrev pub xmark_of_field : Internal → (List ℕ → Option MDatum) → Option Field → Option ℕ
xmark_of_field i find none = some i.xmark
xmark_of_field i find (some f) = xmark_of_datum i f (find f.key)

-- `h_xmark`.
unfoldable pub h_xmark : Internal → (List ℕ → Option MDatum) → Message → Option Ran
h_xmark i find m = xmark_of_field i find i.field >>= λ x. some (marked_with m x)
