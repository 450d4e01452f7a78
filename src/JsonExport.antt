-- ===== src/JsonExport.antt =====
-- src/hooks/jsonexport.c: the hook that makes a binary row of postgres of a JSON message. The JSON
-- library is an argument: `lookup` is what it finds at a JSON pointer.
pub mod Row
pub mod Config
mod Tests
use schaufel.Common.{
  ℕ, zero, suc, ◌+◌, ◌-◌, ◌/◌, ◌%◌, ◌^◌, Bool, true, false, not, ◌&&◌, ◌||◌, Option, none, some,
  List, [], ◌∷◌, ◌++◌, length, ◌==◌, if◌then◌else◌,
}
use schaufel.Helper.{starts_with}
use schaufel.Timestamp.{at, json_to_pqtimestamp, leapyear}

-- `PqTypes`, `FilterTypes` with the data of the filter, and `ActionTypes`.
pub data PqType : Type 0 where
  text timestamp : PqType

pub data Filter : Type 0 where
  noop exists : Filter
  equals substr : List ℕ → Filter

pub data Action : Type 0 where
  store store_true discard_false discard_true store_meta : Action

-- `struct Needles`; a JSON pointer is its number.
pub record Needle : Type 0 where
  pub jpointer : ℕ
  pub pqtype : PqType
  pub filter : Filter
  pub action : Action

-- What `json_pointer_get` finds: an error, a null, whose object is NULL, or a value with its text.
pub data Found : Type 0 where
  missing null : Found
  value : List ℕ → Found

-- The column `store` of `action_types`.
abbrev pub stores : Action → Bool
stores store = true
stores store_true = true
stores discard_false = false
stores discard_true = false
stores store_meta = true

-- strcmp and strstr.
abbrev pub same_string : List ℕ → List ℕ → Bool
same_string [] [] = true
same_string (a ∷ xs) (b ∷ ys) = a == b && same_string xs ys
same_string _ _ = false

abbrev pub has_substring : List ℕ → List ℕ → Bool
has_substring p [] = starts_with p []
has_substring p (c ∷ cs) = starts_with p (c ∷ cs) || has_substring p cs

unfoldable pub run_filter : Filter → Found → Bool
run_filter noop found = true
run_filter exists missing = false
run_filter exists null = true
run_filter exists (value s) = true
run_filter (equals d) missing = false
run_filter (equals d) null = false
run_filter (equals d) (value s) = same_string s d
run_filter (substr d) missing = false
run_filter (substr d) null = false
run_filter (substr d) (value s) = has_substring d s

unfoldable pub run_action : Action → Bool → Bool
run_action store ok = true
run_action store_true ok = ok
run_action discard_false ok = ok
run_action discard_true ok = not ok
run_action store_meta ok = true

-- Big-endian numbers.
abbrev pub be16 : ℕ → List ℕ
be16 n = n / 256 % 256 ∷ n % 256 ∷ []

abbrev pub be32 : ℕ → List ℕ
be32 n = n / 16777216 % 256 ∷ n / 65536 % 256 ∷ n / 256 % 256 ∷ n % 256 ∷ []

abbrev pub be64 : ℕ → List ℕ
be64 n = be32 (n / 2 ^ 32) ++ be32 n

-- `format`, of a value that was found; `room` says whether the allocations succeed.
unfoldable pub format : Bool → PqType → List ℕ → Option (List ℕ)
format room text s = some s
format room timestamp s = elim (json_to_pqtimestamp leapyear room s) [
  | none ↦ none
  | some n ↦ some (be64 n)
]

-- What `_deref` returns: 1, -1, or 0 with the result of each needle, and whether it is stored; a NULL
-- is `none`. Or it reads the text of a NULL object.
pub data Dereferenced : Type 0 where
  discarded failed crashed : Dereferenced
  results : List (Bool × Option (List ℕ)) → Dereferenced

abbrev pub with_result : Bool × Option (List ℕ) → Dereferenced → Dereferenced
with_result r discarded = discarded
with_result r failed = failed
with_result r crashed = crashed
with_result r (results rs) = results (r ∷ rs)

abbrev pub format_found : Bool → Needle → Found → Dereferenced → Dereferenced
format_found room n missing rest = with_result (stores n.action, none) rest
format_found room n null rest = crashed
format_found room n (value s) rest = elim (format room n.pqtype s) [
  | none ↦ failed
  | some v ↦ with_result (stores n.action, some v) rest
]

-- The loop of `_deref`.
unfoldable pub deref : Bool → (ℕ → Found) → List Needle → Dereferenced
deref room lookup [] = results []
deref room lookup (n ∷ ns) =
    let found = lookup n.jpointer in
    let rest = deref room lookup ns in
    if run_action n.action (run_filter n.filter found)
    then format_found room n found rest
    else discarded

-- The needles that store: `internal->fields`, a uint16_t.
abbrev pub count_fields : List Needle → ℕ
count_fields [] = 0
count_fields (n ∷ ns) = if stores n.action then suc (count_fields ns) else count_fields ns

-- The length of NULL is ~0.
abbrev pub encode_field : Option (List ℕ) → List ℕ
encode_field none = be32 (2 ^ 32 - 1)
encode_field (some v) = be32 (length v % 2 ^ 32) ++ v

abbrev pub encode_results : List (Bool × Option (List ℕ)) → List ℕ
encode_results [] = []
encode_results ((b, r) ∷ rs) = if b then encode_field r ++ encode_results rs else encode_results rs

-- `_action_store_meta` marks a needle that found a value, and the loop over the results then makes a
-- string of the result for the metadata. That of a timestamp has been freed: `none` is a read from
-- NULL.
abbrev pub with_metadata : Action → PqType → Found → Option (List (List ℕ)) → Option (List (List ℕ))
with_metadata store_meta text (value s) none = none
with_metadata store_meta text (value s) (some ms) = some (s ∷ ms)
with_metadata store_meta timestamp (value s) rest = none
with_metadata _ t found rest = rest

unfoldable pub metadata_of : (ℕ → Found) → List Needle → Option (List (List ℕ))
metadata_of lookup [] = some []
metadata_of lookup (n ∷ ns) =
    with_metadata n.action n.pqtype (lookup n.jpointer) (metadata_of lookup ns)

-- The hook refuses the message, it reads from NULL, or it gives the new payload and the strings that
-- it puts into the metadata, one after the other, as "jpointer".
pub data Exported : Type 0 where
  refuses crashes : Exported
  exports : List ℕ → List (List ℕ) → Exported

abbrev pub exported_with : List ℕ → Option (List (List ℕ)) → Exported
exported_with row none = crashes
exported_with row (some ms) = exports row ms

abbrev row_of : ℕ → Option (List (List ℕ)) → Dereferenced → Exported
row_of fields metadata discarded = refuses
row_of fields metadata failed = refuses
row_of fields metadata crashed = crashes
row_of fields metadata (results rs) =
    exported_with (be16 (fields % 2 ^ 16) ++ encode_results rs) metadata

-- `h_jsonexport`, of `len` bytes at `buf`, which has a byte more. `parsed` is the JSON library's
-- reading of the payload.
unfoldable pub h_jsonexport : Bool → Option (ℕ → Found) → List Needle → List ℕ → ℕ → Exported
h_jsonexport room parsed needles buf len =
    if at buf len == 0
    then elim parsed [
      | none ↦ refuses
      | some lookup ↦
          row_of (count_fields needles) (metadata_of lookup needles) (deref room lookup needles)
    ]
    else refuses
