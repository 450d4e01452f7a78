-- ===== src/Exports/Produce.antt =====
-- src/exports.c: its producer, which makes a row of each message itself and sends it in a binary
-- COPY. The JSON library is an argument, as in JsonExport; `struct Meta` and `commit` are those of
-- Postgres. There is no replica.
use schaufel.Common.{
  ℕ, ◌+◌, ◌-◌, ◌%◌, ◌^◌, Bool, true, false, not, ◌&&◌, Option, none, some, List, [], ◌∷◌, ◌++◌,
  length, ◌==◌, if◌then◌else◌,
}
use schaufel.Timestamp.{at, leapyear}
use schaufel.JsonExport.{
  Found, missing, null, value, PqType, text, timestamp, Needle, stores, run_filter, run_action,
  be16, be32, be64, Dereferenced, discarded, failed, crashed, results, with_result, count_fields,
}
use schaufel.Postgres.{
  Sent, copy_in, copy_data, Meta, send_master, commit, commit_tick, binheader, Produced, dropped,
  aborted, sent, finish,
}
use schaufel.Exports.{exports_json_to_pqtimestamp}
pub mod Wire
pub mod Alike
pub mod Same

-- `format`, of a value that was found.
unfoldable pub exports_format : Bool → PqType → List ℕ → Option (List ℕ)
exports_format room text s = some s
exports_format room timestamp s = elim (exports_json_to_pqtimestamp leapyear room s) [
  | none ↦ none
  | some n ↦ some (be64 n)
]

abbrev pub exports_found : Bool → Needle → Found → Dereferenced → Dereferenced
exports_found room n missing rest = with_result (stores n.action, none) rest
exports_found room n null rest = crashed
exports_found room n (value s) rest = elim (exports_format room n.pqtype s) [
  | none ↦ failed
  | some v ↦ with_result (stores n.action, some v) rest
]

-- The loop of `_deref`.
unfoldable pub exports_deref : Bool → (ℕ → Found) → List Needle → Dereferenced
exports_deref room lookup [] = results []
exports_deref room lookup (n ∷ ns) =
    let found = lookup n.jpointer in
    let rest = exports_deref room lookup ns in
    if run_action n.action (run_filter n.filter found)
    then exports_found room n found rest
    else discarded

-- `if (m->copy == 0)`, where the connection enters the COPY.
abbrev pub exports_begin : Meta → Meta
exports_begin m =
    if m.copy
    then m
    else record (send_master (copy_in ∷ copy_data binheader ∷ []) m) { copy = true }

-- The fields of a row: the length of each, and its bytes unless it is NULL.
abbrev pub field_data : Option (List ℕ) → List Sent
field_data none = copy_data (be32 (2 ^ 32 - 1)) ∷ []
field_data (some v) = copy_data (be32 (length v % 2 ^ 32)) ∷ copy_data v ∷ []

abbrev pub fields_data : List (Bool × Option (List ℕ)) → List Sent
fields_data [] = []
fields_data ((b, r) ∷ rs) = if b then field_data r ++ fields_data rs else fields_data rs

-- The row, and after it the counter.
abbrev pub exports_put : ℕ → List (Bool × Option (List ℕ)) → Meta → Meta
exports_put rows rs m =
    let counted = record (send_master (copy_data (be16 (rows % 2 ^ 16)) ∷ fields_data rs) m) {
      count = m.count + 1;
    } in
    if counted.count == 2000 then commit counted else counted

-- `none` is a read from NULL.
abbrev pub put_dereferenced : ℕ → Dereferenced → Meta → Option Meta
put_dereferenced rows discarded m = some m
put_dereferenced rows failed m = some m
put_dereferenced rows crashed m = none
put_dereferenced rows (results rs) m = some (exports_put rows rs m)

abbrev pub put_parsed : Bool → Option (ℕ → Found) → List Needle → Meta → Option Meta
put_parsed room none ns m = some m
put_parsed room (some lookup) ns m =
    put_dereferenced (count_fields ns) (exports_deref room lookup ns) m

abbrev pub sent_or_crash : Option Meta → Option Produced
sent_or_crash none = none
sent_or_crash (some m) = some (sent m)

-- `exports_producer_produce`, of `len` bytes at `buf`, which has a byte more. `starts` says whether
-- the connection enters the COPY that is needed. `none` is a read from NULL.
unfoldable pub exports_produce :
    Bool → Bool → Option (ℕ → Found) → List Needle → Meta → List ℕ → ℕ → Option Produced
exports_produce room starts parsed ns m buf len =
    if not (at buf len == 0)
    then some dropped
    else if not m.copy && not starts
    then some aborted
    else sent_or_crash (put_parsed room parsed ns (exports_begin m))
