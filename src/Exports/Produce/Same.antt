-- ===== src/Exports/Produce/Same.antt =====
-- The producer of src/exports.c against the hook of src/hooks/jsonexport.c with the producer of
-- src/postgres.c after it, which the source says that it is redundant with.
use mathlib.Core.Path.{subst}
use schaufel.Common.{
  ℕ, ◌%◌, ◌^◌, ◌≡◌, refl, sym, ◌∙◌, ap, Bool, true, false, not, ◌&&◌, Option, some, List, [], ◌∷◌,
  ◌++◌, length, take-append, ◌==◌, if◌then◌else◌, All, Bool-cases, Option-cases, inl, inr, ◌⊎◌,
}
use schaufel.Timestamp.{at, read_fields, leapyear}
use schaufel.JsonExport.{
  Found, missing, null, value, exports, metadata_of, PqType, text, timestamp, Needle, run_filter,
  run_action, be16, format, format_found, Dereferenced, discarded, results, deref, count_fields,
  encode_results, h_jsonexport,
}
use schaufel.JsonExport.Row.{Dereferenced-cases}
use schaufel.Postgres.{
  copy_data, Meta, Produced, dropped, aborted, sent, produce, begin_copy, put_rows, put_message,
}
use schaufel.Exports.{is_leap_second, exports_json_to_pqtimestamp_lem}
use schaufel.Exports.Produce.{
  exports_format, exports_found, exports_deref, exports_begin, exports_put, put_dereferenced,
  sent_or_crash, exports_produce,
}
use schaufel.Exports.Produce.Alike.{Alike, Alike-begin, Alike-put}

-- No timestamp that is asked for is a leap second, which src/exports.c refuses.
abbrev pub NoLeapSecond : (ℕ → Found) → Needle → Type 0
NoLeapSecond lookup n =
    n.pqtype ≡ timestamp
    → (s : List ℕ) → lookup n.jpointer ≡ value s
    → is_leap_second (read_fields s) ≡ false

exports_format-format :
    (room : Bool) (t : PqType) (s : List ℕ)
    → (t ≡ timestamp → is_leap_second (read_fields s) ≡ false)
    → exports_format room t s ≡ format room t s
unfolding exports_format format
exports_format-format room text s h = refl
exports_format-format room timestamp s h =
    rw (exports_format, exports_json_to_pqtimestamp_lem leapyear room s, h refl) refl

exports_found-found :
    (room : Bool) (n : Needle) (found : Found) (rest : Dereferenced)
    → (n.pqtype ≡ timestamp
        → (s : List ℕ) → found ≡ value s
        → is_leap_second (read_fields s) ≡ false)
    → exports_found room n found rest ≡ format_found room n found rest
exports_found-found room n missing rest h = refl
exports_found-found room n null rest h = refl
exports_found-found room n (value s) rest h =
    rw (exports_found, exports_format-format room n.pqtype s (λ t. h t s refl)) refl

exports_deref-deref :
    (room : Bool) (lookup : ℕ → Found) (ns : List Needle)
    → All (NoLeapSecond lookup) ns
    → exports_deref room lookup ns ≡ deref room lookup ns
unfolding exports_deref deref
exports_deref-deref room lookup [] h = refl
exports_deref-deref room lookup (n ∷ ns) h =
    let found = lookup n.jpointer in
    let ih = exports_deref-deref room lookup ns h.1 in
    ap (λ d. if run_action n.action (run_filter n.filter found) then d else discarded)
      (ap (exports_found room n found) ih
        ∙ exports_found-found room n found (deref room lookup ns) h.0)

row_eq : {a b : List ℕ} {ms ns : List (List ℕ)} → exports a ms ≡ exports b ns → a ≡ b
row_eq h = cc

row_results :
    (room : Bool) (lookup : ℕ → Found) (ns : List Needle) (buf row : List ℕ) (len : ℕ)
    (ms : List (List ℕ))
    → h_jsonexport room (some lookup) ns buf len ≡ exports row ms
    → ((at buf len == 0) ≡ true)
      × (rs : List (Bool × Option (List ℕ))) × (deref room lookup ns ≡ results rs)
      × (be16 (count_fields ns % 2 ^ 16) ++ encode_results rs ≡ row)
unfolding h_jsonexport
row_results room lookup ns buf row len ms h = elim (Bool-cases (at buf len == 0)) [
  | inr e ↦ let k = rw e at h in cc
  | inl e ↦ elim (Dereferenced-cases (deref room lookup ns)) [
    | inl d ↦ let k = rw (e, d) at h in cc
    | inr (inl d) ↦ let k = rw (e, d) at h in cc
    | inr (inr (inl d)) ↦ let k = rw (e, d) at h in cc
    | inr (inr (inr (rs, d))) ↦ elim (Option-cases (metadata_of lookup ns)) [
      | inl f ↦ let k = rw (e, d, f) at h in cc
      | inr (qs, f) ↦ let k = rw (e, d, f) at h in (e, rs, d, row_eq k)
    ]
  ]
]

if_true : (b : Bool) (x y : Produced) → b ≡ true → (if b then x else y) ≡ x
if_true b x y e = rw e refl

produce_row :
    (escape : List ℕ → Option (List ℕ)) (starts : Bool) (n : Meta) (row : List ℕ)
    → n.binary ≡ true
    → produce escape starts n (row ++ (0 ∷ [])) (length row)
      ≡ put_message starts (some (copy_data row ∷ [])) n
unfolding produce
produce_row escape starts n row b =
    if_true n.binary _ _ b
    ∙ ap (λ l. put_message starts (some (copy_data l ∷ [])) n) (take-append row (0 ∷ []))

exports_row :
    (room starts : Bool) (lookup : ℕ → Found) (ns : List Needle) (m : Meta) (buf : List ℕ) (len : ℕ)
    (rs : List (Bool × Option (List ℕ)))
    → (at buf len == 0) ≡ true
    → exports_deref room lookup ns ≡ results rs
    → exports_produce room starts (some lookup) ns m buf len ≡ (
        if not m.copy && not starts
        then some aborted
        else some (sent (exports_put (count_fields ns) rs (exports_begin m))))
unfolding exports_produce
exports_row room starts lookup ns m buf len rs end d =
    ap
      (λ b.
        if not b
        then some dropped
        else if not m.copy && not starts
        then some aborted
        else sent_or_crash
            (put_dereferenced (count_fields ns) (exports_deref room lookup ns) (exports_begin m)))
      end
    ∙ ap
        (λ t.
          if not m.copy && not starts
          then some aborted
          else sent_or_crash (put_dereferenced (count_fields ns) t (exports_begin m)))
        d

-- For a message that the hook of src/hooks/jsonexport.c turns into a row, and without leap seconds
-- among its timestamps, the producer of src/exports.c does the same as that hook followed by the
-- producer of src/postgres.c in its binary format without a replica: both abort, because the
-- connection does not enter a COPY, or the masters have received the same bytes in the same COPYs,
-- with the same counters, a commit at 2000 messages included.
pub exports_produce_lem :
    (room starts : Bool) (lookup : ℕ → Found) (escape : List ℕ → Option (List ℕ)) (ns : List Needle)
    (m n : Meta) (buf row : List ℕ) (len : ℕ) (ms : List (List ℕ))
    → Alike m n
    → All (NoLeapSecond lookup) ns
    → h_jsonexport room (some lookup) ns buf len ≡ exports row ms
    → let e = exports_produce room starts (some lookup) ns m buf len in
      let p = produce escape starts n (row ++ (0 ∷ [])) (length row) in
      ((e ≡ some aborted) × (p ≡ aborted))
      ⊎ ((m' : Meta) × (n' : Meta) × (e ≡ some (sent m')) × (p ≡ sent n') × Alike m' n')
exports_produce_lem room starts lookup escape ns m n buf row len ms a leap h =
    let (end, rs, d, e) = row_results room lookup ns buf row len ms h in
    let x =
      exports_row room starts lookup ns m buf len rs end
        (exports_deref-deref room lookup ns leap ∙ d) in
    let z = produce_row escape starts n row a.binary in
    let put =
      subst
        (λ r.
          Alike (exports_put (count_fields ns) rs (exports_begin m))
            (put_rows (copy_data r ∷ []) (begin_copy n)))
        e (Alike-put (count_fields ns) rs _ _ (Alike-begin m n a)) in
    let same : (not n.copy && not starts) ≡ (not m.copy && not starts) =
      ap (λ c. not c && not starts) (sym a.copy) in
    elim (Bool-cases (not m.copy && not starts)) [
      | inl y ↦ inl (x ∙ rw y refl, z ∙ rw (same ∙ y) refl)
      | inr y ↦ inr (
        exports_put (count_fields ns) rs (exports_begin m),
        put_rows (copy_data row ∷ []) (begin_copy n),
        x ∙ rw y refl,
        z ∙ rw (same ∙ y) refl,
        put,
      )
    ]
