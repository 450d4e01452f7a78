-- ===== src/Exports/Produce/Alike.antt =====
-- States of src/exports.c and src/postgres.c whose connections have seen the same, and the steps that
-- keep them so.
use mathlib.Core.Path.{subst}
use schaufel.Common.{
  ℕ, ◌+◌, ◌%◌, ◌^◌, ◌≡◌, refl, sym, ◌∙◌, ap, Bool, true, false, Option, List, [], ◌∷◌, ◌++◌, map,
  ◌==◌, if◌then◌else◌,
}
use mathlib.Core.List.{append-nil}
use schaufel.JsonExport.{be16, encode_results}
use schaufel.Postgres.{
  Sent, copy_in, copy_data, copy_end, Meta, send_master, send_both, begin_events, commit,
  begin_copy, put_rows, binheader,
}
use schaufel.Exports.Produce.{exports_begin, fields_data, exports_put}
use schaufel.Exports.Produce.Wire.{byte, wire, wire-append, map-append, wire-fields}

-- Two states with the same batch, whose masters have seen the same.
pub record Alike (m n : Meta) : Type 0 where
  pub binary : n.binary ≡ true
  pub alone : (m.replicated ≡ false) × (n.replicated ≡ false)
  pub binary_too : m.binary ≡ true
  pub count : m.count ≡ n.count
  pub copy : m.copy ≡ n.copy
  pub iter : m.commit_iter ≡ n.commit_iter
  pub master : wire m.master ≡ wire n.master

-- Where there is no replica only the master is sent to.
send_both-alone :
    (es : List Sent) (m : Meta) → m.replicated ≡ false → send_both es m ≡ send_master es m
send_both-alone es m r = rw r refl

Alike-send_master :
    (es fs : List Sent) (m n : Meta)
    → Alike m n
    → wire es ≡ wire fs
    → Alike (send_master es m) (send_master fs n)
Alike-send_master es fs m n a w = record {
  binary = a.binary;
  alone = a.alone;
  binary_too = a.binary_too;
  count = a.count;
  copy = a.copy;
  iter = a.iter;
  master = wire-append m.master es ∙ (rw (a.master, w) (sym (wire-append n.master fs)));
}

Alike-send_both :
    (es fs : List Sent) (m n : Meta)
    → Alike m n
    → wire es ≡ wire fs
    → Alike (send_master es m) (send_both fs n)
Alike-send_both es fs m n a w =
    subst (Alike (send_master es m)) (sym (send_both-alone fs n a.alone.1))
      (Alike-send_master es fs m n a w)

-- The end of `commit`.
reset : Meta → Meta
reset m = record m { count = 0; copy = false; commit_iter = 0 }

trailer : List Sent
trailer = copy_data (255 ∷ 255 ∷ []) ∷ []

commit-sends :
    (m : Meta)
    → m.binary ≡ true
    → m.replicated ≡ false
    → commit m ≡ reset (send_master (copy_end ∷ []) (send_master trailer m))
unfolding commit reset trailer
commit-sends m b r =
    ap (λ t. reset (send_both (copy_end ∷ []) t))
      (ap (λ b. if b then send_master trailer m else m) b)
    ∙ ap reset (send_both-alone (copy_end ∷ []) (send_master trailer m) r)

Alike-reset : (m n : Meta) → Alike m n → Alike (reset m) (reset n)
unfolding reset
Alike-reset m n a = record {
  binary = a.binary;
  alone = a.alone;
  binary_too = a.binary_too;
  count = refl;
  copy = refl;
  iter = refl;
  master = a.master;
}

Alike-commit : (m n : Meta) → Alike m n → Alike (commit m) (commit n)
Alike-commit m n a =
    let sends =
      Alike-send_master (copy_end ∷ []) (copy_end ∷ []) _ _
        (Alike-send_master trailer trailer m n a refl) refl in
    subst (λ c. Alike c (commit n)) (sym (commit-sends m a.binary_too a.alone.0))
      (subst (Alike _) (sym (commit-sends n a.binary a.alone.1)) (Alike-reset _ _ sends))

Alike-copy : (m n : Meta) → Alike m n → Alike (record m { copy = true }) (record n { copy = true })
Alike-copy m n a = record {
  binary = a.binary;
  alone = a.alone;
  binary_too = a.binary_too;
  count = a.count;
  copy = refl;
  iter = a.iter;
  master = a.master;
}

Alike-count :
    (m n : Meta) (j k : ℕ)
    → j ≡ k
    → Alike m n
    → Alike (record m { count = j }) (record n { count = k })
Alike-count m n j k e a = record {
  binary = a.binary;
  alone = a.alone;
  binary_too = a.binary_too;
  count = e;
  copy = a.copy;
  iter = a.iter;
  master = a.master;
}

Alike-if :
    (b c : Bool) (m m' n n' : Meta)
    → b ≡ c
    → Alike m n
    → Alike m' n'
    → Alike (if b then m else m') (if c then n else n')
Alike-if true true m m' n n' e y z = y
Alike-if false false m m' n n' e y z = z
Alike-if true false m m' n n' e y z = cc
Alike-if false true m m' n n' e y z = cc

pub Alike-begin : (m n : Meta) → Alike m n → Alike (exports_begin m) (begin_copy n)
unfolding begin_copy
Alike-begin m n a =
    let header : wire (copy_in ∷ copy_data binheader ∷ []) ≡ wire (begin_events n.binary) =
      ap (λ b. wire (begin_events b)) (sym a.binary) in
    Alike-if m.copy n.copy _ _ _ _ a.copy a
      (Alike-copy _ _ (Alike-send_both _ (begin_events n.binary) m n a header))

pub Alike-put :
    (rows : ℕ) (rs : List (Bool × Option (List ℕ))) (m n : Meta)
    → Alike m n
    → Alike
        (exports_put rows rs m)
        (put_rows (copy_data (be16 (rows % 2 ^ 16) ++ encode_results rs) ∷ []) n)
unfolding put_rows
Alike-put rows rs m n a =
    let header = be16 (rows % 2 ^ 16) in
    let es = copy_data header ∷ fields_data rs in
    let fs = copy_data (header ++ encode_results rs) ∷ [] in
    let w : wire es ≡ wire fs =
      ap (λ l. map byte header ++ l) (wire-fields rs)
      ∙ (sym (map-append header (encode_results rs)) ∙ sym (append-nil _)) in
    let more : m.count + 1 ≡ n.count + 1 = ap (λ k. k + 1) a.count in
    let counted = Alike-count _ _ _ _ more (Alike-send_both es fs m n a w) in
    Alike-if (m.count + 1 == 2000) (n.count + 1 == 2000) _ _ _ _ (ap (λ k. k == 2000) more)
      (Alike-commit _ _ counted) counted
