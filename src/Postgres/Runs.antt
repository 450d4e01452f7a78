-- ===== src/Postgres/Runs.antt =====
-- Any sequence of messages and of rounds of the commit worker of src/postgres.c and
-- src/utils/postgres.c.
use Prim.Native.Nat.{bit_and}
use mathlib.Core.Path.{subst}
use schaufel.Common.{
  ℕ, zero, suc, ◌+◌, ◌-◌, ◌<◌, ◌≡◌, ◌⊎◌, refl, sym, ◌∙◌, ap, Bool, true, false, not, ◌&&◌, Option,
  none, some, List, [], ◌∷◌, take, ltb, ◌==◌, if◌then◌else◌, arith, Bool-cases, inl, inr,
}
use schaufel.Timestamp.{at}
use schaufel.Helper.{sanitize_utf8, repair_null_escape}
use schaufel.Postgres.{
  Sent, copy_data, Meta, commit, commit_tick, put_message, put_literal, Produced, dropped, aborted,
  sent, produce, finish, begin_copy, unquote, is_nul,
}
use schaufel.Postgres.Batches.{
  protocol, protocol_from, put_rows-IsValid, begin_copy-Begun, InCopy, IsValid, commit-IsValid,
  commit_tick-IsValid, tick_and,
}

-- What the threads call, in the order in which they get the mutex.
pub data Call : Type 0 where
  message : List ℕ → ℕ → Call
  tick : Call

-- The connections enter each COPY. `none` is an abort of the process.
unfoldable pub run_calls : (List ℕ → Option (List ℕ)) → List Call → Meta → Option Meta
run_calls escape [] m = some m
run_calls escape (tick ∷ cs) m = run_calls escape cs (commit_tick m)
run_calls escape (message buf len ∷ cs) m = elim (produce escape true m buf len) [
  | dropped ↦ run_calls escape cs m
  | aborted ↦ none
  | sent m' ↦ run_calls escape cs m'
]

-- `postgres_meta_init`.
abbrev pub meta_init : Bool → Bool → Meta
meta_init binary replicated = record {
  binary = binary;
  replicated = replicated;
  count = 0;
  copy = false;
  commit_iter = 0;
  master = [];
  replica = [];
}

meta_init-IsValid : (binary replicated : Bool) → IsValid (meta_init binary replicated)
meta_init-IsValid binary replicated = record {
  linked = (refl, λ _. refl);
  filled = λ lt. absurd (omega arith);
  batch = omega arith;
  iter = omega arith;
}

-- A call that ends well: the message is dropped, or sent with the state still valid.
abbrev Fine : Produced → Type 0
Fine dropped = Unit
Fine aborted = ⊥
Fine (sent m) = IsValid m

Fine-if : (b : Bool) (x y : Produced) → Fine x → Fine y → Fine (if b then x else y)
Fine-if true x y p q = p
Fine-if false x y p q = q

and_false : (b : Bool) → (b && false) ≡ false
and_false true = refl
and_false false = refl

put_message-Fine :
    (rows : List Sent) (m : Meta)
    → IsValid m
    → protocol_from (some true) rows ≡ some true
    → Fine (put_message true (some rows) m)
put_message-Fine rows m v d =
    rw (and_false (not m.copy)) (put_rows-IsValid rows m (begin_copy m) v (begin_copy-Begun m v) d)

put_literal-Fine :
    (lit : Option (List ℕ)) (m : Meta)
    → ((l : List ℕ) → lit ≡ some l → (row : List ℕ) × (unquote l ≡ some row))
    → IsValid m
    → Fine (put_literal true lit m)
put_literal-Fine none m quotes v = tt
put_literal-Fine (some lit) m quotes v =
    let (row, e) = quotes lit refl in
    rw e (put_message-Fine (copy_data row ∷ copy_data (10 ∷ []) ∷ []) m v refl)

produce-Fine :
    (escape : List ℕ → Option (List ℕ))
    → ((s lit : List ℕ) → escape s ≡ some lit → (row : List ℕ) × (unquote lit ≡ some row))
    → (m : Meta) (buf : List ℕ) (len : ℕ) → IsValid m
    → Fine (produce escape true m buf len)
unfolding produce
produce-Fine escape quotes m buf len v =
    let r = sanitize_utf8 (take len (repair_null_escape buf)) in
    Fine-if m.binary _ _ (put_message-Fine (copy_data (take len buf) ∷ []) m v refl) (
      Fine-if (not (at buf len == 0)) _ _ tt (
        Fine-if (is_nul r.status) _ _ tt
          (put_literal-Fine (escape r.buf) m (λ l e. quotes r.buf l e) v)))

committed : (m : Meta) → InCopy true m → InCopy false (commit m)
unfolding commit
committed m h = (commit-IsValid m h).linked

finish-InCopy : (m : Meta) → IsValid m → InCopy false (finish m)
unfolding finish
finish-InCopy m v =
    let choose : Bool → Meta = λ b. if b then commit m else m in
    elim (Bool-cases m.copy) [
      | inl y ↦
          subst (InCopy false) (sym (ap choose y))
            (committed m (subst (λ b. InCopy b m) y v.linked))
      | inr n ↦ subst (InCopy false) (sym (ap choose n)) (subst (λ b. InCopy b m) n v.linked)
    ]

Produced-cases : (p : Produced) → (p ≡ dropped) ⊎ ((p ≡ aborted) ⊎ ((m : Meta) × (p ≡ sent m)))
Produced-cases dropped = inl refl
Produced-cases aborted = inr (inl refl)
Produced-cases (sent m) = inr (inr (m, refl))

run_calls_fine :
    (escape : List ℕ → Option (List ℕ))
    → ((s lit : List ℕ) → escape s ≡ some lit → (row : List ℕ) × (unquote lit ≡ some row))
    → (cs : List Call) (m : Meta) → IsValid m
    → (m' : Meta) × (run_calls escape cs m ≡ some m') × IsValid m'
unfolding run_calls
run_calls_fine escape quotes [] m v = (m, refl, v)
run_calls_fine escape quotes (tick ∷ cs) m v =
    run_calls_fine escape quotes cs (commit_tick m) (commit_tick-IsValid m v)
run_calls_fine escape quotes (message buf len ∷ cs) m v =
    let f = produce-Fine escape quotes m buf len v in
    elim (Produced-cases (produce escape true m buf len)) [
      | inl e ↦ rw (e, run_calls) (run_calls_fine escape quotes cs m v)
      | inr (inl e) ↦ absurd (subst Fine e f)
      | inr (inr (m', e)) ↦ rw (e, run_calls) (run_calls_fine escape quotes cs m' (subst Fine e f))
    ]

-- Where the connections enter each COPY, and libpq puts a literal between quotes: whatever messages
-- are produced and rounds of the commit worker run from the start on, in any order, the process does
-- not abort; fewer than 2000 messages stay uncommitted; and after `postgres_producer_free` each
-- connection has seen COPYs that were begun and ended in turn, with data only inside them.
pub run_calls_lem :
    (escape : List ℕ → Option (List ℕ))
    → ((s lit : List ℕ) → escape s ≡ some lit → (row : List ℕ) × (unquote lit ≡ some row))
    → (binary replicated : Bool) (cs : List Call)
    → (m : Meta) × (run_calls escape cs (meta_init binary replicated) ≡ some m)
      × (m.count < 2000)
      × (protocol (finish m).master ≡ some false)
      × ((finish m).replicated ≡ true → protocol (finish m).replica ≡ some false)
run_calls_lem escape quotes binary replicated cs =
    let (m, run, v) =
      run_calls_fine escape quotes cs (meta_init binary replicated)
        (meta_init-IsValid binary replicated) in
    let done = finish-InCopy m v in (m, run, v.batch, done.0, done.1)

-- Rounds of the worker with no message between them.
unfoldable pub ticks : ℕ → Meta → Meta
ticks zero m = m
ticks (suc n) m = ticks n (commit_tick m)

tick_next :
    (m : Meta) → m.commit_iter < 15 → commit_tick m ≡ record m { commit_iter = m.commit_iter + 1 }
unfolding commit_tick
tick_next m lt =
    let k : bit_and (m.commit_iter + 1) 0xF ≡ m.commit_iter + 1 =
      tick_and m.commit_iter (omega arith) ∙ ground arith in
    let z : ((m.commit_iter + 1) == 0) ≡ false = ground arith in rw k (rw z refl)

tick_last :
    (m : Meta)
    → m.commit_iter ≡ 15
    → 0 < m.count
    → commit_tick m ≡ commit (record m { commit_iter = 0 })
unfolding commit_tick
tick_last m e lt =
    let k : bit_and (m.commit_iter + 1) 0xF ≡ 0 =
      tick_and m.commit_iter (omega arith) ∙ ground arith in
    let z : ltb 0 m.count ≡ true = ground arith in rw k (rw z refl)

ticks-commit :
    (k : ℕ) (m : Meta)
    → m.commit_iter + k ≡ 15
    → 0 < m.count
    → (n : Meta) × (ticks (suc k) m ≡ commit n)
      × (n.master ≡ m.master)
      × (n.replica ≡ m.replica)
      × (n.count ≡ m.count)
unfolding ticks
ticks-commit zero m e lt =
    (record m { commit_iter = 0 }, tick_last m (omega (arith, e)) lt, refl, refl, refl)
ticks-commit (suc k) m e lt =
    let (n, run, a, b, c) =
      ticks-commit k (record m { commit_iter = m.commit_iter + 1 }) (omega (arith, e)) lt in
    (n, ap (λ z. ticks (suc k) z) (tick_next m (omega (arith, e))) ∙ run, a, b, c)

ticks-IsValid : (n : ℕ) (m : Meta) → IsValid m → IsValid (ticks n m)
unfolding ticks
ticks-IsValid zero m v = v
ticks-IsValid (suc n) m v = ticks-IsValid n (commit_tick m) (commit_tick-IsValid m v)

-- From a state in which `copy` says what the connections are in, messages that wait in a batch are
-- committed without further messages: at latest the sixteenth
-- round of the commit worker ends the COPY on the master, and on the replica if there is one, and
-- sets the count to 0.
pub ticks_lem :
    (m : Meta)
    → IsValid m
    → 0 < m.count
    → ((ticks (16 - m.commit_iter) m).count ≡ 0)
      × (protocol (ticks (16 - m.commit_iter) m).master ≡ some false)
      × ((ticks (16 - m.commit_iter) m).replicated ≡ true
          → protocol (ticks (16 - m.commit_iter) m).replica ≡ some false)
unfolding commit
ticks_lem m v lt =
    let (n, run, a, b, c) = ticks-commit (15 - m.commit_iter) m (omega (arith, v.iter)) lt in
    let k : suc (15 - m.commit_iter) ≡ 16 - m.commit_iter = omega (arith, v.iter) in
    let done : ticks (16 - m.commit_iter) m ≡ commit n = subst (λ j. ticks j m ≡ commit n) k run in
    let shut : (ticks (16 - m.commit_iter) m).copy ≡ false = ap (λ z. z.copy) done in
    let linked =
      subst (λ b. InCopy b (ticks (16 - m.commit_iter) m)) shut
        ((ticks-IsValid (16 - m.commit_iter) m v).linked) in
    (ap (λ z. z.count) done, linked.0, linked.1)
