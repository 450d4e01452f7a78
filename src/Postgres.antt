-- ===== src/Postgres.antt =====
-- src/postgres.c and src/utils/postgres.c: messages are written to a COPY of the database, and
-- committed in batches, by the producer itself or by the commit worker. What is sent on a connection
-- is a list of events. Whether libpq enters a COPY, and the literal that it escapes a string to, are
-- arguments.
pub mod Batches
pub mod Runs
mod Tests
use Prim.Native.Nat.{bit_and}
use schaufel.Common.{
  ℕ, zero, suc, ◌+◌, ◌-◌, ◌≡◌, Bool, true, false, not, ◌&&◌, ◌||◌, Option, none, some, List, [],
  ◌∷◌, ◌++◌, length, take, drop, ltb, leb, ◌==◌, if◌then◌else◌,
}
use schaufel.Timestamp.{at}
use schaufel.Helper.{Sanitized, Status, embedded_nul, sanitize_utf8, repair_null_escape}

-- What is sent on a connection: the COPY command, data, and the end of the data.
pub data Sent : Type 0 where
  copy_in : Sent
  copy_data : List ℕ → Sent
  copy_end : Sent

-- `struct Meta`, with what was sent on its connections. `replicated` says whether there is a
-- replica.
pub record Meta : Type 0 where
  pub binary : Bool
  pub replicated : Bool
  pub count : ℕ
  pub copy : Bool
  pub commit_iter : ℕ
  pub master : List Sent
  pub replica : List Sent

abbrev pub send_master : List Sent → Meta → Meta
send_master es m = record m { master = m.master ++ es }

abbrev pub send_replica : List Sent → Meta → Meta
send_replica es m = if m.replicated then record m { replica = m.replica ++ es } else m

abbrev pub send_both : List Sent → Meta → Meta
send_both es m = send_replica es (send_master es m)

-- `commit`: the trailer of the binary format goes to the master.
unfoldable pub commit : Meta → Meta
commit m =
    let trailed = if m.binary then send_master (copy_data (255 ∷ 255 ∷ []) ∷ []) m else m in
    record (send_both (copy_end ∷ []) trailed) { count = 0; copy = false; commit_iter = 0 }

-- One round of `commit_worker`, each second.
unfoldable pub commit_tick : Meta → Meta
commit_tick m =
    let iter = bit_and (m.commit_iter + 1) 0xF in
    let ticked = record m { commit_iter = iter } in
    if iter == 0 && ltb 0 m.count then commit ticked else ticked

-- "PGCOPY\n\377\r\n\0", the flags and the header extension.
abbrev pub binheader : List ℕ
binheader =
    80 ∷ 71 ∷ 67 ∷ 79 ∷ 80 ∷ 89 ∷ 10 ∷ 255 ∷ 13 ∷ 10 ∷ 0 ∷ 0 ∷ 0 ∷ 0 ∷ 0 ∷ 0 ∷ 0 ∷ 0 ∷ 0 ∷ []

abbrev pub begin_events : Bool → List Sent
begin_events binary = copy_in ∷ (if binary then copy_data binheader ∷ [] else [])

-- `if (m->copy == 0)`, where both connections enter the COPY.
unfoldable pub begin_copy : Meta → Meta
begin_copy m = if m.copy then m else record (send_both (begin_events m.binary) m) { copy = true }

-- How a call ends: the message is dropped, the process aborts, or the message is sent.
pub data Produced : Type 0 where
  dropped : Produced
  aborted : Produced
  sent : Meta → Produced

-- The text between the quotes of the literal; `none` is the abort.
abbrev pub unquote : List ℕ → Option (List ℕ)
unquote lit =
    if at lit 0 == 32 && at lit 1 == 69
    then some (take (length lit - 4) (drop 3 lit))
    else if at lit 0 == 39
    then some (take (length lit - 2) (drop 1 lit))
    else none

-- The data of a message, and after it the counter: the batch is committed at 2000.
unfoldable pub put_rows : List Sent → Meta → Meta
put_rows rows m =
    let counted = record (send_both rows m) { count = m.count + 1 } in
    if counted.count == 2000 then commit counted else counted

-- `starts`: whether both connections enter the COPY that is needed.
abbrev pub put_message : Bool → Option (List Sent) → Meta → Produced
put_message starts rows m =
    if not m.copy && not starts
    then aborted
    else elim rows [ none ↦ aborted | some es ↦ sent (put_rows es (begin_copy m)) ]

abbrev text_rows : List ℕ → Option (List Sent)
text_rows lit = elim (unquote lit) [
  | none ↦ none
  | some row ↦ some (copy_data row ∷ copy_data (10 ∷ []) ∷ [])
]

abbrev put_literal : Bool → Option (List ℕ) → Meta → Produced
put_literal starts none m = dropped
put_literal starts (some lit) m = put_message starts (text_rows lit) m

abbrev is_nul : Status → Bool
is_nul embedded_nul = true
is_nul _ = false

-- `postgres_producer_produce`, of `len` bytes at `buf`, which has a byte more. `escape` is
-- PQescapeLiteral.
unfoldable pub produce : (List ℕ → Option (List ℕ)) → Bool → Meta → List ℕ → ℕ → Produced
produce escape starts m buf len =
    let r = sanitize_utf8 (take len (repair_null_escape buf)) in
    if m.binary
    then put_message starts (some (copy_data (take len buf) ∷ [])) m
    else if not (at buf len == 0)
    then dropped
    else if is_nul r.status
    then dropped
    else put_literal starts (escape r.buf) m

-- `postgres_producer_free`, before the connections are closed.
unfoldable pub finish : Meta → Meta
finish m = if m.copy then commit m else m
