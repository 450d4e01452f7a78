-- ===== src/Kafka/Messages.antt =====
-- src/kafka.c: the three consumers on a message of the client library, the callback that stores its
-- offset, and the producer. What the library answers, and what calloc returns, are arguments; what
-- the code does to the library and to the allocator is a list of events.
pub mod Commits
pub mod Copies
pub mod Retry
mod Tests
use schaufel.Common.{
  ℕ, ◌+◌, ◌-◌, ◌%◌, ◌^◌, Bool, true, false, Option, none, some, List, [], ◌∷◌, ◌++◌, length, ltb,
  if◌then◌else◌, map,
}
use schaufel.Metadata.{
  Datum, func, opaque, plain, MDatum, mdatum_init, HashTable, callback_key, metadata_find,
  metadata_insert, metadata_free, callback_run,
}

-- `rd_kafka_resp_err_t`, as far as the code tells the errors apart.
pub data RespErr : Type 0 where
  no_error partition_eof unknown_partition unknown_topic other_error : RespErr

-- `rd_kafka_message_t`, with its address; `payload` is the bytes in it.
pub record RkMessage : Type 0 where
  pub addr : ℕ
  pub err : RespErr
  pub payload : List ℕ
  pub topic : ℕ
  pub partition : ℕ
  pub offset : ℕ

-- A pointer: to a block of this program with these bytes, to the payload inside a message of the
-- library, or to such a message.
pub data Pointer : Type 0 where
  block : List ℕ → Pointer
  payload_of : RkMessage → Pointer
  envelope : RkMessage → Pointer

-- The only function that is put in metadata.
pub data Callback : Type 0 where
  commit_offset : Callback

abbrev pub Meta : Type 0
Meta = MDatum Callback Pointer

-- What is called: `free`, `rd_kafka_message_destroy`, `rd_kafka_offset_store` with a topic, a
-- partition and an offset; and the memory of a table is freed.
pub data Event : Type 0 where
  frees : Pointer → Event
  destroys : ℕ → Event
  stores : ℕ → ℕ → ℕ → Event
  frees_table : Event

abbrev pub all_free : List Pointer → List Event
all_free [] = []
all_free (p ∷ ps) = frees p ∷ all_free ps

abbrev pub free_pointer : Option Pointer → List Event
free_pointer none = []
free_pointer (some p) = frees p ∷ []

-- `struct Message`, with the table that `metadata` points to.
pub record Carrier (T : Type 0) : Type 0 where
  pub payload : Option Pointer
  pub datalen : ℕ
  pub table : Option T

-- The process aborts, it reads or writes where it must not, or the call returns.
pub data Outcome (T : Type 0) : Type 0 where
  aborts faults : Outcome T
  returns : Carrier T → List Event → Outcome T

-- "rk_message".
abbrev pub rk_message_key : List ℕ
rk_message_key = 114 ∷ 107 ∷ 95 ∷ 109 ∷ 101 ∷ 115 ∷ 115 ∷ 97 ∷ 103 ∷ 101 ∷ []

-- `(int)rkmessage->len + 1`, as the size_t that calloc is given.
abbrev pub copy_size : ℕ → ℕ
copy_size len =
    let w = len % 2 ^ 32 in if ltb w (2 ^ 31) then w + 1 else (2 ^ 64 - 2 ^ 32 + w + 1) % 2 ^ 64

module _ {T : Type 0} where
  -- `switch(rkmessage->err)`, after which the message is destroyed.
  unfoldable pub consume_error : RespErr → RkMessage → Carrier T → Outcome T
  consume_error unknown_partition m msg = aborts
  consume_error unknown_topic m msg = aborts
  consume_error _ m msg = returns msg (destroys m.addr ∷ [])

  -- The payload is copied, with a NUL behind it. `room` says for which sizes calloc has memory.
  unfoldable pub consume_copy : (ℕ → Bool) → RkMessage → Carrier T → Outcome T
  consume_copy room m msg =
      let len = length m.payload in
      if room (copy_size len)
      then if ltb (copy_size len) len
        then faults
        else returns (record msg { payload = some (block (m.payload ++ (0 ∷ []))); datalen = len })
            (destroys m.addr ∷ [])
      else aborts

  abbrev consume_message :
      (RkMessage → Carrier T → Outcome T) → RespErr → RkMessage → Carrier T → Outcome T
  consume_message good no_error m msg = good m msg
  consume_message good partition_eof m msg = consume_error partition_eof m msg
  consume_message good unknown_partition m msg = consume_error unknown_partition m msg
  consume_message good unknown_topic m msg = consume_error unknown_topic m msg
  consume_message good other_error m msg = consume_error other_error m msg

  -- `kafka_consumer_consume`, of what `rd_kafka_consumer_poll` returned.
  unfoldable pub kafka_consumer_consume : (ℕ → Bool) → Option RkMessage → Carrier T → Outcome T
  unfolding consume_message
  kafka_consumer_consume room none msg = returns msg []
  kafka_consumer_consume room (some m) msg = consume_message (consume_copy room) m.err m msg

  -- `kafka_simple_consumer_consume`: `rkqu` says whether the consumer has a queue, which
  -- `rd_kafka_consume_queue` reads from.
  unfoldable pub kafka_simple_consumer_consume :
      (ℕ → Bool) → Bool → Option RkMessage → Carrier T → Outcome T
  unfolding consume_message
  kafka_simple_consumer_consume room false polled msg = faults
  kafka_simple_consumer_consume room true none msg = returns msg []
  kafka_simple_consumer_consume room true (some m) msg =
      consume_message (consume_copy room) m.err m msg

module _ (H : HashTable Meta) where
  -- The two insertions of the transactional consumer.
  abbrev with_envelope : RkMessage → Option H.Table → Option H.Table × List Pointer
  with_envelope m md =
      let a =
        metadata_insert H md callback_key (some (mdatum_init (func (some commit_offset)) 8)) in
      let b =
        metadata_insert H a.0 rk_message_key (some (mdatum_init (opaque (some (envelope m))) 8)) in
      (b.0, a.2 ++ b.2)

  -- `kafka_transactional_consumer_consume` after the errors: the payload is not copied. `room` says
  -- whether calloc has memory for the metadata.
  unfoldable pub consume_transactional : Bool → RkMessage → Carrier H.Table → Outcome H.Table
  unfolding with_envelope
  consume_transactional false m msg = aborts
  consume_transactional true m msg =
      let r = with_envelope m msg.table in
      returns (record { payload = some (payload_of m); datalen = length m.payload; table = r.0 })
        (all_free r.1)

  -- `kafka_transactional_consumer_consume`.
  unfoldable pub kafka_transactional_consumer_consume :
      Bool → Option RkMessage → Carrier H.Table → Outcome H.Table
  unfolding consume_message
  kafka_transactional_consumer_consume room none msg = returns msg []
  kafka_transactional_consumer_consume room (some m) msg =
      consume_message (consume_transactional room) m.err m msg

  -- `rk_message->value.ptr = NULL`, in the table.
  abbrev clear_envelope : Option H.Table → Meta → Option H.Table
  clear_envelope none d = none
  clear_envelope (some t) d = some (H.write t rk_message_key (record d { value = opaque none }))

  -- What `consumer_commit_offset` does with the datum that it found. `stored` is whether
  -- `rd_kafka_offset_store` succeeds. A pointer that is no message of the library is never read.
  unfoldable pub commit_envelope :
      (RkMessage → Bool) → Carrier H.Table → Option Meta → Outcome H.Table
  unfolding clear_envelope
  commit_envelope stored msg none = aborts
  commit_envelope stored msg (some d) = elim d.value [
    | plain p ↦ returns msg []
    | func f ↦ returns msg []
    | opaque none ↦ faults
    | opaque (some (block bytes)) ↦ faults
    | opaque (some (payload_of m)) ↦ faults
    | opaque (some (envelope m)) ↦
        if stored m
        then returns (record msg { payload = none; table = clear_envelope msg.table d })
            (stores m.topic m.partition m.offset ∷ (destroys m.addr ∷ []))
        else aborts
  ]

  -- `consumer_commit_offset`.
  unfoldable pub consumer_commit_offset : (RkMessage → Bool) → Carrier H.Table → Outcome H.Table
  consumer_commit_offset stored msg =
      commit_envelope stored msg (metadata_find H msg.table rk_message_key)

  abbrev run_callback : (RkMessage → Bool) → Carrier H.Table → Callback → Outcome H.Table
  run_callback stored msg commit_offset = consumer_commit_offset stored msg

  -- `metadata_callback_run` of src/utils/metadata.c, on the metadata of the message.
  unfoldable pub metadata_callback_run : (RkMessage → Bool) → Carrier H.Table → Outcome H.Table
  unfolding run_callback
  metadata_callback_run stored msg =
      callback_run (returns msg []) (returns msg []) (run_callback stored msg)
        (metadata_find H msg.table callback_key)

  abbrev free_table : Option H.Table → List Event
  free_table none = []
  free_table (some t) = all_free (metadata_free H (some t)) ++ (frees_table ∷ [])

  abbrev after_callback : Outcome H.Table → Outcome H.Table
  after_callback aborts = aborts
  after_callback faults = faults
  after_callback (returns msg es) =
      returns (record msg { payload = none })
        (es ++ (free_pointer msg.payload ++ free_table msg.table))

  -- The end of a round of `produce` in src/main.c, after `producer_produce`.
  unfoldable pub release : (RkMessage → Bool) → Carrier H.Table → Outcome H.Table
  unfolding after_callback free_table
  release stored msg = after_callback (metadata_callback_run stored msg)

  -- The branch of `hooklist_run` in src/hooks.c for a hook that refuses the message.
  unfoldable pub refuse : Carrier H.Table → Outcome H.Table
  unfolding free_table
  refuse msg =
      returns (record msg { payload = none; datalen = 0 })
        (free_pointer msg.payload ++ free_table msg.table)

-- An answer of `rd_kafka_produce` with `rd_kafka_last_error`.
pub data Answer : Type 0 where
  accepted queue_full refused : Answer

-- What the producer does: a call of `rd_kafka_produce` with these bytes, a wait for ten seconds for
-- room, a line in the log, and the call of `rd_kafka_poll` at the end.
pub data Sent : Type 0 where
  produces : List ℕ → Sent
  waits logs polls : Sent

-- `kafka_producer_produce`, with the answers of the library in turn: `none` where it has not
-- returned with these.
unfoldable pub kafka_producer_produce : List ℕ → List Answer → Option (List Sent)
kafka_producer_produce buf [] = none
kafka_producer_produce buf (accepted ∷ answers) = some (produces buf ∷ (polls ∷ []))
kafka_producer_produce buf (queue_full ∷ answers) =
    let rest = kafka_producer_produce buf answers in
    elim rest [ none ↦ none | some es ↦ some (produces buf ∷ (waits ∷ es)) ]
kafka_producer_produce buf (refused ∷ answers) = some (produces buf ∷ (logs ∷ (polls ∷ [])))
