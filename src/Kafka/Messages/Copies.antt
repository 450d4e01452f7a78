-- ===== src/Kafka/Messages/Copies.antt =====
-- The consumers of src/kafka.c that copy the payload.
use schaufel.Common.{
  ℕ, ◌+◌, ◌-◌, ◌%◌, ◌^◌, ◌<◌, ◌≡◌, refl, ap, Bool, true, false, none, some, [], ◌∷◌, ◌++◌, length,
  ltb, arith, ◌⊎◌, inl, inr,
}
use schaufel.Metadata.{HashTable, metadata_find, callback_run}
use schaufel.Kafka.Messages.{
  RespErr, no_error, partition_eof, unknown_partition, unknown_topic, other_error, RkMessage, block,
  Meta, frees, destroys, Carrier, Outcome, aborts, returns, copy_size, consume_error, consume_copy,
  consume_message, kafka_consumer_consume, kafka_simple_consumer_consume, metadata_callback_run,
  release, refuse,
}

copy_size-length : (n : ℕ) → n < 2 ^ 31 - 1 → copy_size n ≡ n + 1
copy_size-length n h =
    let w : n % 2 ^ 32 ≡ n = omega arith in
    let l : ltb n (2 ^ 31) ≡ true = ground arith in rw (w, l) refl

-- The message with a copy of the payload.
abbrev pub copied : {T : Type 0} → RkMessage → Carrier T → Carrier T
copied m msg = record msg {
  payload = some (block (m.payload ++ (0 ∷ [])));
  datalen = length m.payload;
}

consume_copy-run :
    {T : Type 0} (room : ℕ → Bool) (m : RkMessage) (msg : Carrier T)
    → length m.payload < 2 ^ 31 - 1
    → room (length m.payload + 1) ≡ true
    → consume_copy room m msg ≡ returns (copied m msg) (destroys m.addr ∷ [])
unfolding consume_copy
consume_copy-run room m msg small has =
    let k : ltb (length m.payload + 1) (length m.payload) ≡ false = ground arith in
    rw (copy_size-length (length m.payload) small, has, k) refl

-- How a message with each kind of error is consumed.
abbrev pub Consumes : {T : Type 0} → RespErr → RkMessage → Carrier T → Outcome T → Type 0
Consumes e m msg o =
    ((e ≡ no_error) × (o ≡ returns (copied m msg) (destroys m.addr ∷ [])))
    ⊎ (((e ≡ unknown_partition) ⊎ (e ≡ unknown_topic)) × (o ≡ aborts))
    ⊎ (((e ≡ partition_eof) ⊎ (e ≡ other_error)) × (o ≡ returns msg (destroys m.addr ∷ [])))

consume_message-cases :
    {T : Type 0} (good : RkMessage → Carrier T → Outcome T) (e : RespErr) (m : RkMessage)
    (msg : Carrier T)
    → good m msg ≡ returns (copied m msg) (destroys m.addr ∷ [])
    → Consumes e m msg (consume_message good e m msg)
unfolding consume_error
consume_message-cases good no_error m msg h = inl (refl, h)
consume_message-cases good partition_eof m msg h = inr (inr (inl refl, refl))
consume_message-cases good unknown_partition m msg h = inr (inl (inl refl, refl))
consume_message-cases good unknown_topic m msg h = inr (inl (inr refl, refl))
consume_message-cases good other_error m msg h = inr (inr (inr refl, refl))

-- A message of the library of less than 2 ^ 31 - 1 bytes, where there is memory for them and a NUL:
-- both consumers do the same, the simple one with a queue. Without an error they put a copy of the
-- payload, ended by a NUL, into the message; of an unknown partition or topic they abort; with any
-- other error they leave the message as it was. Where they return, the library's message is
-- destroyed once, and when the message without metadata is released at the end of a round of
-- `produce`, or refused by a hook, the copy is freed once and nothing else is.
pub kafka_consumer_consume_lem :
    (H : HashTable Meta) (stored : RkMessage → Bool) (room : ℕ → Bool) (m : RkMessage)
    (msg : Carrier H.Table)
    → length m.payload < 2 ^ 31 - 1
    → room (length m.payload + 1) ≡ true
    → msg.table ≡ none
    → Consumes m.err m msg (kafka_consumer_consume room (some m) msg)
      × (kafka_simple_consumer_consume room true (some m) msg
          ≡ kafka_consumer_consume room (some m) msg)
      × (d : Carrier H.Table) × (release H stored (copied m msg)
          ≡ returns d (frees (block (m.payload ++ (0 ∷ []))) ∷ []))
      × (d.payload ≡ none)
      × (e : Carrier H.Table) × (refuse H (copied m msg)
          ≡ returns e (frees (block (m.payload ++ (0 ∷ []))) ∷ []))
      × (e.payload ≡ none)
unfolding kafka_consumer_consume kafka_simple_consumer_consume release refuse metadata_callback_run
    metadata_find callback_run
kafka_consumer_consume_lem H stored room m msg small has fresh = (
  consume_message-cases (consume_copy room) m.err m msg (consume_copy-run room m msg small has),
  refl,
  record { payload = none; datalen = length m.payload; table = none },
  ap (λ t. release H stored (record (copied m msg) { table = t })) fresh,
  refl,
  record { payload = none; datalen = 0; table = none },
  ap (λ t. refuse H (record (copied m msg) { table = t })) fresh,
  refl,
)
