-- ===== src/Kafka/Messages/Tests.antt =====
-- Messages of the library in concrete runs.
use schaufel.Common.{◌≡◌, refl, arith, true, false, none, some, [], ◌∷◌, ◌⊎◌}
use schaufel.Metadata.Assoc.{assoc_table}
use schaufel.Kafka.Messages.{
  no_error, RkMessage, block, payload_of, envelope, Meta, frees, destroys, stores, frees_table,
  Carrier, aborts, returns, accepted, refused, produces, logs, polls, kafka_consumer_consume,
  kafka_simple_consumer_consume, kafka_transactional_consumer_consume, kafka_producer_produce,
  release, refuse,
}
use schaufel.Kafka.Messages.Commits.{transactional_lem}
use schaufel.Kafka.Messages.Copies.{Consumes, copied, kafka_consumer_consume_lem}
use schaufel.Kafka.Messages.Retry.{full, retries, kafka_producer_produce_lem}
use schaufel.Metadata.{HashTable}

-- "ab", at offset 7 of partition 3.
abbrev polled : RkMessage
polled = record {
  addr = 50;
  err = no_error;
  payload = 97 ∷ 98 ∷ [];
  topic = 1;
  partition = 3;
  offset = 7;
}

abbrev table : HashTable Meta
table = assoc_table Meta

abbrev empty : Carrier table.Table
empty = record { payload = none; datalen = 0; table = none }

transactional_example :
    (c : Carrier table.Table) × (kafka_transactional_consumer_consume table true (some polled) empty
      ≡ returns c [])
    × (c.payload ≡ some (payload_of polled))
    × (c.datalen ≡ 2)
    × (◌⊎◌
        ((true ≡ true)
          × (d : Carrier table.Table) × (release table (λ m. true) c
              ≡ returns d (stores 1 3 7 ∷ destroys 50 ∷ frees_table ∷ []))
          × (d.payload ≡ none))
        ((true ≡ false) × (release table (λ m. true) c ≡ aborts)))
    × (d : Carrier table.Table) × (refuse table c
        ≡ returns d (frees (payload_of polled) ∷ frees (envelope polled) ∷ frees_table ∷ []))
transactional_example = transactional_lem table (λ m. true) polled empty refl refl

kafka_consumer_consume_example :
    Consumes no_error polled empty (kafka_consumer_consume (λ n. true) (some polled) empty)
    × (kafka_simple_consumer_consume (λ n. true) true (some polled) empty
        ≡ kafka_consumer_consume (λ n. true) (some polled) empty)
    × (d : Carrier table.Table) × (release table (λ m. true) (copied polled empty)
        ≡ returns d (frees (block (97 ∷ 98 ∷ 0 ∷ [])) ∷ []))
    × (d.payload ≡ none)
    × (e : Carrier table.Table) × (refuse table (copied polled empty)
        ≡ returns e (frees (block (97 ∷ 98 ∷ 0 ∷ [])) ∷ []))
    × (e.payload ≡ none)
kafka_consumer_consume_example =
    kafka_consumer_consume_lem table (λ m. true) (λ n. true) polled empty (omega arith) refl refl

kafka_producer_produce_example :
    (kafka_producer_produce (97 ∷ []) (full 2 []) ≡ none)
    × (kafka_producer_produce (97 ∷ []) (full 2 (accepted ∷ []))
        ≡ some (retries 2 (97 ∷ []) (produces (97 ∷ []) ∷ polls ∷ [])))
    × (kafka_producer_produce (97 ∷ []) (full 2 (refused ∷ []))
        ≡ some (retries 2 (97 ∷ []) (produces (97 ∷ []) ∷ logs ∷ polls ∷ [])))
kafka_producer_produce_example = kafka_producer_produce_lem (97 ∷ []) 2 []
