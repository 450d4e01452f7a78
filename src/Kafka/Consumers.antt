-- ===== src/Kafka/Consumers.antt =====
-- src/kafka.c: how a consumer is started, and which function it consumes with.
pub mod Start
mod Tests
use schaufel.Common.{
  ℕ, ◌+◌, ◌^◌, ◌-◌, Bool, true, false, not, ◌&&◌, Option, none, some, List, [], ◌∷◌, ◌++◌, ltb,
  if◌then◌else◌,
}
use schaufel.Metadata.{HashTable, is_found}
use schaufel.Kafka.{Exploded, aborts, unfinished, partitions, explode_partitions}
use schaufel.Kafka.Messages.{
  RkMessage, Meta, Carrier, Outcome, kafka_consumer_consume, kafka_simple_consumer_consume,
  kafka_transactional_consumer_consume,
}

-- What `kafka_consumer_init` looks up: the group and the partitions, which may be missing.
pub record Config : Type 0 where
  pub groupid : Option (List ℕ)
  pub partition_list : Option (List ℕ)
  pub transactional : Bool

-- The function in `consume` of the consumer.
pub data Consume : Type 0 where
  group_consume transactional_consume simple_consume : Consume

-- What the code asks of the library: the partitions in the list of topics, those that it starts to
-- consume into the queue, whether there is a queue, and whether it subscribes. A partition is the bit
-- pattern of an int32_t.
pub record Consumer : Type 0 where
  pub topics : List ℕ
  pub started : List ℕ
  pub has_queue : Bool
  pub subscribed : Bool
  pub consume : Consume

-- `while((*partarray) > -1)`.
unfoldable pub until_negative : List ℕ → List ℕ
until_negative [] = []
until_negative (p ∷ ps) = let rest = until_negative ps in if ltb p (2 ^ 31) then p ∷ rest else []

abbrev chosen : Bool → Bool → Consume
chosen true false = group_consume
chosen _ true = transactional_consume
chosen false false = simple_consume

-- `kafka_consumer_meta_init` without partitions, and with an array of them, which ends on -1.
abbrev without_partitions : Config → Consumer
without_partitions c = record {
  topics = (2 ^ 32 - 1) ∷ [];
  started = [];
  has_queue = false;
  subscribed = is_found c.groupid;
  consume = chosen (is_found c.groupid) c.transactional;
}

abbrev with_partitions : Config → List ℕ → Consumer
with_partitions c ps =
    let rest = until_negative (ps ++ ((2 ^ 32 - 1) ∷ [])) in
    record {
      topics = rest;
      started = rest;
      has_queue = true;
      subscribed = is_found c.groupid;
      consume = chosen (is_found c.groupid) c.transactional;
    }

abbrev after_explode : Config → Exploded → Option Consumer
after_explode c aborts = none
after_explode c unfinished = none
after_explode c (partitions ps) = some (with_partitions c ps)

abbrev start_consumer : Config → Option (List ℕ) → Option Consumer
start_consumer c none = some (without_partitions c)
start_consumer c (some parts) = after_explode c (explode_partitions parts)

-- `kafka_consumer_init`, where the library can create what it is asked for; `subscribes` is whether
-- `rd_kafka_subscribe` succeeds. `none` is an abort.
unfoldable pub kafka_consumer_init : Bool → Config → Option Consumer
unfolding chosen without_partitions with_partitions after_explode start_consumer
kafka_consumer_init subscribes c =
    if is_found c.groupid && not subscribes then none else start_consumer c c.partition_list

-- `c->consume`, of `consumer_consume` in src/consumer.c.
unfoldable pub consumer_consume :
    (H : HashTable Meta)
    → (ℕ → Bool)
    → Consumer
    → Option RkMessage
    → Carrier H.Table
    → Outcome H.Table
consumer_consume H room c polled msg = elim c.consume [
  | group_consume ↦ kafka_consumer_consume room polled msg
  | transactional_consume ↦ kafka_transactional_consumer_consume H (room 1) polled msg
  | simple_consume ↦ kafka_simple_consumer_consume room c.has_queue polled msg
]
