-- ===== src/Kafka/Consumers/Start.antt =====
-- What the consumers of src/kafka.c start with.
use schaufel.Common.{
  ℕ, zero, suc, ◌+◌, ◌-◌, ◌%◌, ◌^◌, ◌≤◌, ◌<◌, ◌≡◌, refl, ap, ◌∙◌, Bool, true, false, Option, none,
  some, List, [], ◌∷◌, ◌++◌, ltb, arith,
}
use schaufel.Timestamp.Digits.{chars, value_from}
use schaufel.Metadata.{HashTable}
use schaufel.Kafka.Numbers.{IsNumber}
use schaufel.Kafka.Assign.{range, explode_partitions-range}
use schaufel.Kafka.Messages.{RkMessage, Meta, Carrier, faults, kafka_simple_consumer_consume}
use schaufel.Kafka.Consumers.{
  Config, Consumer, simple_consume, until_negative, after_explode, kafka_consumer_init,
  consumer_consume,
}

until_negative-range :
    (n a : ℕ) → a + n ≤ 2 ^ 31 → until_negative (range n a ++ ((2 ^ 32 - 1) ∷ [])) ≡ range n a
unfolding until_negative
until_negative-range zero a h = refl
until_negative-range (suc n) a h =
    let l : ltb (a % 2 ^ 32) (2 ^ 31) ≡ true = ground arith in
    rw (l, until_negative-range n (a + 1) (omega arith)) refl

abbrev pub settings : Option (List ℕ) → Config
settings parts = record { groupid = none; partition_list = parts; transactional = false }

-- A consumer without a group, and not transactional, that is assigned a range of decimal numbers below
-- 2 ^ 31, without leading zeros, and fewer than 8191 of them, whichever of the bounds comes first:
-- `kafka_consumer_init` starts to consume just these
-- partitions, in ascending order, into a queue, from which the consumer reads, and does not
-- subscribe.
pub kafka_consumer_init-range :
    (subscribes : Bool) (d : ℕ) (ds : List ℕ) (e : ℕ) (es : List ℕ)
    → IsNumber d ds
    → IsNumber e es
    → value_from 0 (d ∷ ds) ≤ value_from 0 (e ∷ es)
    → value_from 0 (e ∷ es) - value_from 0 (d ∷ ds) < 8190
    → value_from 0 (e ∷ es) < 2 ^ 31
    → let a = value_from 0 (d ∷ ds) in
      let b = value_from 0 (e ∷ es) in
      let started : Option Consumer = some (record {
        topics = range (b + 1 - a) a;
        started = range (b + 1 - a) a;
        has_queue = true;
        subscribed = false;
        consume = simple_consume;
      }) in
      (kafka_consumer_init subscribes (settings (some (chars (d ∷ ds) ++ (45 ∷ chars (e ∷ es)))))
        ≡ started)
      × (kafka_consumer_init subscribes (settings (some (chars (e ∷ es) ++ (45 ∷ chars (d ∷ ds)))))
          ≡ started)
unfolding kafka_consumer_init
kafka_consumer_init-range subscribes d ds e es nd ne le few small =
    let a = value_from 0 (d ∷ ds) in
    let b = value_from 0 (e ∷ es) in
    let (up, down) = explode_partitions-range d ds e es nd ne le few in
    let kept = until_negative-range (b + 1 - a) a (omega arith) in
    (
      ap (after_explode (settings none)) up ∙ rw kept refl,
      ap (after_explode (settings none)) down ∙ rw kept refl,
    )

-- Without a group, without partitions and not transactional a consumer starts, but the first call
-- of its `consume` reads from a queue that is NULL, whatever the library would have for it.
pub kafka_consumer_init-no_queue :
    (H : HashTable Meta) (room : ℕ → Bool) (subscribes : Bool) (polled : Option RkMessage)
    (msg : Carrier H.Table)
    → (c : Consumer) × (kafka_consumer_init subscribes (settings none) ≡ some c)
      × (consumer_consume H room c polled msg ≡ faults)
unfolding kafka_consumer_init consumer_consume kafka_simple_consumer_consume
kafka_consumer_init-no_queue H room subscribes polled msg = (_, refl, refl)
