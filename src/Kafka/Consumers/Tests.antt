-- ===== src/Kafka/Consumers/Tests.antt =====
-- Consumers of src/kafka.c with concrete settings.
use schaufel.Common.{◌≡◌, refl, inl, inr, arith, true, false, some, [], ◌∷◌}
use schaufel.Kafka.Numbers.{IsNumber}
use schaufel.Kafka.Consumers.{Consumer, simple_consume, kafka_consumer_init}
use schaufel.Kafka.Consumers.Start.{settings, kafka_consumer_init-range}

zero-IsNumber : IsNumber 0 []
zero-IsNumber = ((omega arith, tt), inr refl, omega arith)

two-IsNumber : IsNumber 2 []
two-IsNumber = ((omega arith, tt), inl (omega arith), omega arith)

abbrev reads_three : Consumer
reads_three = record {
  topics = 0 ∷ 1 ∷ 2 ∷ [];
  started = 0 ∷ 1 ∷ 2 ∷ [];
  has_queue = true;
  subscribed = false;
  consume = simple_consume;
}

-- "0-2" and "2-0"
kafka_consumer_init-range_example :
    (kafka_consumer_init true (settings (some (48 ∷ 45 ∷ 50 ∷ []))) ≡ some reads_three)
    × (kafka_consumer_init true (settings (some (50 ∷ 45 ∷ 48 ∷ []))) ≡ some reads_three)
kafka_consumer_init-range_example =
    kafka_consumer_init-range true 0 [] 2 [] zero-IsNumber two-IsNumber (omega arith) (omega arith)
      (omega arith)
