-- ===== src/Kafka/Validate/Tests.antt =====
-- The validators of src/kafka.c on concrete configurations.
use schaufel.Common.{
  ℕ, ◌≡◌, refl, true, false, Option, none, some, List, ◌==◌, if◌then◌else◌, codes, ◌⊎◌,
}
use schaufel.JsonExport.{same_string}
use schaufel.Settings.{Kind, group, string, bool}
use schaufel.Settings.Store.{Cells, store}
use schaufel.Settings.Defaults.{Keeps}
use schaufel.Kafka.Validate.{
  Regex, accepts, lookup_string, lookup_bool, kafka_validator, kafka_consumer_validator,
}
use schaufel.Kafka.Validate.Topic.{HasString, kafka_validator_lem}
use schaufel.Kafka.Validate.Offsets.{transactional_options}

-- A group with the members `broker`, `topic`, `groupid` and `transactional`.
abbrev kind_of : ℕ → Kind
kind_of q = if q == 0 then group else if q == 4 then bool else string

abbrev string_of : ℕ → Option (List ℕ)
string_of q =
    if q == 1
    then some (codes "b")
    else if q == 2
    then some (codes "t:3")
    else if q == 3
    then some (codes "g")
    else none

abbrev edge : ℕ → List ℕ → Option ℕ
edge q j =
    if q == 0
    then if same_string (codes "broker") j
      then some 1
      else if same_string (codes "topic") j
      then some 2
      else if same_string (codes "groupid") j
      then some 3
      else if same_string (codes "transactional") j
      then some 4
      else none
    else none

abbrev given : Cells
given = record {
  next = 5;
  kinds = kind_of;
  edges = edge;
  strings = string_of;
  ints = λ q. record { negative = false; size = 0 };
  bools = λ q. true;
}

-- What `regexec` says of "t:3" and "3".
abbrev regex : Regex
regex = record { topic = λ s. some (some (1, 2)); partitions = λ s. true }

broker_given : lookup_string store given 0 (codes "broker") ≡ some (codes "b")
unfolding lookup_string
broker_given = refl

group_given : lookup_string store given 0 (codes "groupid") ≡ some (codes "g")
unfolding lookup_string
group_given = refl

transactional_given : lookup_bool store given 0 (codes "transactional") ≡ some true
unfolding lookup_bool
transactional_given = refl

kafka_validator_example :
    (u : Cells) × (k : ℕ) × (kafka_validator store regex given 0 ≡ accepts u)
    × HasString store u 0 (codes "topic") (codes "t")
    × HasString store u 0 (codes "partitions") (codes "3")
    × (store.member u 0 (codes "kafka_options") ≡ some k)
    × HasString store u k (codes "enable_auto_commit") (codes "false")
kafka_validator_example =
    kafka_validator_lem store regex given 0 (codes "b") (codes "t:3") 1 2 refl broker_given
      (2, refl, refl, refl) refl refl refl refl

transactional_options_example :
    ((m : ℕ) × (store.member given 0 (codes "kafka_options") ≡ some m)
      × (kafka_consumer_validator store regex given 0 ≡ kafka_validator store regex given 0))
    ⊎ ((t' : Cells) × (k : ℕ) × (leaf : ℕ) × (store.member given 0 (codes "kafka_options") ≡ none)
        × (kafka_consumer_validator store regex given 0 ≡ kafka_validator store regex t' 0)
        × Keeps store given t'
        × (store.member t' 0 (codes "kafka_options") ≡ some k)
        × (store.member t' k (codes "enable_auto_offset_store") ≡ some leaf)
        × (t'.strings leaf ≡ some (codes "false")))
transactional_options_example =
    transactional_options store regex given 0 (codes "g") refl group_given transactional_given
