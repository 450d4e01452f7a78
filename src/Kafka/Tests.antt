-- ===== src/Kafka/Tests.antt =====
-- Runs of `explode_partitions` of src/kafka.c on concrete strings.
use schaufel.Common.{◌^◌, ◌-◌, ◌≡◌, ◌≢◌, refl, inl, inr, arith, [], ◌∷◌}
use schaufel.Kafka.{
  explode_partitions, explode_from, strtoul, skip_spaces, span_digits, push_range, aborts,
  unfinished, partitions,
}
use schaufel.Kafka.Partitions.{explode_partitions-ends}
use schaufel.Kafka.Numbers.{IsNumber}
use schaufel.Kafka.Assign.{explode_partitions-comma}

-- "9--"
explode_partitions-ends_example : explode_partitions (57 ∷ 45 ∷ 45 ∷ []) ≢ unfinished
explode_partitions-ends_example = explode_partitions-ends (57 ∷ 45 ∷ 45 ∷ [])

zero-IsNumber : IsNumber 0 []
zero-IsNumber = ((omega arith, tt), inr refl, omega arith)

five-IsNumber : IsNumber 5 []
five-IsNumber = ((omega arith, tt), inl (omega arith), omega arith)

-- "0,7" and "0-5,7"
explode_partitions-comma_example :
    (explode_partitions (48 ∷ 44 ∷ 55 ∷ []) ≡ aborts)
    × (explode_partitions (48 ∷ 45 ∷ 53 ∷ 44 ∷ 55 ∷ []) ≡ aborts)
explode_partitions-comma_example =
    explode_partitions-comma 0 [] 5 [] (55 ∷ []) zero-IsNumber five-IsNumber

-- "08": an octal 0, and then 8
leading_zero : explode_partitions (48 ∷ 56 ∷ []) ≡ partitions (0 ∷ 8 ∷ [])
unfolding explode_partitions explode_from strtoul skip_spaces span_digits push_range
leading_zero = refl

-- " 0x1f"
prefixed : explode_partitions (32 ∷ 48 ∷ 120 ∷ 49 ∷ 102 ∷ []) ≡ partitions (31 ∷ [])
unfolding explode_partitions explode_from strtoul skip_spaces span_digits push_range
prefixed = refl

-- "-1,"
negative : strtoul (45 ∷ 49 ∷ 44 ∷ []) ≡ (2 ^ 64 - 1, 44 ∷ [])
unfolding strtoul skip_spaces span_digits
negative = refl
