-- ===== src/Kafka/Validate.antt =====
-- src/kafka.c: the validators of kafka consumers and producers, which also change the configuration.
-- What `regexec` matches is an argument.
pub mod Offsets
pub mod Topic
mod Tests
use schaufel.Common.{
  ℕ, Bool, true, false, Option, none, some, List, [], ◌∷◌, take, drop, if◌then◌else◌, codes,
}
use schaufel.Metadata.{is_found}
use schaufel.Connection.{show_int}
use schaufel.Settings.{
  Kind, group, list, string, int, bool, other, is_group, Library, config_create_path,
  config_set_default_string,
}

-- The two regular expressions: where the partitions of a topic begin, with their ':' and after it, if
-- there are any; and whether a string is a list of partitions.
pub record Regex : Type 0 where
  pub topic : List ℕ → Option (Option (ℕ × ℕ))
  pub partitions : List ℕ → Bool

-- An abort or an access through NULL, or the result with the configuration afterwards.
pub data Verdict (T : Type 0) : Type 0 where
  crashes : Verdict T
  rejects : T → Verdict T
  accepts : T → Verdict T

module _ (L : Library) where
  open L use {Tree, Node, kind, member, string_of, int_of, bool_of, add, remove, set_string}

  abbrev string_at : Tree → Option Node → Option (List ℕ)
  string_at t none = none
  string_at t (some m) = elim (kind t m) [ string ↦ string_of t m | _ ↦ none ]

  abbrev bool_at : Tree → Option Node → Option Bool
  bool_at t none = none
  bool_at t (some m) = elim (kind t m) [ bool ↦ some (bool_of t m) | _ ↦ none ]

  -- `config_setting_lookup_string` and `config_setting_lookup_bool`, of a single name.
  unfoldable pub lookup_string : Tree → Node → List ℕ → Option (List ℕ)
  unfolding string_at
  lookup_string t p n = string_at t (member t p n)

  unfoldable pub lookup_bool : Tree → Node → List ℕ → Option Bool
  unfolding bool_at
  lookup_bool t p n = bool_at t (member t p n)

  -- `config_setting_set_string` of a setting that was just added, or of NULL.
  abbrev set_added : List ℕ → Tree × Option Node → Option Tree
  set_added v (t, none) = none
  set_added v (t, some m) = some (set_string t m v)

  abbrev added_verdict : Option Tree → Verdict Tree
  added_verdict none = crashes
  added_verdict (some t) = accepts t

  -- The settings `partitions`, at the end of `kafka_validator`: an int is replaced by its digits.
  unfoldable pub check_partitions : Regex → Tree → Node → Option Node → Verdict Tree
  unfolding set_added added_verdict
  check_partitions re t c none = accepts t
  check_partitions re t c (some m) = elim (kind t m) [
    | string ↦ elim (string_of t m) [
      | none ↦ crashes
      | some p ↦ if re.partitions p then accepts t else rejects t
    ]
    | int ↦
        if (int_of t m).negative
        then rejects t
        else added_verdict (
            set_added (show_int (int_of t m))
              (add (remove t c (codes "partitions")) (some c) (codes "partitions") string))
    | _ ↦ rejects t
  ]

  abbrev then_partitions : Regex → Node → Option Tree → Verdict Tree
  then_partitions re c none = crashes
  then_partitions re c (some t) = check_partitions re t c (member t c (codes "partitions"))

  abbrev commit_member : Tree → Node → Option Node → Option Tree
  commit_member t k none =
      set_added (codes "false") (add t (some k) (codes "enable_auto_commit") string)
  commit_member t k (some m) = some (set_string t m (codes "false"))

  abbrev with_options : Regex → Tree → Node → Option Node → Verdict Tree
  with_options re t c none =
      let r = add t (some c) (codes "kafka_options") group in
      then_partitions re c
        (set_added (codes "false") (add r.0 r.1 (codes "enable_auto_commit") string))
  with_options re t c (some k) =
      if is_group (kind t k)
      then then_partitions re c (commit_member t k (member t k (codes "enable_auto_commit")))
      else rejects t

  -- Once "partitions" has been set: the automatic commit is switched off.
  unfoldable pub disable_commit : Regex → Node → Option Tree → Verdict Tree
  unfolding set_added then_partitions commit_member with_options
  disable_commit re c none = crashes
  disable_commit re c (some t) = with_options re t c (member t c (codes "kafka_options"))

  abbrev without_member : Regex → Tree → Node → List ℕ → Option Node → Verdict Tree
  without_member re t c parts (some m) = rejects t
  without_member re t c parts none =
      disable_commit re c (set_added parts (add t (some c) (codes "partitions") string))

  abbrev matched : Regex → Tree → Node → Node → List ℕ → Option (Option (ℕ × ℕ)) → Verdict Tree
  matched re t c m topic none = rejects t
  matched re t c m topic (some none) = then_partitions re c (some t)
  matched re t c m topic (some (some (i, j))) =
      let u = set_string t m (take i topic) in
      without_member re u c (drop j topic) (member u c (codes "partitions"))

  -- A topic with partitions is cut off before them, in the string itself.
  unfoldable pub check_topic : Regex → Tree → Node → Option Node → Verdict Tree
  unfolding then_partitions without_member matched
  check_topic re t c none = crashes
  check_topic re t c (some m) = elim (kind t m) [
    | string ↦ elim (string_of t m) [
      | none ↦ crashes
      | some topic ↦ matched re t c m topic (re.topic topic)
    ]
    | _ ↦ rejects t
  ]

  abbrev with_broker : Regex → Tree → Node → Option (List ℕ) → Verdict Tree
  with_broker re t c none = rejects t
  with_broker re t c (some broker) = check_topic re t c (member t c (codes "topic"))

  -- `kafka_validator`.
  unfoldable pub kafka_validator : Regex → Tree → Node → Verdict Tree
  unfolding with_broker
  kafka_validator re t c = with_broker re t c (lookup_string t c (codes "broker"))

  abbrev validate_set : Regex → Node → Option Tree → Verdict Tree
  validate_set re c none = crashes
  validate_set re c (some t) = kafka_validator re t c

  -- `config_set_default_string` of a member of what `config_create_path` returned.
  abbrev default_in : List ℕ → List ℕ → Option (Tree × Option Node) → Option Tree
  default_in name v none = none
  default_in name v (some (t, o)) = config_set_default_string L t o name v

  abbrev if_transactional : Regex → Tree → Node → Option (List ℕ) → Option Bool → Verdict Tree
  if_transactional re t c groupid none = kafka_validator re t c
  if_transactional re t c groupid (some false) = kafka_validator re t c
  if_transactional re t c none (some true) = rejects t
  if_transactional re t c (some g) (some true) = validate_set re c (
      default_in (codes "enable_auto_offset_store") (codes "false")
        (config_create_path L t (some c) (codes "kafka_options") group))

  abbrev with_group : Regex → Node → Option (List ℕ) → Option Tree → Verdict Tree
  with_group re c groupid none = crashes
  with_group re c groupid (some t) =
      if_transactional re t c groupid (lookup_bool t c (codes "transactional"))

  abbrev group_defaults : Tree → Node → Option (List ℕ) → Option Tree
  group_defaults t c (some g) = some t
  group_defaults t c none =
      config_set_default_string L t (some c) (codes "kafka_options/enable_auto_commit")
        (codes "false")

  -- `kafka_consumer_validator`.
  unfoldable pub kafka_consumer_validator : Regex → Tree → Node → Verdict Tree
  unfolding validate_set default_in if_transactional with_group group_defaults
  kafka_consumer_validator re t c =
      let groupid = lookup_string t c (codes "groupid") in
      with_group re c groupid (group_defaults t c groupid)

  -- "kafka_opts/transactional_id", of a path.
  abbrev producer_id : Tree → Option Node → Option (List ℕ)
  producer_id t none = none
  producer_id t (some k) = lookup_string t k (codes "transactional_id")

  abbrev without_id : Regex → Tree → Node → Option (List ℕ) → Verdict Tree
  without_id re t c none = kafka_validator re t c
  without_id re t c (some id) = rejects t

  abbrev producer_set : Regex → Node → Option Tree → Verdict Tree
  producer_set re c none = crashes
  producer_set re c (some t) = without_id re t c (producer_id t (member t c (codes "kafka_opts")))

  abbrev if_idempotent : Regex → Tree → Node → Option Bool → Verdict Tree
  if_idempotent re t c none = kafka_validator re t c
  if_idempotent re t c (some false) = kafka_validator re t c
  if_idempotent re t c (some true) = producer_set re c (
      default_in (codes "enable_idempotence") (codes "true")
        (config_create_path L t (some c) (codes "kafka_options") group))

  -- `kafka_producer_validator`.
  unfoldable pub kafka_producer_validator : Regex → Tree → Node → Verdict Tree
  unfolding default_in producer_id without_id producer_set if_idempotent
  kafka_producer_validator re t c = if_idempotent re t c (lookup_bool t c (codes "transactional"))
