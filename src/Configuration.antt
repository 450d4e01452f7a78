-- ===== src/Configuration.antt =====
-- src/utils/config.c: the validation of the whole configuration, and src/validator.c, which finds the
-- validators. What a validator does with the settings of its module, and the check of the logger,
-- are arguments.
pub mod Ready
pub mod Accepted
mod Tests
use schaufel.Common.{
  ℕ, Bool, true, false, ◌&&◌, not, Option, none, some, List, [], ◌∷◌, ◌++◌, ◌==◌, if◌then◌else◌,
  codes,
}
use schaufel.Connection.{Port}
use schaufel.Hooks.Config.{Kind, Entry, Member, QueueConfig, hooks_validate, queue_validate}

-- An element of `consumers` or `producers`: what its members are looked up as, and the settings of
-- its module.
pub record Instance (C S : Type 0) : Type 0 where
  pub threads : Option Port
  pub type_name : Option (List ℕ)
  pub hooks : Member C
  pub settings : S

-- `struct Validator`, whose functions may change the settings, and add instances to the list that the
-- settings are in: the verdict, the settings, and what is added.
pub record Validator (C S : Type 0) : Type 0 where
  pub validate_consumer : S → Bool × S × List (Instance C S)
  pub validate_producer : S → Bool × S × List (Instance C S)

-- The modules that have a validator.
pub record Validators (C S : Type 0) : Type 0 where
  pub dummy : Validator C S
  pub file : Validator C S
  pub exports : Validator C S
  pub postgres : Validator C S
  pub redis : Validator C S
  pub kafka : Validator C S

abbrev pub validator_of : {C S : Type 0} → Validators C S → ℕ → Option (Validator C S)
validator_of vs c =
    if c == 100
    then some vs.dummy
    else if c == 102
    then some vs.file
    else if c == 101
    then some vs.exports
    else if c == 112
    then some vs.postgres
    else if c == 114
    then some vs.redis
    else if c == 107
    then some vs.kafka
    else none

-- `validator_init`, by the first character of the name.
unfoldable pub validator_init : {C S : Type 0} → Validators C S → List ℕ → Option (Validator C S)
unfolding validator_of
validator_init vs [] = none
validator_init vs (c ∷ cs) = validator_of vs c

-- SCHAUFEL_TYPE_CONSUMER and SCHAUFEL_TYPE_PRODUCER.
pub data Side : Type 0 where
  consumers producers : Side

abbrev pub validate_with :
    {C S : Type 0} → Side → Validator C S → S → Bool × S × List (Instance C S)
validate_with consumers v = v.validate_consumer
validate_with producers v = v.validate_producer

-- An access through NULL, or the verdict with the instances afterwards.
pub data Checked (A : Type 0) : Type 0 where
  crashes : Checked A
  verdict : Bool → A → Checked A

-- `config_lookup_int(...) != CONFIG_TRUE || conf_i <= 0`, the other way round.
abbrev pub has_threads : Option Port → Bool
has_threads none = false
has_threads (some n) = not n.negative && not (n.size == 0)

abbrev pub has_type : Option (List ℕ) → Bool
has_type none = false
has_type (some s) = true

-- `conf_str` after the lookup of the type: it keeps its value where there is none.
abbrev pub known_type : Option (List ℕ) → Option (List ℕ) → Option (List ℕ)
known_type none old = old
known_type (some s) old = some s

abbrev pub is_list : {C : Type 0} → Member C → Bool
is_list none = true
is_list (some none) = false
is_list (some (some es)) = true

module _ {C H S : Type 0} (kinds : List (Kind C H)) (vs : Validators C S) (side : Side) where
  abbrev validated : Instance C S → List (Entry C) → S → Instance C S
  validated i hooks settings = record i { hooks = some (some hooks); settings = settings }

  abbrev extend :
      Bool → Instance C S → Checked (List (Instance C S)) → Checked (List (Instance C S))
  extend ok i crashes = crashes
  extend ok i (verdict rest is) = verdict (ok && rest) (i ∷ is)

  -- The body of the loop of `_thread_validate` from the validator on: `ok` is `ret`, `added` what the
  -- validators before have added to the end of the list, and `next` the rest of the loop.
  abbrev run_validator :
      Bool
      → Instance C S
      → List (Instance C S)
      → List (Instance C S)
      → List (Entry C)
      → (List (Instance C S) → Checked (List (Instance C S)))
      → Option (Validator C S)
      → Checked (List (Instance C S))
  run_validator ok i is added hooks next none =
      verdict false (validated i hooks i.settings ∷ (is ++ added))
  run_validator ok i is added hooks next (some v) =
      let (good, settings, more) = validate_with side v i.settings in
      let j = validated i hooks settings in
      if good
      then extend ok j (next (added ++ more))
      else verdict false (j ∷ (is ++ (added ++ more)))

  abbrev with_type :
      Bool
      → Instance C S
      → List (Instance C S)
      → List (Instance C S)
      → List (Entry C)
      → (List (Instance C S) → Checked (List (Instance C S)))
      → Option (List ℕ)
      → Checked (List (Instance C S))
  with_type ok i is added hooks next none = crashes
  with_type ok i is added hooks next (some s) =
      run_validator ok i is added hooks next (validator_init vs s)

  -- The loop of `_thread_validate`, over as many instances as there were at its start; `conf_str` is
  -- the type of the instance before.
  unfoldable pub validate_instances :
      Option (List ℕ) → List (Instance C S) → List (Instance C S) → Checked (List (Instance C S))
  unfolding validated extend run_validator with_type
  validate_instances conf_str added [] = verdict true added
  validate_instances conf_str added (i ∷ is) =
      let str = known_type i.type_name conf_str in
      let h = hooks_validate kinds i.hooks in
      if is_list i.hooks
      then with_type (has_threads i.threads && has_type i.type_name && h.0) i is added h.1
          (λ more. validate_instances str more is) str
      else verdict false (i ∷ (is ++ added))

  abbrev nonempty : List (Instance C S) → Checked (List (Instance C S))
  nonempty [] = verdict false []
  nonempty (i ∷ is) = validate_instances none [] (i ∷ is)

  -- `_thread_validate`: the list may be missing, or no list.
  unfoldable pub thread_validate :
      Option (Option (List (Instance C S))) → Checked (List (Instance C S))
  unfolding nonempty
  thread_validate none = verdict false []
  thread_validate (some none) = verdict false []
  thread_validate (some (some is)) = nonempty is

-- The parts of the configuration: what `logger_validate` says of the logger, if there is one, the
-- queue, which may be missing or no group, and the instances.
pub record Parts (C S : Type 0) : Type 0 where
  pub logger : Option Bool
  pub queue : Option (Option (QueueConfig C))
  pub consumer_list : Option (Option (List (Instance C S)))
  pub producer_list : Option (Option (List (Instance C S)))

-- What is left in the configuration: the hooks of the queue, and the instances.
pub record Loaded (C S : Type 0) : Type 0 where
  pub postadd : List (Entry C)
  pub preget : List (Entry C)
  pub consumer_instances : List (Instance C S)
  pub producer_instances : List (Instance C S)

-- A queue that is missing becomes an empty group.
abbrev pub queue_or_default :
    {C : Type 0} → Option (Option (QueueConfig C)) → Option (QueueConfig C)
queue_or_default none = some (record { postadd = none; preget = none })
queue_or_default (some q) = q

abbrev both_sides :
    {C S : Type 0}
    → Bool
    → List (Entry C)
    → List (Entry C)
    → Checked (List (Instance C S))
    → Checked (List (Instance C S))
    → Checked (Option (Loaded C S))
both_sides ok postadd preget crashes p = crashes
both_sides ok postadd preget (verdict c cs) crashes = crashes
both_sides ok postadd preget (verdict c cs) (verdict p ps) = verdict (ok && c && p) (
    some (record {
      postadd = postadd;
      preget = preget;
      consumer_instances = cs;
      producer_instances = ps;
    }))

abbrev with_logger :
    {C H S : Type 0}
    → List (Kind C H)
    → Validators C S
    → Parts C S
    → Option Bool
    → Checked (Option (Loaded C S))
with_logger kinds vs parts none = verdict false none
with_logger kinds vs parts (some logger) =
    let q = queue_validate kinds (queue_or_default parts.queue) in
    both_sides (logger && q.0) q.1 q.2 (thread_validate kinds vs consumers parts.consumer_list)
      (thread_validate kinds vs producers parts.producer_list)

-- `config_validate`.
unfoldable pub config_validate :
    {C H S : Type 0} → List (Kind C H) → Validators C S → Parts C S → Checked (Option (Loaded C S))
unfolding both_sides with_logger
config_validate kinds vs parts = with_logger kinds vs parts parts.logger
