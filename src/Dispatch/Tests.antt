-- ===== src/Dispatch/Tests.antt =====
-- A dummy that starts, and a consumer for which there is no module.
use schaufel.Common.{ℕ, ◌≡◌, refl, true, false, Option, none, some, List, [], ◌∷◌, codes}
use schaufel.Hooks.Config.{Kind, hooks_validate, validate_list, queue_validate}
use schaufel.Configuration.{
  Instance, Validator, Validators, validator_init, validate_instances, thread_validate, verdict,
  consumers, producers, Parts, Loaded, config_validate,
}
use schaufel.Dispatch.{Consumers, Producers, null, consumer_start, consumer_init}
use schaufel.Dispatch.Started.{ConsumerStarts, ProducerStarts, ListStarts, start-config_validate}

abbrev accept : Validator ℕ ℕ
accept = record { validate_consumer = λ s. (true, s, []); validate_producer = λ s. (true, s, []) }

abbrev validators : Validators ℕ ℕ
validators = record {
  dummy = accept;
  file = accept;
  exports = accept;
  postgres = accept;
  redis = accept;
  kafka = accept;
}

abbrev start : ℕ → Option ℕ
start s = some s

abbrev consumer_modules : Consumers ℕ ℕ
consumer_modules = record { dummy = start; file = start; redis = start; kafka = start }

abbrev producer_modules : Producers ℕ ℕ
producer_modules = record {
  dummy = start;
  file = start;
  redis = start;
  exports = start;
  postgres = start;
  kafka = start;
}

abbrev no_hooks : List (Kind ℕ ℕ)
no_hooks = []

abbrev instance_of : List ℕ → Instance ℕ ℕ
instance_of name = record {
  threads = some (record { negative = false; size = 2 });
  type_name = some name;
  hooks = none;
  settings = 7;
}

abbrev validated : List ℕ → Instance ℕ ℕ
validated name = record (instance_of name) { hooks = some (some []) }

abbrev given : Parts ℕ ℕ
given = record {
  logger = some true;
  queue = none;
  consumer_list = some (some (instance_of (codes "dummy") ∷ instance_of (codes "exports") ∷ []));
  producer_list = some (some (instance_of (codes "exports") ∷ []));
}

abbrev left : Loaded ℕ ℕ
left = record {
  postadd = [];
  preget = [];
  consumer_instances = validated (codes "dummy") ∷ validated (codes "exports") ∷ [];
  producer_instances = validated (codes "exports") ∷ [];
}

given_accepted : config_validate no_hooks validators given ≡ verdict true (some left)
unfolding config_validate thread_validate validate_instances validator_init hooks_validate
    validate_list queue_validate
given_accepted = refl

start-config_validate_example :
    ListStarts no_hooks validators consumers
      (ConsumerStarts no_hooks consumer_modules)
      given.consumer_list
      left.consumer_instances
    × ListStarts no_hooks validators producers
        (ProducerStarts no_hooks producer_modules)
        given.producer_list
        left.producer_instances
start-config_validate_example =
    start-config_validate no_hooks validators consumer_modules producer_modules given left
      ((tt, tt), (tt, (tt, tt)), (tt, tt)) ((_, refl), (tt, tt)) ((_, refl), tt) given_accepted

no_module : consumer_start no_hooks consumer_modules (some (codes "exports")) 7 none ≡ null
unfolding consumer_start consumer_init
no_module = refl
