-- ===== src/Configuration/Tests.antt =====
-- A configuration with hooks, a dummy consumer and a producer for two hosts of postgres.
use schaufel.Common.{
  ℕ, ◌≡◌, refl, Bool, true, false, none, some, List, [], ◌∷◌, codes, ◌+◌, ◌==◌, if◌then◌else◌,
}
use schaufel.Connection.{Port}
use schaufel.Hosts.{postgres_validate}
use schaufel.Hosts
use schaufel.Hooks.Config.{
  Kind, Entry, hooks_register, find_hook, hooks_validate, validate_list, queue_validate,
}
use schaufel.Configuration.{
  Instance, Validator, Validators, validator_init, validate_instances, thread_validate, crashes,
  verdict, consumers, Parts, Loaded, config_validate,
}
use schaufel.Configuration.Accepted.{IsSoundConfig, Works, config_validate_lem}

abbrev accept : Validator ℕ Hosts.Settings
accept = record { validate_consumer = λ s. (true, s, []); validate_producer = λ s. (true, s, []) }

-- What `postgres_validate` of Hosts leaves and adds.
abbrev settings_of : Hosts.Instance → Hosts.Settings
settings_of i = record {
  host = i.host;
  threads = some i.threads;
  topic = some i.topic;
  replica = i.replica;
}

abbrev added_of : List Hosts.Instance → List (Instance ℕ Hosts.Settings)
added_of [] = []
added_of (i ∷ is) =
    (record {
      threads = some i.threads;
      type_name = some (codes "postgres");
      hooks = none;
      settings = settings_of i;
    })
    ∷ added_of is

abbrev verdict_of :
    Hosts.Settings → Hosts.Validated → Bool × Hosts.Settings × List (Instance ℕ Hosts.Settings)
verdict_of s Hosts.rejected = (false, s, [])
verdict_of s (Hosts.valid self added) = (true, settings_of self, added_of added)

abbrev hosts : Validator ℕ Hosts.Settings
hosts = record {
  validate_consumer = λ s. verdict_of s (postgres_validate s);
  validate_producer = λ s. verdict_of s (postgres_validate s);
}

abbrev modules : Validators ℕ Hosts.Settings
modules = record {
  dummy = accept;
  file = accept;
  exports = accept;
  postgres = hosts;
  redis = accept;
  kafka = accept;
}

abbrev two_threads : Port
two_threads = record { negative = false; size = 2 }

abbrev host_settings : List ℕ → Hosts.Settings
host_settings host = record {
  host = some host;
  threads = some two_threads;
  topic = some (codes "t");
  replica = none;
}

abbrev instance_of : List ℕ → List ℕ → Instance ℕ Hosts.Settings
instance_of name host = record {
  threads = some two_threads;
  type_name = some name;
  hooks = none;
  settings = host_settings host;
}

abbrev validated : List ℕ → List ℕ → Instance ℕ Hosts.Settings
validated name host = record (instance_of name host) { hooks = some (some []) }

-- A hook accepts what is not 0 and adds 1; it is the number of its settings, and there is none of 9.
abbrev plain : Kind ℕ ℕ
plain = record {
  name = [];
  validate = λ c. (if c == 0 then (false, c) else (true, c + 1));
  init = λ c. (if c == 9 then none else some c);
}

abbrev hook_kinds : List (Kind ℕ ℕ)
hook_kinds = hooks_register plain plain plain

abbrev xmark_entry : ℕ → Entry ℕ
xmark_entry c = record { type_name = some (some (codes "xmark")); body = c }

abbrev parts : Parts ℕ Hosts.Settings
parts = record {
  logger = some true;
  queue = some (some (record { postadd = some (some (xmark_entry 5 ∷ [])); preget = none }));
  consumer_list = some (
      some (
        record (instance_of (codes "dummy") []) { hooks = some (some (xmark_entry 7 ∷ [])) } ∷ []));
  producer_list = some (some (instance_of (codes "postgres") (codes "a,b") ∷ []));
}

-- The instance for the second host has no list of hooks.
abbrev loaded : Loaded ℕ Hosts.Settings
loaded = record {
  postadd = xmark_entry 6 ∷ [];
  preget = [];
  consumer_instances =
      record (instance_of (codes "dummy") []) { hooks = some (some (xmark_entry 8 ∷ [])) } ∷ [];
  producer_instances =
      validated (codes "postgres") (codes "a") ∷ instance_of (codes "postgres") (codes "b") ∷ [];
}

parts_accepted : config_validate hook_kinds modules parts ≡ verdict true (some loaded)
unfolding config_validate thread_validate validate_instances validator_init hooks_validate
    validate_list queue_validate find_hook postgres_validate Hosts.parse_hostinfo_master
    Hosts.parse_hostinfo_replica Hosts.delimit_by Hosts.tokens
parts_accepted = refl

parts-IsSoundConfig : IsSoundConfig hook_kinds parts
unfolding find_hook
parts-IsSoundConfig = (((λ v. (_, refl), tt), tt), ((λ v. (_, refl), tt), tt), (tt, tt))

config_validate_example : Works hook_kinds modules parts loaded
config_validate_example =
    config_validate_lem hook_kinds modules parts loaded parts-IsSoundConfig parts_accepted

-- A first instance without a type.
untyped :
    thread_validate hook_kinds modules consumers
      (some (some (record (instance_of [] []) { type_name = none } ∷ [])))
    ≡ crashes
unfolding thread_validate validate_instances hooks_validate validate_list
untyped = refl
