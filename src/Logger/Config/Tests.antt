-- ===== src/Logger/Config/Tests.antt =====
-- The settings of loggers.
use schaufel.Common.{ℕ, ◌≡◌, refl, true, none, some, List, [], ◌∷◌, codes}
use schaufel.Logger.Config.{Config, facility_value, logger_validate, exits, logger_init}
use schaufel.Logger.Config.Started.{Starts, logger_init_lem}

abbrev facilities : List (List ℕ × ℕ)
facilities = (codes "daemon", 24) ∷ (codes "user", 8) ∷ []

abbrev to_syslog : Config
to_syslog = record {
  type_name = some (codes "syslog");
  mode = none;
  file = none;
  facility = some (some (codes "local9"));
  ident = none;
}

abbrev with_ident : Config
with_ident = record to_syslog { ident = some (some (codes "schaufel")) }

-- A facility that does not exist is accepted.
facility_accepted : logger_validate facilities to_syslog ≡ some with_ident
unfolding logger_validate facility_value
facility_accepted = refl

logger_init_example : Starts facilities (codes "syslog") with_ident
logger_init_example =
    logger_init_lem facilities to_syslog with_ident (codes "syslog") refl refl facility_accepted

abbrev capitals : Config
capitals = record to_syslog { type_name = some (codes "STDERR") }

-- A type in capitals is accepted, and the process exits.
capitals_accepted : logger_validate facilities capitals ≡ some capitals
unfolding logger_validate
capitals_accepted = refl

capitals_exit : logger_init facilities true capitals ≡ exits
unfolding logger_init
capitals_exit = refl
