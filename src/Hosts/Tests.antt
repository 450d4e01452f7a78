-- ===== src/Hosts/Tests.antt =====
-- Two hosts and a replica.
use schaufel.Common.{◌≡◌, refl, arith, false, none, some, List, [], ◌∷◌, codes}
use schaufel.Connection.{Port}
use schaufel.Hosts.{Settings, Instance, valid, postgres_validate}
use schaufel.Hosts.Pairs.{instances, postgres_validate_lem}

abbrev two_threads : Port
two_threads = record { negative = false; size = 2 }

abbrev given : Settings
given = record {
  host = some (codes "a,b;c");
  threads = some two_threads;
  topic = some (codes "t");
  replica = none;
}

postgres_validate_example :
    (self : Instance) × (added : List Instance) × (postgres_validate given ≡ valid self added)
    × (self ∷ added
        ≡ instances
            (codes "t")
            two_threads
            ((codes "a", some (codes "c")) ∷ (codes "b", none) ∷ []))
postgres_validate_example =
    postgres_validate_lem given (codes "a") (codes "b" ∷ []) (codes "c" ∷ []) (codes "t")
      two_threads (omega arith) (omega arith) refl refl refl refl
