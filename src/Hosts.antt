-- ===== src/Hosts.antt =====
-- The lists of hosts: `_delimit_by` and `parse_hostinfo_master` and `_replica` of src/utils/helper.c,
-- and `postgres_validate` of src/postgres.c, which makes an instance of each host. An array is the
-- list of its values, as in Array.Refine.
pub mod Pairs
mod Tests
use schaufel.Common.{
  ℕ, zero, suc, ◌-◌, Bool, true, false, ◌&&◌, Option, none, some, List, [], ◌∷◌, ◌++◌, length, ltb,
  ◌==◌, if◌then◌else◌,
}
use schaufel.Connection.{Port}
use schaufel.Metadata.{is_found}
use schaufel.Array.Refine.{get_elem?}

abbrev pub Str : Type 0
Str = List ℕ

-- An empty token is none.
abbrev pub emit : Str → List Str → List Str
emit [] ts = ts
emit (c ∷ cs) ts = (c ∷ cs) ∷ ts

-- The tokens that strtok_r finds, one after the other; `cur` is the one that has begun.
unfoldable pub tokens : ℕ → Str → Str → List Str
tokens d cur [] = emit cur []
tokens d cur (c ∷ cs) = elim (c == d) [
  | true ↦ emit cur (tokens d [] cs)
  | false ↦ tokens d (cur ++ (c ∷ [])) cs
]

abbrev pub array_or_null : List Str → Option (List Str)
array_or_null [] = none
array_or_null (t ∷ ts) = some (t ∷ ts)

-- `_delimit_by`, which gives NULL for NULL, and also where there is no token.
unfoldable pub delimit_by : ℕ → Option Str → Option (List Str)
delimit_by d none = none
delimit_by d (some s) = array_or_null (tokens d [] s)

-- `array_get` and `array_used`, of an array that may be NULL.
abbrev pub get_host : Option (List Str) → ℕ → Option Str
get_host none i = none
get_host (some xs) i = get_elem? xs i

abbrev pub used_hosts : Option (List Str) → ℕ
used_hosts none = 0
used_hosts (some xs) = length xs

-- By ';', and the first or the second part by ','.
unfoldable pub parse_hostinfo_master : Str → Option (List Str)
parse_hostinfo_master s = delimit_by 44 (get_host (delimit_by 59 (some s)) 0)

unfoldable pub parse_hostinfo_replica : Str → Option (List Str)
parse_hostinfo_replica s = delimit_by 44 (get_host (delimit_by 59 (some s)) 1)

-- The settings of a postgres instance, as strings and an int where they are such.
pub record Settings : Type 0 where
  pub host : Option Str
  pub threads : Option Port
  pub topic : Option Str
  pub replica : Option Str

-- An instance afterwards.
pub record Instance : Type 0 where
  pub host : Option Str
  pub topic : Str
  pub threads : Port
  pub replica : Option Str

-- The instance that was validated, and those that are added to the list of its parent.
pub data Validated : Type 0 where
  rejected : Validated
  valid : Instance → List Instance → Validated

abbrev replica_at : Option (List Str) → ℕ → Option Str
replica_at rs i = if ltb 0 (used_hosts rs) then get_host rs i else none

-- `for (int i = 1; i < m; ++i)`, with the rounds that are left.
abbrev pub added_from : Option (List Str) → Option (List Str) → Str → Port → ℕ → ℕ → List Instance
added_from ms rs topic threads zero i = []
added_from ms rs topic threads (suc n) i =
    (record { host = get_host ms i; topic = topic; threads = threads; replica = replica_at rs i })
    ∷ added_from ms rs topic threads n (suc i)

abbrev instances_of : Settings → Option (List Str) → Option (List Str) → Port → Str → Validated
instances_of c ms rs threads topic =
    if used_hosts ms == 0
    then rejected
    else valid
        (record {
          host = get_host ms 0;
          topic = topic;
          threads = threads;
          replica = if ltb 0 (used_hosts rs) then get_host rs 0 else c.replica;
        })
        (added_from ms rs topic threads (used_hosts ms - 1) 1)

abbrev with_topic : Settings → Option (List Str) → Option (List Str) → Port → Option Str → Validated
with_topic c ms rs threads none = rejected
with_topic c ms rs threads (some topic) =
    if is_found c.replica && ltb 0 (used_hosts rs)
    then rejected
    else instances_of c ms rs threads topic

abbrev with_threads : Settings → Str → Option Port → Validated
with_threads c hosts none = rejected
with_threads c hosts (some threads) =
    with_topic c (parse_hostinfo_master hosts) (parse_hostinfo_replica hosts) threads c.topic

abbrev with_hosts : Settings → Option Str → Validated
with_hosts c none = rejected
with_hosts c (some hosts) = with_threads c hosts c.threads

-- `postgres_validate`.
unfoldable pub postgres_validate : Settings → Validated
unfolding replica_at instances_of with_topic with_threads with_hosts
postgres_validate c = with_hosts c c.host
