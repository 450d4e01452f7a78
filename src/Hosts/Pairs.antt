-- ===== src/Hosts/Pairs.antt =====
-- The instances that `postgres_validate` of src/postgres.c makes of a list of hosts.
use schaufel.Common.{
  ℕ, zero, suc, ◌-◌, ◌≡◌, ◌≢◌, refl, sym, ap, ◌∙◌, true, false, Option, none, some, List, [], ◌∷◌,
  ◌++◌, length, drop, ltb, ◌==◌, if◌then◌else◌, ◌&&◌, All, ◌⊎◌, inl, inr, arith,
}
use mathlib.Core.List.{append-nil, append_assoc}
use schaufel.Connection.{Port}
use schaufel.Array.Refine.{get_elem?}
use schaufel.Metadata.{is_found}
use schaufel.Hosts.{
  Str, emit, tokens, array_or_null, delimit_by, get_host, used_hosts, parse_hostinfo_master,
  parse_hostinfo_replica, Settings, Instance, rejected, valid, replica_at, added_from, instances_of,
  with_topic, with_threads, with_hosts, postgres_validate,
}

-- The names with a separator between them.
abbrev pub join : ℕ → List Str → Str
join d [] = []
join d (n ∷ []) = n
join d (n ∷ m ∷ ns) = n ++ (d ∷ join d (m ∷ ns))

-- A name has a character, and neither ',' nor ';'.
abbrev pub IsHost : Str → Type 0
IsHost [] = ⊥
IsHost (c ∷ cs) = All (λ c. (c ≢ 44) × (c ≢ 59)) (c ∷ cs)

abbrev Lacks : ℕ → Str → Type 0
Lacks d s = All (λ c. c ≢ d) s

tokens_separator : (d : ℕ) (cur rest : Str) → tokens d cur (d ∷ rest) ≡ emit cur (tokens d [] rest)
unfolding tokens
tokens_separator d cur rest = ground arith

tokens_other :
    (d : ℕ) (cur : Str) (c : ℕ) (cs : Str)
    → c ≢ d
    → tokens d cur (c ∷ cs) ≡ tokens d (cur ++ (c ∷ [])) cs
unfolding tokens
tokens_other d cur c cs h = ground arith

tokens-append :
    (d : ℕ) (cur s rest : Str) → Lacks d s → tokens d cur (s ++ rest) ≡ tokens d (cur ++ s) rest
tokens-append d cur [] rest h = ap (λ x. tokens d x rest) (sym (append-nil cur))
tokens-append d cur (c ∷ s) rest h =
    tokens_other d cur c (s ++ rest) h.0
    ∙ (tokens-append d (cur ++ (c ∷ [])) s rest h.1
        ∙ ap (λ x. tokens d x rest) (append_assoc cur (c ∷ []) s))

emit-host : (n : Str) (ts : List Str) → IsHost n → emit n ts ≡ n ∷ ts
emit-host [] ts h = absurd h
emit-host (c ∷ cs) ts h = refl

host-Lacks : (n : Str) → All (λ c. (c ≢ 44) × (c ≢ 59)) n → Lacks 44 n × Lacks 59 n
host-Lacks [] h = (tt, tt)
host-Lacks (c ∷ cs) h = let (a, b) = host-Lacks cs h.1 in ((h.0.0, a), (h.0.1, b))

IsHost-Lacks : (n : Str) → IsHost n → Lacks 44 n × Lacks 59 n
IsHost-Lacks [] h = absurd h
IsHost-Lacks (c ∷ cs) h = host-Lacks (c ∷ cs) h

-- A token that ends on the separator, and the last one.
tokens-next :
    (d : ℕ) (n rest : Str)
    → IsHost n
    → Lacks d n
    → tokens d [] (n ++ (d ∷ rest)) ≡ n ∷ tokens d [] rest
tokens-next d n rest h l =
    tokens-append d [] n (d ∷ rest) l
    ∙ (tokens_separator d n rest ∙ emit-host n (tokens d [] rest) h)

tokens-last : (d : ℕ) (n : Str) → IsHost n → Lacks d n → tokens d [] n ≡ n ∷ []
unfolding tokens
tokens-last d n h l =
    ap (tokens d []) (sym (append-nil n)) ∙ (tokens-append d [] n [] l ∙ emit-host n [] h)

tokens-join : (ns : List Str) → All IsHost ns → tokens 44 [] (join 44 ns) ≡ ns
unfolding tokens
tokens-join [] h = refl
tokens-join (n ∷ []) h = tokens-last 44 n h.0 (IsHost-Lacks n h.0).0
tokens-join (n ∷ m ∷ ns) h =
    tokens-next 44 n (join 44 (m ∷ ns)) h.0 (IsHost-Lacks n h.0).0
    ∙ ap (λ l. n ∷ l) (tokens-join (m ∷ ns) h.1)

append-Lacks : (d : ℕ) (s t : Str) → Lacks d s → Lacks d t → Lacks d (s ++ t)
append-Lacks d [] t h k = k
append-Lacks d (c ∷ s) t h k = (h.0, append-Lacks d s t h.1 k)

-- The names of a list have no ';' between them.
join-Lacks : (ns : List Str) → All IsHost ns → Lacks 59 (join 44 ns)
join-Lacks [] h = tt
join-Lacks (n ∷ []) h = (IsHost-Lacks n h.0).1
join-Lacks (n ∷ m ∷ ns) h =
    append-Lacks 59 n (44 ∷ join 44 (m ∷ ns)) (IsHost-Lacks n h.0).1
      (omega arith, join-Lacks (m ∷ ns) h.1)

emit-join :
    (n : Str) (ns : List Str) (ts : List Str)
    → All IsHost (n ∷ ns)
    → emit (join 44 (n ∷ ns)) ts ≡ join 44 (n ∷ ns) ∷ ts
emit-join [] ns ts h = absurd h.0
emit-join (c ∷ cs) [] ts h = refl
emit-join (c ∷ cs) (m ∷ ns) ts h = refl

-- The string for hosts, and for replicas if there are any.
abbrev pub hostinfo : List Str → List Str → Str
hostinfo ms [] = join 44 ms
hostinfo ms (r ∷ rs) = join 44 ms ++ (59 ∷ join 44 (r ∷ rs))

parts : List Str → List Str → List Str
parts ms [] = join 44 ms ∷ []
parts ms (r ∷ rs) = join 44 ms ∷ join 44 (r ∷ rs) ∷ []

tokens-hostinfo :
    (m : Str) (ms rs : List Str)
    → All IsHost (m ∷ ms)
    → All IsHost rs
    → tokens 59 [] (hostinfo (m ∷ ms) rs) ≡ parts (m ∷ ms) rs
unfolding parts tokens
tokens-hostinfo m ms [] h k =
    ap (tokens 59 []) (sym (append-nil (join 44 (m ∷ ms))))
    ∙ (tokens-append 59 [] (join 44 (m ∷ ms)) [] (join-Lacks (m ∷ ms) h) ∙ emit-join m ms [] h)
tokens-hostinfo m ms (r ∷ rs) h k =
    tokens-append 59 [] (join 44 (m ∷ ms)) (59 ∷ join 44 (r ∷ rs)) (join-Lacks (m ∷ ms) h)
    ∙ (tokens_separator 59 (join 44 (m ∷ ms)) (join 44 (r ∷ rs))
        ∙ (emit-join m ms _ h
            ∙ ap (λ l. join 44 (m ∷ ms) ∷ l)
                (ap (tokens 59 []) (sym (append-nil (join 44 (r ∷ rs))))
                  ∙ (tokens-append 59 [] (join 44 (r ∷ rs)) [] (join-Lacks (r ∷ rs) k)
                      ∙ emit-join r rs [] k))))

first_part :
    (m : Str) (ms rs : List Str)
    → delimit_by 44 (get_host (array_or_null (parts (m ∷ ms) rs)) 0)
      ≡ array_or_null (tokens 44 [] (join 44 (m ∷ ms)))
unfolding delimit_by parts
first_part m ms [] = refl
first_part m ms (r ∷ rs) = refl

parse_master :
    (m : Str) (ms rs : List Str)
    → All IsHost (m ∷ ms)
    → All IsHost rs
    → parse_hostinfo_master (hostinfo (m ∷ ms) rs) ≡ some (m ∷ ms)
unfolding parse_hostinfo_master delimit_by parts
parse_master m ms rs h k =
    ap (λ l. delimit_by 44 (get_host (array_or_null l) 0)) (tokens-hostinfo m ms rs h k)
    ∙ (first_part m ms rs ∙ ap array_or_null (tokens-join (m ∷ ms) h))

parse_replica :
    (m : Str) (ms rs : List Str)
    → All IsHost (m ∷ ms)
    → All IsHost rs
    → parse_hostinfo_replica (hostinfo (m ∷ ms) rs) ≡ array_or_null rs
unfolding parse_hostinfo_replica delimit_by parts
parse_replica m ms [] h k =
    ap (λ l. delimit_by 44 (get_host (array_or_null l) 1)) (tokens-hostinfo m ms [] h k)
parse_replica m ms (r ∷ rs) h k =
    ap (λ l. delimit_by 44 (get_host (array_or_null l) 1)) (tokens-hostinfo m ms (r ∷ rs) h k)
    ∙ ap array_or_null (tokens-join (r ∷ rs) k)

-- Each host with the replica at the same place, if there is one.
abbrev pub pair_up : List Str → List Str → List (Str × Option Str)
pair_up [] rs = []
pair_up (m ∷ ms) [] = (m, none) ∷ pair_up ms []
pair_up (m ∷ ms) (r ∷ rs) = (m, some r) ∷ pair_up ms rs

abbrev pub instance_with : Str → Str → Port → Option Str → Instance
instance_with m topic threads r = record {
  host = some m;
  topic = topic;
  threads = threads;
  replica = r;
}

abbrev pub instances : Str → Port → List (Str × Option Str) → List Instance
instances topic threads [] = []
instances topic threads ((m, r) ∷ ps) = instance_with m topic threads r ∷ instances topic threads ps

get-array_or_null : (rs : List Str) (i : ℕ) → get_host (array_or_null rs) i ≡ get_elem? rs i
get-array_or_null [] i = refl
get-array_or_null (r ∷ rs) i = refl

replica-get : (rs : List Str) (i : ℕ) → replica_at (array_or_null rs) i ≡ get_elem? rs i
replica-get [] i = refl
replica-get (r ∷ rs) i = let b : ltb 0 (suc (length rs)) ≡ true = ground arith in rw b refl

drop-get :
    (xs : List Str) (i : ℕ)
    → ((drop i xs ≡ []) × (drop (suc i) xs ≡ []) × (get_elem? xs i ≡ none))
      ⊎ ((y : Str) × (drop i xs ≡ y ∷ drop (suc i) xs) × (get_elem? xs i ≡ some y))
drop-get [] zero = inl (refl, refl, refl)
drop-get [] (suc i) = inl (refl, refl, refl)
drop-get (x ∷ xs) zero = inr (x, refl, refl)
drop-get (x ∷ xs) (suc i) = drop-get xs i

added-instances :
    (ms rs : List Str) (topic : Str) (threads : Port) (n i : ℕ)
    → length (drop i ms) ≡ n
    → added_from (some ms) (array_or_null rs) topic threads n i
      ≡ instances topic threads (pair_up (drop i ms) (drop i rs))
added-instances ms rs topic threads zero i h = elim (drop-get ms i) [
  | inl (e, _, _) ↦ rw e refl
  | inr (y, e, _) ↦ absurd (omega (arith, ap length e))
]
added-instances ms rs topic threads (suc n) i h = elim (drop-get ms i) [
  | inl (e, _, _) ↦ absurd (omega (arith, ap length e))
  | inr (y, e, g) ↦
      let rest = added-instances ms rs topic threads n (suc i) (omega (arith, h, ap length e)) in
      elim (drop-get rs i) [
        | inl (f, f', k) ↦ rw (e, f, g, replica-get rs i, k, rest, f') refl
        | inr (r, f, k) ↦ rw (e, f, g, replica-get rs i, k, rest) refl
      ]
]

-- The instance that is validated, where it had no replica before.
abbrev self_of : Settings → Str → List Str → List Str → Str → Port → Instance
self_of c m ms rs topic threads = record {
  host = some m;
  topic = topic;
  threads = threads;
  replica =
      if ltb 0 (used_hosts (array_or_null rs)) then get_host (array_or_null rs) 0 else c.replica;
}

all-instances :
    (c : Settings) (m : Str) (ms rs : List Str) (topic : Str) (threads : Port)
    → c.replica ≡ none
    → self_of c m ms rs topic threads
        ∷ added_from (some (m ∷ ms)) (array_or_null rs) topic threads (length ms) 1
      ≡ instances topic threads (pair_up (m ∷ ms) rs)
all-instances c m ms [] topic threads e =
    ap
      (λ o.
        (record { host = some m; topic = topic; threads = threads; replica = o })
        ∷ added_from (some (m ∷ ms)) none topic threads (length ms) 1)
      e
    ∙ ap (λ l. instance_with m topic threads none ∷ l)
        (added-instances (m ∷ ms) [] topic threads (length ms) 1 refl)
all-instances c m ms (r ∷ rs) topic threads e =
    let b : ltb 0 (suc (length rs)) ≡ true = ground arith in
    rw b (
      ap (λ l. instance_with m topic threads (some r) ∷ l)
        (added-instances (m ∷ ms) (r ∷ rs) topic threads (length ms) 1 refl))

instances_of-run :
    (c : Settings) (m : Str) (ms rs : List Str) (topic : Str) (threads : Port)
    → instances_of c (some (m ∷ ms)) (array_or_null rs) threads topic
      ≡ valid
          (self_of c m ms rs topic threads)
          (added_from (some (m ∷ ms)) (array_or_null rs) topic threads (length ms) 1)
instances_of-run c m ms rs topic threads =
    let n : (suc (length ms) == 0) ≡ false = ground arith in
    let k : suc (length ms) - 1 ≡ length ms = omega arith in
    rw n (
      ap
        (λ j.
          valid (self_of c m ms rs topic threads)
            (added_from (some (m ∷ ms)) (array_or_null rs) topic threads j 1))
        k)

-- Settings with a topic, a number of threads and no replica, whose host is a list of hosts with ','
-- between them, followed by ';' and such a list of replicas if there are any: `postgres_validate`
-- accepts them, and the instance and those that it adds after it are one for each host, in order, each
-- with the same topic and number of threads, and with the replica at the same place of the second
-- list, if it is as long; surplus replicas are dropped.
pub postgres_validate_lem :
    (c : Settings) (m : Str) (ms rs : List Str) (topic : Str) (threads : Port)
    → All IsHost (m ∷ ms)
    → All IsHost rs
    → c.host ≡ some (hostinfo (m ∷ ms) rs)
    → c.threads ≡ some threads
    → c.topic ≡ some topic
    → c.replica ≡ none
    → (self : Instance) × (added : List Instance) × (postgres_validate c ≡ valid self added)
      × (self ∷ added ≡ instances topic threads (pair_up (m ∷ ms) rs))
unfolding postgres_validate
postgres_validate_lem c m ms rs topic threads h k host thr top rep =
    let hosts = hostinfo (m ∷ ms) rs in
    (
      _,
      _,
      ap (with_hosts c) host
          ∙ (ap (with_threads c hosts) thr
              ∙ (ap (λ x. with_topic c x (parse_hostinfo_replica hosts) threads c.topic)
                    (parse_master m ms rs h k)
                  ∙ (ap (λ x. with_topic c (some (m ∷ ms)) x threads c.topic)
                        (parse_replica m ms rs h k)
                      ∙ (ap (with_topic c (some (m ∷ ms)) (array_or_null rs) threads) top
                          ∙ (ap
                                (λ o.
                                  if is_found o && ltb 0 (used_hosts (array_or_null rs))
                                  then rejected
                                  else instances_of c (some (m ∷ ms)) (array_or_null rs) threads
                                      topic)
                                rep
                              ∙ instances_of-run c m ms rs topic threads))))),
      all-instances c m ms rs topic threads rep,
    )
