-- ===== src/Configuration/Accepted.antt =====
-- What holds of a configuration that `config_validate` of src/utils/config.c accepts.
use mathlib.Core.Path.{subst}
use schaufel.Common.{
  ◌≤◌, ◌<◌, ◌≡◌, refl, sym, Bool, true, false, ◌&&◌, Option, none, some, List, [], ◌++◌, length,
  arith,
}
use schaufel.Hooks.Config.{Kind, Entry, hooks_add, queue_validate}
use schaufel.Hooks.Config.Ready.{IsSoundQueue, both_true, queue_validate-hooks_add}
use schaufel.Threads.{init_threads}
use schaufel.Threads.Count.{length-init_threads}
use schaufel.Configuration.{
  Instance, Validators, Side, consumers, producers, Checked, crashes, verdict, thread_validate,
  Parts, Loaded, queue_or_default, both_sides, with_logger, config_validate,
}
use schaufel.Configuration.Ready.{
  thread_numbers, AreSoundInstances, AreReady, thread_validate-AreReady, AreReady-threads,
}

abbrev gathered :
    {C S : Type 0}
    → List (Entry C)
    → List (Entry C)
    → List (Instance C S)
    → List (Instance C S)
    → Loaded C S
gathered postadd preget cs ps = record {
  postadd = postadd;
  preget = preget;
  consumer_instances = cs;
  producer_instances = ps;
}

loaded_eq :
    {A : Type 0} {x y : A}
    → ◌≡◌ {A = Checked (Option A)} (verdict true (some x)) (verdict true (some y))
    → x ≡ y
loaded_eq e = cc

both_sides-true :
    {C S : Type 0} (ok : Bool) (a b : List (Entry C)) (c p : Checked (List (Instance C S)))
    (l : Loaded C S)
    → both_sides ok a b c p ≡ verdict true (some l)
    → (cs : List (Instance C S)) × (ps : List (Instance C S)) × (ok ≡ true)
      × (c ≡ verdict true cs)
      × (p ≡ verdict true ps)
      × (l ≡ gathered a b cs ps)
both_sides-true ok a b crashes p l h = cc
both_sides-true ok a b (verdict x cs) crashes l h = cc
both_sides-true false a b (verdict x cs) (verdict y ps) l h = cc
both_sides-true true a b (verdict false cs) (verdict y ps) l h = cc
both_sides-true true a b (verdict true cs) (verdict false ps) l h = cc
both_sides-true true a b (verdict true cs) (verdict true ps) l h =
    (cs, ps, refl, refl, refl, sym (loaded_eq h))

with_logger-true :
    {C H S : Type 0} (kinds : List (Kind C H)) (vs : Validators C S) (parts : Parts C S)
    (o : Option Bool) (l : Loaded C S)
    → with_logger kinds vs parts o ≡ verdict true (some l)
    → (g : Bool) × (both_sides
          (g && (queue_validate kinds (queue_or_default parts.queue)).0)
          (queue_validate kinds (queue_or_default parts.queue)).1
          (queue_validate kinds (queue_or_default parts.queue)).2
          (thread_validate kinds vs consumers parts.consumer_list)
          (thread_validate kinds vs producers parts.producer_list)
        ≡ verdict true (some l))
with_logger-true kinds vs parts none l h = cc
with_logger-true kinds vs parts (some g) l h = (g, h)

-- A list of instances that is there, with at least one: they are ready, the list afterwards is them
-- and what their validators add, and `init_threads` starts at least as many threads as there are.
abbrev pub SideWorks :
    {C H S : Type 0}
    → List (Kind C H)
    → Validators C S
    → Side
    → Option (Option (List (Instance C S)))
    → List (Instance C S)
    → Type 0
SideWorks {C} {H} {S} kinds vs side o out =
    (is : List (Instance C S)) × (js : List (Instance C S)) × (added : List (Instance C S)) × (o
      ≡ some (some is))
    × AreReady kinds vs side is js added
    × (out ≡ js ++ added)
    × (0 < length is)
    × (length is ≤ length (init_threads 0 0 (thread_numbers out)))

-- The hooks of the queue load, in both calls of `hooks_add`; and both sides work.
abbrev pub Works :
    {C H S : Type 0} → List (Kind C H) → Validators C S → Parts C S → Loaded C S → Type 0
Works {C} {H} {S} kinds vs parts l =
    (hs : List H) × (ks : List H) × (hooks_add kinds [] l.postadd ≡ some hs)
    × (hooks_add kinds hs l.preget ≡ some (hs ++ ks))
    × SideWorks kinds vs consumers parts.consumer_list l.consumer_instances
    × SideWorks kinds vs producers parts.producer_list l.producer_instances

-- The settings of all hooks can be initialised as their validators leave them, where these accept them.
abbrev pub IsSoundConfig : {C H S : Type 0} → List (Kind C H) → Parts C S → Type 0
IsSoundConfig kinds parts =
    IsSoundQueue kinds (queue_or_default parts.queue)
    × AreSoundInstances kinds parts.consumer_list
    × AreSoundInstances kinds parts.producer_list

thread_validate-SideWorks :
    {C H S : Type 0} (kinds : List (Kind C H)) (vs : Validators C S) (side : Side)
    (o : Option (Option (List (Instance C S)))) (out : List (Instance C S))
    → AreSoundInstances kinds o
    → thread_validate kinds vs side o ≡ verdict true out
    → SideWorks kinds vs side o out
thread_validate-SideWorks kinds vs side o out sound h =
    let (is, js, added, e, some_one, ready, same) =
      thread_validate-AreReady kinds vs side o out sound h in
    let (len, threads) = AreReady-threads kinds vs side 0 is js added added ready in
    (
      is,
      js,
      added,
      e,
      ready,
      same,
      some_one,
      subst (λ l. length is ≤ length (init_threads 0 0 (thread_numbers l))) (sym same)
          (omega (arith, len, threads, length-init_threads 0 0 (thread_numbers (js ++ added)))),
    )

-- Where the settings of each hook can be initialised as its validator leaves them, of a configuration
-- that `config_validate` accepts: the hooks of the queue load, in both calls of `hooks_add`; there is
-- at least one consumer and at least one producer; each of them has a positive number of threads, a
-- type with a validator, which accepted its settings, and hooks that load; they stay in place, and
-- behind them are the instances that their validators add, in order; and `init_threads` starts at
-- least as many threads as there were consumers, and as there were producers.
pub config_validate_lem :
    {C H S : Type 0} (kinds : List (Kind C H)) (vs : Validators C S) (parts : Parts C S)
    (l : Loaded C S)
    → IsSoundConfig kinds parts
    → config_validate kinds vs parts ≡ verdict true (some l)
    → Works kinds vs parts l
unfolding config_validate
config_validate_lem kinds vs parts l (sq, sc, sp) h =
    let (g, h1) = with_logger-true kinds vs parts parts.logger l h in
    let (cs, ps, ok, hc, hp, same) = both_sides-true _ _ _ _ _ l h1 in
    let (_, q) = both_true ok in
    let (hs, ks, _, _, add1, add2) =
      queue_validate-hooks_add kinds (queue_or_default parts.queue) sq q in
    subst (Works kinds vs parts) (sym same) (
      hs,
      ks,
      add1,
      add2,
      thread_validate-SideWorks kinds vs consumers parts.consumer_list cs sc hc,
      thread_validate-SideWorks kinds vs producers parts.producer_list ps sp hp,
    )
