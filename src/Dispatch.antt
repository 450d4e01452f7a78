-- ===== src/Dispatch.antt =====
-- src/consumer.c and src/producer.c: a module is selected by the first character of its type, and
-- started with the hooks of its instance; and the starts of `consume` and `produce` of src/main.c.
-- What a module does to start is an argument.
pub mod Started
mod Tests
use schaufel.Common.{ℕ, Option, none, some, List, [], ◌∷◌, ◌==◌, if◌then◌else◌}
use schaufel.Hooks.Config.{Kind, Entry, hooks_add}

-- The functions that start a module with its settings; none is an abort.
pub record Consumers (S A : Type 0) : Type 0 where
  pub dummy : S → Option A
  pub file : S → Option A
  pub redis : S → Option A
  pub kafka : S → Option A

pub record Producers (S A : Type 0) : Type 0 where
  pub dummy : S → Option A
  pub file : S → Option A
  pub redis : S → Option A
  pub exports : S → Option A
  pub postgres : S → Option A
  pub kafka : S → Option A

-- A read through NULL, an abort, NULL, or the module with its list of hooks.
pub data Start (A H : Type 0) : Type 0 where
  crashes aborts null : Start A H
  started : A → List H → Start A H

abbrev pub consumer_of : {S A : Type 0} → Consumers S A → ℕ → Option (S → Option A)
consumer_of cs c =
    if c == 100
    then some cs.dummy
    else if c == 102
    then some cs.file
    else if c == 114
    then some cs.redis
    else if c == 107
    then some cs.kafka
    else none

abbrev pub producer_of : {S A : Type 0} → Producers S A → ℕ → Option (S → Option A)
producer_of ps c =
    if c == 100
    then some ps.dummy
    else if c == 102
    then some ps.file
    else if c == 114
    then some ps.redis
    else if c == 101
    then some ps.exports
    else if c == 112
    then some ps.postgres
    else if c == 107
    then some ps.kafka
    else none

abbrev pub with_list : {A H : Type 0} → A → Option (List H) → Start A H
with_list a none = aborts
with_list a (some hs) = started a hs

module _ {C H A : Type 0} (kinds : List (Kind C H)) where
  -- The member `hooks`, as the elements that it has, or NULL.
  abbrev pub with_hooks : A → Option (List (Entry C)) → Start A H
  with_hooks a none = started a []
  with_hooks a (some es) = with_list a (hooks_add kinds [] es)

module _ {C H S A : Type 0} (kinds : List (Kind C H)) where
  abbrev pub init_module : Option (S → Option A) → S → Option (List (Entry C)) → Start A H
  init_module none s hooks = null
  init_module (some init) s hooks = elim (init s) [
    | none ↦ aborts
    | some a ↦ with_hooks kinds a hooks
  ]

  unfoldable pub consumer_init : Consumers S A → ℕ → S → Option (List (Entry C)) → Start A H
  consumer_init cs c s hooks = init_module (consumer_of cs c) s hooks

  unfoldable pub producer_init : Producers S A → ℕ → S → Option (List (Entry C)) → Start A H
  producer_init ps c s hooks = init_module (producer_of ps c) s hooks

  -- `*consumer_type` and `*producer_type`: the NUL of an empty string selects nothing.
  unfoldable pub consumer_start :
      Consumers S A → Option (List ℕ) → S → Option (List (Entry C)) → Start A H
  consumer_start cs none s hooks = crashes
  consumer_start cs (some []) s hooks = consumer_init cs 0 s hooks
  consumer_start cs (some (c ∷ name)) s hooks = consumer_init cs c s hooks

  unfoldable pub producer_start :
      Producers S A → Option (List ℕ) → S → Option (List (Entry C)) → Start A H
  producer_start ps none s hooks = crashes
  producer_start ps (some []) s hooks = producer_init ps 0 s hooks
  producer_start ps (some (c ∷ name)) s hooks = producer_init ps c s hooks
