-- ===== src/Dispatch/Started.antt =====
-- The modules that start, of a configuration that `config_validate` accepts.
use mathlib.Core.Path.{subst}
use schaufel.Common.{
  ℕ, ◌≡◌, refl, ap, ◌∙◌, true, Option, none, some, some_eq, List, [], ◌∷◌, ◌++◌, ◌==◌, Bool-cases,
  inl, inr, ◌⊎◌, All, ==_iff,
}
use schaufel.Hooks.Config.{Kind, Entry, hooks_add}
use schaufel.Configuration.{
  Instance, Validator, Validators, validator_of, validator_init, Side, consumers, producers, Parts,
  Loaded, config_validate, verdict,
}
use schaufel.Configuration.Ready.{IsReady, AreReady}
use schaufel.Configuration.Accepted.{IsSoundConfig, config_validate_lem}
use schaufel.Dispatch.{
  Consumers, Producers, null, started, consumer_of, producer_of, consumer_init, producer_init,
  consumer_start, producer_start, init_module,
}

-- The modules, and the first character of their types.
pub data Module : Type 0 where
  dummy file exports postgres redis kafka : Module

abbrev pub letter : Module → ℕ
letter dummy = 100
letter file = 102
letter exports = 101
letter postgres = 112
letter redis = 114
letter kafka = 107

abbrev pub validator_at : {C S : Type 0} → Validators C S → Module → Validator C S
validator_at vs dummy = vs.dummy
validator_at vs file = vs.file
validator_at vs exports = vs.exports
validator_at vs postgres = vs.postgres
validator_at vs redis = vs.redis
validator_at vs kafka = vs.kafka

module _ {C S : Type 0} (vs : Validators C S) where
  validator_of-some :
      (c : ℕ) (v : Validator C S)
      → validator_of vs c ≡ some v
      → (m : Module) × (c ≡ letter m) × (validator_at vs m ≡ v)
  validator_of-some c v h = elim (Bool-cases (c == 100)) [
    | inl e ↦ (dummy, (==_iff c 100).0 e, some_eq (rw e at h))
    | inr a ↦ elim (Bool-cases (c == 102)) [
      | inl e ↦ (file, (==_iff c 102).0 e, some_eq (rw (a, e) at h))
      | inr b ↦ elim (Bool-cases (c == 101)) [
        | inl e ↦ (exports, (==_iff c 101).0 e, some_eq (rw (a, b, e) at h))
        | inr d ↦ elim (Bool-cases (c == 112)) [
          | inl e ↦ (postgres, (==_iff c 112).0 e, some_eq (rw (a, b, d, e) at h))
          | inr f ↦ elim (Bool-cases (c == 114)) [
            | inl e ↦ (redis, (==_iff c 114).0 e, some_eq (rw (a, b, d, f, e) at h))
            | inr g ↦ elim (Bool-cases (c == 107)) [
              | inl e ↦ (kafka, (==_iff c 107).0 e, some_eq (rw (a, b, d, f, g, e) at h))
              | inr k ↦ let n = rw (a, b, d, f, g, k) at h in cc
            ]
          ]
        ]
      ]
    ]
  ]

  module_of :
      (s : List ℕ) (v : Validator C S)
      → validator_init vs s ≡ some v
      → (m : Module) × (name : List ℕ) × (s ≡ letter m ∷ name) × (validator_at vs m ≡ v)
  unfolding validator_init
  module_of [] v h = cc
  module_of (c ∷ name) v h =
      let (m, e, same) = validator_of-some c v h in (m, name, ap (λ x. x ∷ name) e, same)

abbrev pub producer_at : {S A : Type 0} → Producers S A → Module → S → Option A
producer_at ps dummy = ps.dummy
producer_at ps file = ps.file
producer_at ps exports = ps.exports
producer_at ps postgres = ps.postgres
producer_at ps redis = ps.redis
producer_at ps kafka = ps.kafka

-- Two modules have no consumer.
abbrev pub consumer_at : {S A : Type 0} → Consumers S A → Module → Option (S → Option A)
consumer_at cs dummy = some cs.dummy
consumer_at cs file = some cs.file
consumer_at cs exports = none
consumer_at cs postgres = none
consumer_at cs redis = some cs.redis
consumer_at cs kafka = some cs.kafka

-- A module, if there is one for a type, that can start with the settings of an instance.
abbrev pub Initialises : {S A : Type 0} → Option (S → Option A) → S → Type 0
Initialises none t = Unit
Initialises {S} {A} (some init) t = (a : A) × (init t ≡ some a)

abbrev pub CanStart : {S A : Type 0} → (ℕ → Option (S → Option A)) → Option (List ℕ) → S → Type 0
CanStart find none t = Unit
CanStart find (some []) t = Unit
CanStart find (some (c ∷ name)) t = Initialises (find c) t

abbrev pub ProducersStart : {C S A : Type 0} → Producers S A → List (Instance C S) → Type 0
ProducersStart ps js = All (λ j. CanStart (producer_of ps) j.type_name j.settings) js

abbrev pub ConsumersStart : {C S A : Type 0} → Consumers S A → List (Instance C S) → Type 0
ConsumersStart cs js = All (λ j. CanStart (consumer_of cs) j.type_name j.settings) js

producer_of-letter :
    {S A : Type 0} (ps : Producers S A) (m : Module)
    → producer_of ps (letter m) ≡ some (producer_at ps m)
producer_of-letter ps dummy = refl
producer_of-letter ps file = refl
producer_of-letter ps exports = refl
producer_of-letter ps postgres = refl
producer_of-letter ps redis = refl
producer_of-letter ps kafka = refl

consumer_of-letter :
    {S A : Type 0} (cs : Consumers S A) (m : Module) → consumer_of cs (letter m) ≡ consumer_at cs m
consumer_of-letter cs dummy = refl
consumer_of-letter cs file = refl
consumer_of-letter cs exports = refl
consumer_of-letter cs postgres = refl
consumer_of-letter cs redis = refl
consumer_of-letter cs kafka = refl

consumer_at-cases :
    {S A : Type 0} (cs : Consumers S A) (m : Module)
    → ((init : S → Option A) × (consumer_at cs m ≡ some init))
      ⊎ ((consumer_at cs m ≡ none) × ((letter m ≡ 101) ⊎ (letter m ≡ 112)))
consumer_at-cases cs dummy = inl (_, refl)
consumer_at-cases cs file = inl (_, refl)
consumer_at-cases cs exports = inr (refl, inl refl)
consumer_at-cases cs postgres = inr (refl, inr refl)
consumer_at-cases cs redis = inl (_, refl)
consumer_at-cases cs kafka = inl (_, refl)

-- The instances that were in a list start, and what the validators add is behind them.
abbrev pub ListStarts :
    {C H S : Type 0}
    → List (Kind C H)
    → Validators C S
    → Side
    → (Instance C S → Type 0)
    → Option (Option (List (Instance C S)))
    → List (Instance C S)
    → Type 0
ListStarts {C} {H} {S} kinds vs side Starts o out =
    (is : List (Instance C S)) × (js : List (Instance C S)) × (added : List (Instance C S)) × (o
      ≡ some (some is))
    × AreReady kinds vs side is js added
    × (out ≡ js ++ added)
    × All Starts js

module _ {C H S A : Type 0} (kinds : List (Kind C H)) where
  init_module-started :
      (init : S → Option A) (t : S) (es : List (Entry C)) (a : A) (hs : List H)
      → init t ≡ some a
      → hooks_add kinds [] es ≡ some hs
      → init_module kinds (some init) t (some es) ≡ started a hs
  init_module-started init t es a hs h k = rw (h, k) refl

  -- An instance of a producer that starts.
  abbrev pub ProducerStarts : Producers S A → Instance C S → Type 0
  ProducerStarts ps j =
      (es : List (Entry C)) × (a : A) × (hs : List H) × (j.hooks ≡ some (some es))
      × (producer_start kinds ps j.type_name j.settings (some es) ≡ started a hs)

  -- An instance of a consumer that starts, or has a type in 'e' or 'p', and is NULL.
  abbrev pub ConsumerStarts : Consumers S A → Instance C S → Type 0
  ConsumerStarts cs j =
      (es : List (Entry C)) × (j.hooks ≡ some (some es))
      × (((a : A) × (hs : List H) × (consumer_start kinds cs j.type_name j.settings (some es)
              ≡ started a hs))
          ⊎ ((c : ℕ) × (name : List ℕ) × (j.type_name ≡ some (c ∷ name))
              × ((c ≡ 101) ⊎ (c ≡ 112))
              × (consumer_start kinds cs j.type_name j.settings (some es) ≡ null)))

  ready_producer :
      (vs : Validators C S) (ps : Producers S A) (i j : Instance C S) (more : List (Instance C S))
      → CanStart (producer_of ps) j.type_name j.settings
      → IsReady kinds vs producers i j more
      → ProducerStarts ps j
  unfolding producer_start producer_init
  ready_producer vs ps i j more starts (n, s, v, hs, _, _, _, ty, init, val, add, same) =
      let (m, name, e, at) = module_of vs s v init in
      let typed : j.type_name ≡ some (letter m ∷ name) =
        ap (λ k. k.type_name) same ∙ (ty ∙ ap some e) in
      let found = subst (λ o. CanStart (producer_of ps) o j.settings) typed starts in
      let (a, h) = subst (λ o. Initialises o j.settings) (producer_of-letter ps m) found in
      (
        _,
        a,
        hs,
        ap (λ k. k.hooks) same,
        rw (typed, producer_of-letter ps m)
            (init_module-started (producer_at ps m) j.settings _ a hs h add),
      )

  ready_consumer :
      (vs : Validators C S) (cs : Consumers S A) (i j : Instance C S) (more : List (Instance C S))
      → CanStart (consumer_of cs) j.type_name j.settings
      → IsReady kinds vs consumers i j more
      → ConsumerStarts cs j
  unfolding consumer_start consumer_init
  ready_consumer vs cs i j more starts (n, s, v, hs, _, _, _, ty, init, val, add, same) =
      let (m, name, e, at) = module_of vs s v init in
      let typed : j.type_name ≡ some (letter m ∷ name) =
        ap (λ k. k.type_name) same ∙ (ty ∙ ap some e) in
      let found = subst (λ o. CanStart (consumer_of cs) o j.settings) typed starts in
      let held = ap (λ k. k.hooks) same in
      elim (consumer_at-cases cs m) [
        | inl (f, known) ↦
            let (a, h) =
              subst (λ o. Initialises o j.settings) (consumer_of-letter cs m ∙ known) found in
            (
              _,
              held,
              inl (
                a,
                hs,
                rw (typed, consumer_of-letter cs m, known)
                    (init_module-started f j.settings _ a hs h add),
              ),
            )
        | inr (unknown, which) ↦ (
          _,
          held,
          inr (letter m, name, typed, which, rw (typed, consumer_of-letter cs m, unknown) refl),
        )
      ]

  ready_producers :
      (vs : Validators C S) (ps : Producers S A) (is js added tail : List (Instance C S))
      → ProducersStart ps (js ++ tail)
      → AreReady kinds vs producers is js added
      → All (ProducerStarts ps) js
  ready_producers vs ps [] [] added tail h r = tt
  ready_producers vs ps [] (j ∷ js) added tail h r = absurd r
  ready_producers vs ps (i ∷ is) [] added tail h r = absurd r
  ready_producers vs ps (i ∷ is) (j ∷ js) added tail h (more, rest, r, rs, _) =
      (ready_producer vs ps i j more h.0 r, ready_producers vs ps is js rest tail h.1 rs)

  ready_consumers :
      (vs : Validators C S) (cs : Consumers S A) (is js added tail : List (Instance C S))
      → ConsumersStart cs (js ++ tail)
      → AreReady kinds vs consumers is js added
      → All (ConsumerStarts cs) js
  ready_consumers vs cs [] [] added tail h r = tt
  ready_consumers vs cs [] (j ∷ js) added tail h r = absurd r
  ready_consumers vs cs (i ∷ is) [] added tail h r = absurd r
  ready_consumers vs cs (i ∷ is) (j ∷ js) added tail h (more, rest, r, rs, _) =
      (ready_consumer vs cs i j more h.0 r, ready_consumers vs cs is js rest tail h.1 rs)

  -- Where the settings of each hook can be initialised as its validator leaves them, and the module
  -- of each instance can start with the settings that it has afterwards, of a configuration that
  -- `config_validate` accepts: of the producers that were in it, each thread of `produce` gets a
  -- producer, with the hooks of its instance; of the consumers that were in it, each thread of
  -- `consume` gets a consumer, with these, or its type begins with 'e' or 'p': then the validation
  -- accepts it, but `consumer_init` returns NULL. The instances that validators add are behind them.
  pub start-config_validate :
      (vs : Validators C S) (cs : Consumers S A) (ps : Producers S A) (parts : Parts C S)
      (l : Loaded C S)
      → IsSoundConfig kinds parts
      → ConsumersStart cs l.consumer_instances
      → ProducersStart ps l.producer_instances
      → config_validate kinds vs parts ≡ verdict true (some l)
      → ListStarts kinds vs consumers (ConsumerStarts cs) parts.consumer_list l.consumer_instances
        × ListStarts kinds vs producers (ProducerStarts ps) parts.producer_list l.producer_instances
  start-config_validate vs cs ps parts l sound hc hp h =
      let (_, _, _, _, (ci, cj, ca, ce, rc, oc, _, _), (pi, pj, pa, pe, rp, op, _, _)) =
        config_validate_lem kinds vs parts l sound h in
      (
        (
          ci,
          cj,
          ca,
          ce,
          rc,
          oc,
          ready_consumers vs cs ci cj ca ca (subst (ConsumersStart cs) oc hc) rc,
        ),
        (
          pi,
          pj,
          pa,
          pe,
          rp,
          op,
          ready_producers vs ps pi pj pa pa (subst (ProducersStart ps) op hp) rp,
        ),
      )
