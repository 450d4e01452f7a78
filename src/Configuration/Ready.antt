-- ===== src/Configuration/Ready.antt =====
-- What `_thread_validate` of src/utils/config.c leaves of a list of instances that it accepts.
use mathlib.Core.Path.{subst}
use mathlib.Core.List.{append_assoc, append-nil}
use schaufel.Common.{
  ℕ, suc, ◌≤◌, ◌<◌, ◌≡◌, refl, sym, ap, ◌∙◌, Bool, true, false, ◌&&◌, Option, none, some, List, [],
  ◌∷◌, ◌++◌, length, arith, Bool-cases, inl, inr, All,
}
use schaufel.Connection.{Port}
use schaufel.Hooks.Config.{Kind, Entry, hooks_validate, hooks_add}
use schaufel.Hooks.Config.Ready.{AreSound, validated-hooks_of, hooks_add-hooks_of, both_true}
use schaufel.Threads.{get_thread_count}
use schaufel.Configuration.{
  Instance, Validator, Validators, validator_init, Side, validate_with, Checked, crashes, verdict,
  has_threads, has_type, known_type, is_list, validated, extend, run_validator, with_type,
  validate_instances, thread_validate,
}

-- What `config_lookup_int` gives `init_threads`.
abbrev pub thread_number : Option Port → Option ℕ
thread_number none = none
thread_number (some n) = some n.size

abbrev pub thread_numbers : {C S : Type 0} → List (Instance C S) → List (Option ℕ)
thread_numbers [] = []
thread_numbers (i ∷ is) = thread_number i.threads ∷ thread_numbers is

-- The members of a list that may be missing, whose hooks have settings that can be initialised.
abbrev pub AreSoundInstances :
    {C H S : Type 0} → List (Kind C H) → Option (Option (List (Instance C S))) → Type 0
AreSoundInstances kinds none = Unit
AreSoundInstances kinds (some none) = Unit
AreSoundInstances kinds (some (some is)) = All (λ i. AreSound kinds i.hooks) is

module _ {C H S : Type 0} (kinds : List (Kind C H)) (vs : Validators C S) (side : Side) where
  -- An instance, what the validation leaves of it, and what its validator adds: it has threads, a type
  -- with a validator, which accepted its settings, and hooks that load.
  abbrev pub IsReady : Instance C S → Instance C S → List (Instance C S) → Type 0
  IsReady i j more =
      (n : Port) × (s : List ℕ) × (v : Validator C S) × (hs : List H) × (i.threads ≡ some n)
      × (n.negative ≡ false)
      × (0 < n.size)
      × (i.type_name ≡ some s)
      × (validator_init vs s ≡ some v)
      × (validate_with side v i.settings ≡ (true, j.settings, more))
      × (hooks_add kinds [] (hooks_validate kinds i.hooks).1 ≡ some hs)
      × (j ≡ record i {
        hooks = some (some (hooks_validate kinds i.hooks).1);
        settings = j.settings;
      })

  -- The same of each, with all that is added.
  abbrev pub AreReady : List (Instance C S) → List (Instance C S) → List (Instance C S) → Type 0
  AreReady [] [] added = added ≡ []
  AreReady (i ∷ is) (j ∷ js) added =
      (more : List (Instance C S)) × (rest : List (Instance C S)) × IsReady i j more
      × AreReady is js rest
      × (added ≡ more ++ rest)
  AreReady _ _ added = ⊥

  extend-true :
      (ok : Bool) (i : Instance C S) (next : Checked (List (Instance C S)))
      (js : List (Instance C S))
      → extend kinds vs side ok i next ≡ verdict true js
      → (is : List (Instance C S)) × (ok ≡ true) × (next ≡ verdict true is) × (js ≡ i ∷ is)
  extend-true ok i crashes js h = cc
  extend-true false i (verdict rest is) js h = cc
  extend-true true i (verdict false is) js h = cc
  extend-true true i (verdict true is) js h = (is, refl, refl, cc)

  run_validator-true :
      (ok : Bool) (i : Instance C S) (is added : List (Instance C S)) (hooks : List (Entry C))
      (next : List (Instance C S) → Checked (List (Instance C S))) (o : Option (Validator C S))
      (js : List (Instance C S))
      → run_validator kinds vs side ok i is added hooks next o ≡ verdict true js
      → (v : Validator C S) × (o ≡ some v)
        × ((validate_with side v i.settings).0 ≡ true)
        × (extend kinds vs side ok
              (validated kinds vs side i hooks (validate_with side v i.settings).1)
              (next (added ++ (validate_with side v i.settings).2))
            ≡ verdict true js)
  run_validator-true ok i is added hooks next none js h = cc
  run_validator-true ok i is added hooks next (some v) js h =
      elim (Bool-cases (validate_with side v i.settings).0) [
        | inl e ↦ (v, refl, e, rw e at h)
        | inr e ↦ let k = rw e at h in cc
      ]

  with_type-true :
      (ok : Bool) (i : Instance C S) (is added : List (Instance C S)) (hooks : List (Entry C))
      (next : List (Instance C S) → Checked (List (Instance C S))) (o : Option (List ℕ))
      (js : List (Instance C S))
      → with_type kinds vs side ok i is added hooks next o ≡ verdict true js
      → (s : List ℕ) × (o ≡ some s)
        × (run_validator kinds vs side ok i is added hooks next (validator_init vs s)
            ≡ verdict true js)
  with_type-true ok i is added hooks next none js h = cc
  with_type-true ok i is added hooks next (some s) js h = (s, refl, h)

  has_threads-some :
      (o : Option Port)
      → has_threads o ≡ true
      → (n : Port) × (o ≡ some n) × (n.negative ≡ false) × (0 < n.size)
  has_threads-some none h = cc
  has_threads-some (some n) h = (n, refl, ground arith, ground arith)

  known_type-some :
      (o old : Option (List ℕ)) (s : List ℕ)
      → has_type o ≡ true
      → known_type o old ≡ some s
      → o ≡ some s
  known_type-some none old s h k = cc
  known_type-some (some r) old s h k = k

  instance-IsReady :
      (i : Instance C S) (str : Option (List ℕ)) (s : List ℕ) (v : Validator C S)
      → AreSound kinds i.hooks
      → (has_threads i.threads && has_type i.type_name && (hooks_validate kinds i.hooks).0) ≡ true
      → known_type i.type_name str ≡ some s
      → validator_init vs s ≡ some v
      → (validate_with side v i.settings).0 ≡ true
      → IsReady i
          (validated kinds vs side i
            (hooks_validate kinds i.hooks).1
            (validate_with side v i.settings).1)
          (validate_with side v i.settings).2
  instance-IsReady i str s v sound ok known init good =
      let (ab, c) = both_true ok in
      let (a, b) = both_true ab in
      let (n, e, f, g) = has_threads-some i.threads a in
      let (hs, loads) = validated-hooks_of kinds i.hooks sound c in
      (
        n,
        s,
        v,
        hs,
        e,
        f,
        g,
        known_type-some i.type_name str s b known,
        init,
        ap (λ x. (x, (validate_with side v i.settings).1, (validate_with side v i.settings).2))
            good,
        hooks_add-hooks_of kinds [] hs _ loads,
        refl,
      )

  verdict_eq :
      {xs ys : List (Instance C S)}
      → ◌≡◌ {A = Checked (List (Instance C S))} (verdict true xs) (verdict true ys)
      → ys ≡ xs
  verdict_eq h = cc

  -- The list afterwards: the instances that were there, validated, what was added before, and what
  -- their validators add.
  abbrev Validated : List (Instance C S) → List (Instance C S) → List (Instance C S) → Type 0
  Validated is before out =
      (js : List (Instance C S)) × (added : List (Instance C S)) × AreReady is js added
      × (out ≡ js ++ (before ++ added))

  Validated-step :
      (i j : Instance C S) (is before more ks out : List (Instance C S))
      → IsReady i j more
      → Validated is (before ++ more) ks
      → out ≡ j ∷ ks
      → Validated (i ∷ is) before out
  Validated-step i j is before more ks out ready (js, added, rest, same) e = (
    j ∷ js,
    more ++ added,
    (more, added, ready, rest, refl),
    e ∙ ap (λ l. j ∷ l) (same ∙ ap (λ l. js ++ l) (append_assoc before more added)),
  )

  validate_instances-Validated :
      (str : Option (List ℕ)) (before is out : List (Instance C S))
      → All (λ i. AreSound kinds i.hooks) is
      → validate_instances kinds vs side str before is ≡ verdict true out
      → Validated is before out
  unfolding validate_instances
  validate_instances-Validated str before [] out sound h =
      ([], [], refl, verdict_eq h ∙ sym (append-nil before))
  validate_instances-Validated str before (i ∷ is) out sound h =
      elim (Bool-cases (is_list i.hooks)) [
        | inr e ↦ let k = rw e at h in cc
        | inl e ↦
            let hooks = (hooks_validate kinds i.hooks).1 in
            let ok : Bool =
              has_threads i.threads && has_type i.type_name && (hooks_validate kinds i.hooks).0 in
            let next : List (Instance C S) → Checked (List (Instance C S)) =
              λ more. validate_instances kinds vs side (known_type i.type_name str) more is in
            let (s, known, h1) =
              with_type-true ok i is before hooks next (known_type i.type_name str) out
                (rw e at h) in
            let (v, init, good, h2) =
              run_validator-true ok i is before hooks next (validator_init vs s) out h1 in
            let r = validate_with side v i.settings in
            let j = validated kinds vs side i hooks r.1 in
            let (ks, fine, run, same) = extend-true ok j (next (before ++ r.2)) out h2 in
            Validated-step i j is before r.2 ks out
              (instance-IsReady i str s v sound.0 fine known init good)
              (validate_instances-Validated (known_type i.type_name str) (before ++ r.2) is ks
                sound.1 run)
              same
      ]

  pub thread_validate-AreReady :
      (o : Option (Option (List (Instance C S)))) (out : List (Instance C S))
      → AreSoundInstances kinds o
      → thread_validate kinds vs side o ≡ verdict true out
      → (is : List (Instance C S)) × (js : List (Instance C S)) × (added : List (Instance C S)) × (o
          ≡ some (some is))
        × (0 < length is)
        × AreReady is js added
        × (out ≡ js ++ added)
  unfolding thread_validate
  thread_validate-AreReady none out sound h = cc
  thread_validate-AreReady (some none) out sound h = cc
  thread_validate-AreReady (some (some [])) out sound h = cc
  thread_validate-AreReady (some (some (i ∷ is))) out sound h =
      let (js, added, ready, same) = validate_instances-Validated none [] (i ∷ is) out sound h in
      (i ∷ is, js, added, refl, omega arith, ready, same)

  -- Each instance that is ready starts at least one thread.
  pub AreReady-threads :
      (last : ℕ) (is js added more : List (Instance C S))
      → AreReady is js added
      → (length js ≡ length is) × (length js ≤ get_thread_count last (thread_numbers (js ++ more)))
  unfolding get_thread_count
  AreReady-threads last [] [] added more h = (refl, omega arith)
  AreReady-threads last [] (j ∷ js) added more h = absurd h
  AreReady-threads last (i ∷ is) [] added more h = absurd h
  AreReady-threads last (i ∷ is) (j ∷ js) added more
        (_, rest, (n, s, v, hs, e, f, g, _, _, _, _, same), ready, _) =
      let t : j.threads ≡ some n = ap (λ k. k.threads) same ∙ e in
      let (a, b) = AreReady-threads n.size is js rest more ready in
      (
        ap suc a,
        subst
            (λ o.
              suc (length js)
              ≤ get_thread_count last (thread_number o ∷ thread_numbers (js ++ more)))
            (sym t) (omega (arith, b)),
      )
