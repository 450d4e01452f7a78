-- ===== src/Hooks/Config/Ready.antt =====
-- A configuration of hooks that src/hooks.c accepts can be loaded, if the settings in it, as their
-- validators leave them, can be initialised.
use mathlib.Core.Path.{subst}
use schaufel.Common.{
  some_eq, suc, sym, arith, >>=-eq-some, ◌≡◌, refl, ap, ◌∙◌, Bool, true, ◌&&◌, Option, none, some,
  List, [], ◌∷◌, ◌++◌, length, ◌>>=◌, All, Option-cases, inl, inr,
}
use mathlib.Core.List.{append_assoc, append-nil}
use schaufel.Hooks.Config.{
  Kind, Entry, kind_of, validate_list, Member, hooks_validate, hooks_add, QueueConfig,
  queue_validate,
}

-- Settings that can be initialised as the validator leaves them, if it accepts them.
abbrev pub Initialises : {C H : Type 0} → Option (Kind C H) → C → Type 0
Initialises none c = Unit
Initialises {C} {H} (some k) c =
    (k.validate c).0 ≡ true → (h : H) × (k.init (k.validate c).1 ≡ some h)

-- An element of a list of hooks with such settings, and a member with such elements.
abbrev pub IsSound : {C H : Type 0} → List (Kind C H) → Entry C → Type 0
IsSound kinds e = Initialises (kind_of kinds e) e.body

abbrev pub AreSound : {C H : Type 0} → List (Kind C H) → Member C → Type 0
AreSound kinds none = Unit
AreSound kinds (some none) = Unit
AreSound kinds (some (some es)) = All (IsSound kinds) es

abbrev pub IsSoundQueue : {C H : Type 0} → List (Kind C H) → Option (QueueConfig C) → Type 0
IsSoundQueue kinds none = Unit
IsSoundQueue kinds (some c) = AreSound kinds c.postadd × AreSound kinds c.preget

-- The hooks that some settings stand for, each that of its own element.
abbrev pub hooks_of : {C H : Type 0} → List (Kind C H) → List (Entry C) → Option (List H)
hooks_of kinds [] = some []
hooks_of kinds (e ∷ es) = do
  k ← kind_of kinds e
  h ← k.init e.body
  hs ← hooks_of kinds es
  some (h ∷ hs)

pub both_true : {a b : Bool} → (a && b) ≡ true → (a ≡ true) × (b ≡ true)
both_true h = ground arith

module _ {C H : Type 0} where
  pub hooks_add-hooks_of :
      (kinds : List (Kind C H)) (hs ks : List H) (es : List (Entry C))
      → hooks_of kinds es ≡ some ks
      → hooks_add kinds hs es ≡ some (hs ++ ks)
  unfolding hooks_add
  hooks_add-hooks_of kinds hs ks [] e =
      subst (λ l. some hs ≡ some (hs ++ l)) (some_eq e) (ap some (sym (append-nil hs)))
  hooks_add-hooks_of kinds hs ks (x ∷ es) e =
      let (k, kind, e1) = >>=-eq-some (kind_of kinds x) _ e in
      let (h, init, e2) = >>=-eq-some (k.init x.body) _ e1 in
      let (rest, later, e3) = >>=-eq-some (hooks_of kinds es) _ e2 in
      let ih = hooks_add-hooks_of kinds (hs ++ (h ∷ [])) rest es later in
      rw (hooks_add, kind, init)
        (ih ∙ (ap some (append_assoc hs (h ∷ []) rest) ∙ ap (λ l. some (hs ++ l)) (some_eq e3)))

  initialised :
      (c : C) (o : Option (Kind C H)) (k : Kind C H)
      → o ≡ some k
      → Initialises o c
      → (k.validate c).0 ≡ true
      → (h : H) × (k.init (k.validate c).1 ≡ some h)
  initialised c none k f s ok = cc
  initialised c (some j) k f s ok =
      subst (λ k. (k.validate c).0 ≡ true → (h : H) × (k.init (k.validate c).1 ≡ some h))
        (some_eq f) s ok

  validate_list-hooks_of :
      (kinds : List (Kind C H)) (es : List (Entry C))
      → All (IsSound kinds) es
      → (validate_list kinds es).0 ≡ true
      → (hs : List H) × (hooks_of kinds (validate_list kinds es).1 ≡ some hs)
        × (length hs ≡ length es)
  unfolding validate_list
  validate_list-hooks_of kinds [] s v = ([], refl, refl)
  validate_list-hooks_of kinds (e ∷ es) s v = elim (Option-cases (kind_of kinds e)) [
    | inl f ↦ let k = rw f at v in cc
    | inr (k, f) ↦
        let (ok, more) = both_true (rw f at v) in
        let (h, init) = initialised e.body (kind_of kinds e) k f s.0 ok in
        let (hs, later, len) = validate_list-hooks_of kinds es s.1 more in
        (h ∷ hs, rw (f, f, init, later) refl, ap suc len)
  ]

  pub validated-hooks_of :
      (kinds : List (Kind C H)) (m : Member C)
      → AreSound kinds m
      → (hooks_validate kinds m).0 ≡ true
      → (hs : List H) × (hooks_of kinds (hooks_validate kinds m).1 ≡ some hs)
  unfolding hooks_validate validate_list
  validated-hooks_of kinds none s v = ([], refl)
  validated-hooks_of kinds (some none) s v = cc
  validated-hooks_of kinds (some (some es)) s v =
      let (hs, e, _) = validate_list-hooks_of kinds es s v in (hs, e)

-- If the settings of each hook in a queue configuration can be initialised, as their validator leaves
-- them where it accepts them, then a configuration that `queue_validate` accepts loads without an
-- abort: the two calls of `hooks_add` in `queue_init` give the hooks of `postadd` and, after them on
-- the same list, those of `preget`, each the hook that its own element names, in order.
pub queue_validate-hooks_add :
    {C H : Type 0} (kinds : List (Kind C H)) (c : Option (QueueConfig C))
    → IsSoundQueue kinds c
    → (queue_validate kinds c).0 ≡ true
    → let r = queue_validate kinds c in
      (hs : List H) × (ks : List H) × (hooks_of kinds r.1 ≡ some hs)
      × (hooks_of kinds r.2 ≡ some ks)
      × (hooks_add kinds [] r.1 ≡ some hs)
      × (hooks_add kinds hs r.2 ≡ some (hs ++ ks))
unfolding queue_validate
queue_validate-hooks_add kinds none s v = cc
queue_validate-hooks_add kinds (some c) (sp, sg) v =
    let (one, two) = both_true v in
    let (hs, e) = validated-hooks_of kinds c.postadd sp one in
    let (ks, f) = validated-hooks_of kinds c.preget sg two in
    (hs, ks, e, f, hooks_add-hooks_of kinds [] hs _ e, hooks_add-hooks_of kinds hs ks _ f)
