-- ===== src/Kafka/Validate/Offsets.antt =====
-- What the validators of src/kafka.c set for transactional consumers.
use schaufel.Common.{
  ℕ, ◌≡◌, refl, ap, ◌∙◌, true, Option, none, some, List, [], codes, Option-cases, ◌⊎◌, inl, inr,
  ltb, length, arith,
}
use schaufel.Settings.{
  group, string, Library, split_path, create_from, config_create_path, set_created,
  config_set_default_string,
}
use schaufel.Settings.Defaults.{Keeps, Keeps-trans, Keeps-add, config_set_default_string_lem}
use schaufel.Kafka.Validate.{
  Regex, lookup_string, lookup_bool, kafka_validator, kafka_consumer_validator, validate_set,
  default_in, if_transactional, with_group, group_defaults,
}

module _ (L : Library) (re : Regex) (t : L.Tree) (c : L.Node) where
  -- A transactional consumer with a group comes to its options.
  transactional-run :
      {g : List ℕ}
      → lookup_string L t c (codes "groupid") ≡ some g
      → lookup_bool L t c (codes "transactional") ≡ some true
      → kafka_consumer_validator L re t c
        ≡ validate_set L re c (
            default_in L
              (codes "enable_auto_offset_store")
              (codes "false")
              (config_create_path L t (some c) (codes "kafka_options") group))
  unfolding kafka_consumer_validator
  transactional-run {g} a b =
      ap (λ o. with_group L re c o (group_defaults L t c o)) a
      ∙ ap (if_transactional L re t c (some g)) b

  options_path :
      config_create_path L t (some c) (codes "kafka_options") group
      ≡ some (L.add t (some c) (codes "kafka_options") group)
  unfolding config_create_path split_path create_from
  options_path = refl

  -- Nothing is set in NULL.
  default_null :
      (name v : List ℕ)
      → split_path name ≡ (name, [])
      → ltb (length name) 512 ≡ true
      → config_set_default_string L t none name v ≡ some t
  unfolding config_set_default_string config_create_path create_from
  default_null name v one short =
      rw (one, short) (ap (λ r. set_created L v (some r)) (L.add-null t name string))

-- A consumer whose settings are a group, with a `groupid` and with `transactional` set. Without
-- `kafka_options` they are added, with "false" for `enable_auto_offset_store`, and nothing that was
-- there changes, before the rest is validated. If there are `kafka_options`, whatever is in them, then
-- nothing is set: the rest is validated as if the consumer was not transactional.
pub transactional_options :
    (L : Library) (re : Regex) (t : L.Tree) (c : L.Node) (g : List ℕ)
    → L.kind t c ≡ group
    → lookup_string L t c (codes "groupid") ≡ some g
    → lookup_bool L t c (codes "transactional") ≡ some true
    → ((m : L.Node) × (L.member t c (codes "kafka_options") ≡ some m)
        × (kafka_consumer_validator L re t c ≡ kafka_validator L re t c))
      ⊎ ((t' : L.Tree) × (k : L.Node) × (leaf : L.Node) × (L.member t c (codes "kafka_options")
            ≡ none)
          × (kafka_consumer_validator L re t c ≡ kafka_validator L re t' c)
          × Keeps L t t'
          × (L.member t' c (codes "kafka_options") ≡ some k)
          × (L.member t' k (codes "enable_auto_offset_store") ≡ some leaf)
          × (L.string_of t' leaf ≡ some (codes "false")))
unfolding split_path
transactional_options L re t c g grp a b =
    let start =
      transactional-run L re t c a b
      ∙ ap
          (λ r.
            validate_set L re c (default_in L (codes "enable_auto_offset_store") (codes "false") r))
          (options_path L re t c) in
    let next = λ (r : L.Tree × Option L.Node).
      validate_set L re c
        (default_in L (codes "enable_auto_offset_store") (codes "false") (some r)) in
    elim (Option-cases (L.member t c (codes "kafka_options"))) [
      | inr (m, e) ↦ inl (
        m,
        e,
        start
            ∙ (ap next (L.add-old t c m (codes "kafka_options") group grp e)
                ∙ ap (validate_set L re c) (
                    default_null L re t c (codes "enable_auto_offset_store") (codes "false") refl
                      refl)),
      )
      | inl e ↦
          let (u, k, add, kk, empty, new, keep, _, frame) =
            L.add-new t c (codes "kafka_options") group grp refl e in
          let (t', leaf, run, keeps, res, how) =
            config_set_default_string_lem L u k (codes "enable_auto_offset_store") (codes "false")
              kk (omega arith) (refl, tt) tt in
          let there : L.member u c (codes "kafka_options") ≡ some k =
            new (codes "kafka_options") ∙ refl in
          inr (
            t',
            k,
            leaf,
            e,
            start ∙ (ap next add ∙ ap (validate_set L re c) run),
            Keeps-trans L t u t' (Keeps-add L t u k keep frame) keeps,
            (keeps c (codes "kafka_options") k there).0,
            res,
            elim how [
              | inl (z, _) ↦ (let y = empty (codes "enable_auto_offset_store") in cc)
              | inr (_, z) ↦ z
            ],
          )
    ]
