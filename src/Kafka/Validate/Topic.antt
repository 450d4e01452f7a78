-- ===== src/Kafka/Validate/Topic.antt =====
-- What `kafka_validator` of src/kafka.c makes of a topic with partitions.
use schaufel.Common.{ℕ, ◌≡◌, refl, ap, ◌∙◌, true, false, none, some, List, codes, take, drop, arith}
use schaufel.JsonExport.{same_string}
use schaufel.Metadata.Assoc.{same_string_refl}
use schaufel.Settings.{group, string, is_name, Library}
use schaufel.Settings.Defaults.{Keeps, Keeps-trans, Keeps-add, Keeps-set_string}
use schaufel.Kafka.Validate.{
  Regex, accepts, lookup_string, set_added, check_partitions, then_partitions, with_options,
  disable_commit, without_member, matched, check_topic, with_broker, kafka_validator,
}

-- A member of a group with this string.
abbrev pub HasString : (L : Library) → L.Tree → L.Node → List ℕ → List ℕ → Type 0
HasString L t p n v =
    (m : L.Node) × (L.member t p n ≡ some m) × (L.kind t m ≡ string) × (L.string_of t m ≡ some v)

module _ (L : Library) where
  HasString-Keeps :
      (t u : L.Tree) (p : L.Node) (n v : List ℕ)
      → Keeps L t u
      → HasString L t p n v
      → HasString L u p n v
  HasString-Keeps t u p n v keeps (m, a, b, c) =
      let (a', b', c') = keeps p n m a in (m, a', b' ∙ b, c' ∙ c)

  -- A string is added to a group.
  add_string :
      (t : L.Tree) (p : L.Node) (n v : List ℕ)
      → L.kind t p ≡ group
      → is_name n ≡ true
      → L.member t p n ≡ none
      → (u : L.Tree) × (set_added L v (L.add t (some p) n string) ≡ some u)
        × HasString L u p n v
        × Keeps L t u
        × (L.kind u p ≡ group)
        × ((j : List ℕ) → same_string n j ≡ false → L.member u p j ≡ L.member t p j)
  add_string t p n v g name e =
      let (w, m, run, k, _, new, keep, apart, frame) = L.add-new t p n string g name e in
      (
        L.set_string w m v,
        ap (set_added L v) run,
        (
          m,
          L.member-set_string w m p n v ∙ (new n ∙ rw (same_string_refl n) refl),
          L.kind-set_string w m m v ∙ k,
          L.set_string-same w m v k,
        ),
        Keeps-set_string L t w m v (Keeps-add L t w m keep frame) (λ q j r h. (keep q j r h).1),
        L.kind-set_string w m p v ∙ ((frame p apart).0 ∙ g),
        λ j d. L.member-set_string w m p j v ∙ (new j ∙ rw d refl),
      )

  check_topic-run :
      (re : Regex) (t : L.Tree) (c m : L.Node) (topic : List ℕ)
      → L.kind t m ≡ string
      → L.string_of t m ≡ some topic
      → check_topic L re t c (some m) ≡ matched L re t c m topic (re.topic topic)
  unfolding check_topic
  check_topic-run re t c m topic k s = ground arith

  check_partitions-run :
      (re : Regex) (t : L.Tree) (c : L.Node) (p : List ℕ)
      → HasString L t c (codes "partitions") p
      → re.partitions p ≡ true
      → then_partitions L re c (some t) ≡ accepts t
  unfolding check_partitions
  check_partitions-run re t c p (m, a, k, s) h = ap (check_partitions L re t c) a ∙ ground arith

-- Settings of a consumer or a producer that are a group with a `broker` and a `topic`, of which the
-- regular expression says that partitions begin at `i` with their ':', and at `j` without it, where
-- what begins there is a list of partitions, and there are neither `partitions` nor `kafka_options`
-- yet: `kafka_validator` accepts them, with the topic cut off at `i`, `partitions` what begins at
-- `j`, and "false" for `enable_auto_commit` in new `kafka_options`.
pub kafka_validator_lem :
    (L : Library) (re : Regex) (t : L.Tree) (c : L.Node) (broker topic : List ℕ) (i j : ℕ)
    → L.kind t c ≡ group
    → lookup_string L t c (codes "broker") ≡ some broker
    → HasString L t c (codes "topic") topic
    → re.topic topic ≡ some (some (i, j))
    → re.partitions (drop j topic) ≡ true
    → L.member t c (codes "partitions") ≡ none
    → L.member t c (codes "kafka_options") ≡ none
    → (u : L.Tree) × (k : L.Node) × (kafka_validator L re t c ≡ accepts u)
      × HasString L u c (codes "topic") (take i topic)
      × HasString L u c (codes "partitions") (drop j topic)
      × (L.member u c (codes "kafka_options") ≡ some k)
      × HasString L u k (codes "enable_auto_commit") (codes "false")
unfolding kafka_validator disable_commit check_topic
kafka_validator_lem L re t c broker topic i j g hb (m, hm, km, sm) cut fits no_parts no_opts =
    let u0 = L.set_string t m (take i topic) in
    let g0 : L.kind u0 c ≡ group = L.kind-set_string t m c (take i topic) ∙ g in
    let np0 = L.member-set_string t m c (codes "partitions") (take i topic) ∙ no_parts in
    let no0 = L.member-set_string t m c (codes "kafka_options") (take i topic) ∙ no_opts in
    let t0 : HasString L u0 c (codes "topic") (take i topic) = (
      m,
      L.member-set_string t m c (codes "topic") (take i topic) ∙ hm,
      L.kind-set_string t m m (take i topic) ∙ km,
      L.set_string-same t m (take i topic) km,
    ) in
    let (u2, run2, p2, keeps2, g2, mem2) =
      add_string L u0 c (codes "partitions") (drop j topic) g0 refl np0 in
    let no2 = mem2 (codes "kafka_options") refl ∙ no0 in
    let (u3, k, run3, kk, empty, new3, keep3, _, frame3) =
      L.add-new u2 c (codes "kafka_options") group g2 refl no2 in
    let keeps3 = Keeps-add L u2 u3 k keep3 frame3 in
    let (u5, run5, c5, keeps5, _, _) =
      add_string L u3 k (codes "enable_auto_commit") (codes "false") kk refl
        (empty (codes "enable_auto_commit")) in
    let all = Keeps-trans L u2 u3 u5 keeps3 keeps5 in
    let p5 = HasString-Keeps L u2 u5 c (codes "partitions") (drop j topic) all p2 in
    (
      u5,
      k,
      ap (with_broker L re t c) hb
          ∙ (ap (check_topic L re t c) hm
              ∙ (check_topic-run L re t c m topic km sm
                  ∙ (ap (matched L re t c m topic) cut
                      ∙ (ap (without_member L re u0 c (drop j topic)) np0
                          ∙ (ap (disable_commit L re c) run2
                              ∙ (ap (with_options L re u2 c) no2
                                  ∙ (ap
                                        (λ r. then_partitions L re c (
                                          set_added L (codes "false")
                                            (L.add r.0 r.1 (codes "enable_auto_commit") string)))
                                        run3
                                      ∙ (ap (then_partitions L re c) run5
                                          ∙ check_partitions-run L re u5 c (drop j topic) p5
                                              fits)))))))),
      HasString-Keeps L u0 u5 c (codes "topic") (take i topic) (Keeps-trans L u0 u2 u5 keeps2 all)
          t0,
      p5,
      (keeps5 c (codes "kafka_options") k (new3 (codes "kafka_options"))).0,
      c5,
    )
