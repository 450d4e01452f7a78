-- ===== src/Redis/Pipeline.antt =====
-- No command of src/redis.c goes without its reply, and no reply is read that was not asked for.
use schaufel.Common.{
  ℕ, zero, suc, ◌+◌, ◌-◌, ◌<◌, ◌≤◌, ◌≡◌, refl, ◌∙◌, ap, inl, inr, Bool, true, false, not, ◌||◌,
  Option, some, List, [], ◌∷◌, ◌++◌, ltb, leb, ◌==◌, if◌then◌else◌, arith, Bool-cases, ==_iff,
}
use schaufel.Redis.{
  RedisMeta, Ended, aborts, blocks, returns, array, redis_meta_init, redis_meta_get_reply, drain,
  redis_meta_check_pipeline, redis_produce, redis_consume, handle_reply,
}

-- A connection on which the counter is right.
abbrev pub synced : ℕ → ℕ → ℕ → Bool → RedisMeta
synced cur pipe_max replied full = record {
  pipe_cur = cur;
  pipe_max = pipe_max;
  pipe_full = full;
  outstanding = cur;
  replied = replied;
}

drain_lem :
    (n p r : ℕ) (full : Bool)
    → drain n (λ _. true) (synced n p r full) ≡ returns (synced 0 p (r + n) full)
unfolding drain redis_meta_get_reply
drain_lem zero p r full = ap (λ k. returns (synced 0 p k full)) {x = r} {y = r + 0} (omega arith)
drain_lem (suc n) p r full =
    ap (λ k. drain n (λ _. true) (record (synced n p (r + 1) full) { pipe_cur = k }))
      {x = suc n - 1} {y = n} (omega arith)
    ∙ (drain_lem n p (r + 1) full
        ∙ ap (λ k. returns (synced 0 p k full)) {x = r + 1 + n} {y = r + suc n} (omega arith))

check_pipeline_flush :
    (c p r : ℕ)
    → redis_meta_check_pipeline false (λ _. true) (synced c p r false)
      ≡ returns (synced 0 p (r + c) false)
unfolding redis_meta_check_pipeline
check_pipeline_flush c p r = elim (Bool-cases (c == 0)) [
  | inl z ↦
      let e : c ≡ 0 = (==_iff c 0).0 z in
      rw e (ap (λ k. returns (synced 0 p k false)) {x = r} {y = r + 0} (omega arith))
  | inr n ↦ rw n (drain_lem c p r false)
]

-- `redis_producer_produce`, as often as there are messages.
unfoldable pub produce_all : ℕ → RedisMeta → Ended RedisMeta
produce_all zero m = returns m
produce_all (suc n) m = elim (redis_produce true (λ _. true) m) [
  | aborts ↦ aborts
  | blocks ↦ blocks
  | returns m' ↦ produce_all n m'
]

produce_step :
    (c p r : ℕ)
    → c ≤ p - 1
    → (d : ℕ) × (s : ℕ) × (redis_produce true (λ _. true) (synced c p r false)
        ≡ returns (synced d p s false))
      × (d + s ≡ c + r + 1)
      × (d ≤ p - 1)
unfolding redis_produce redis_meta_check_pipeline
produce_step c p r le = elim (Bool-cases (p == 0)) [
  | inl z ↦ (c, r + 1, rw z refl, omega arith, le)
  | inr nz ↦
      let k : (suc c == 0) ≡ false = ground arith in
      elim (Bool-cases (ltb (suc c) p)) [
        | inl l ↦ (suc c, r, rw (nz, k, l) refl, omega arith, ground arith)
        | inr l ↦
            (0, r + (suc c), rw (nz, k, l) (drain_lem (suc c) p r false), omega arith, omega arith)
      ]
]

produce_all_from :
    (n c p r : ℕ)
    → c ≤ p - 1
    → (d : ℕ) × (s : ℕ) × (produce_all n (synced c p r false) ≡ returns (synced d p s false))
      × (d + s ≡ c + r + n)
      × (d ≤ p - 1)
unfolding produce_all
produce_all_from zero c p r le = (c, r, refl, omega arith, le)
produce_all_from (suc n) c p r le =
    let (d, s, run, sum, le') = produce_step c p r le in
    let (d', s', run', sum', le'') = produce_all_from n d p s le' in
    (d', s', rw (run, produce_all) run', omega (arith, sum, sum'), le'')

-- Where the server answers each command: after `n` messages of a producer fewer replies are
-- outstanding than the pipeline is long, none without a pipeline; and when `redis_producer_free` has
-- flushed the pipeline, a reply to each of the `n` commands has been read, and none is outstanding.
pub produce_all_lem :
    (p n : ℕ)
    → (m : RedisMeta) × (produce_all n (redis_meta_init p) ≡ returns m)
      × (m.outstanding ≤ p - 1)
      × (m.outstanding + m.replied ≡ n)
      × (redis_meta_check_pipeline false (λ _. true) m ≡ returns (synced 0 p n false))
produce_all_lem p n =
    let (c, r, run, sum, le) = produce_all_from n 0 p 0 (omega arith) in
    (
      synced c p r false,
      run,
      le,
      omega (arith, sum),
      check_pipeline_flush c p r
          ∙ ap (λ k. returns (synced 0 p k false)) {x = r + c} {y = n} (omega (arith, sum)),
    )

lt_of : {a b : ℕ} → ltb a b ≡ true → a < b
lt_of h = ground arith

not_full : (full : Bool) {a b : ℕ} → (full ≡ true → ⊥) → a < b → (full || leb b a) ≡ false
not_full true never lt = absurd (never refl)
not_full false never lt = ground arith

or_true : (full : Bool) {b : Bool} → b ≡ true → (full || b) ≡ true
or_true true e = refl
or_true false e = e

-- A call of a consumer with a pipeline. As long as the pipeline is not full it leaves the message
-- without a payload; then each call sends a command and hands on the reply to the oldest one.
redis_consume_lem :
    (c p r : ℕ) (full : Bool) (value key : List ℕ) (payload : Option (List ℕ))
    → c < p
    → (full ≡ true → suc c ≡ p)
    → redis_consume true true (some (array (key ∷ value ∷ []))) (synced c p r full) payload ≡ (
        if ltb (suc c) p
        then returns (synced (suc c) p r false, payload)
        else returns (synced c p (r + 1) (not (c == 0)), some (value ++ (0 ∷ []))))
unfolding redis_consume redis_meta_get_reply handle_reply
redis_consume_lem c p r full value key payload lt f =
    let some_pipe : (p == 0) ≡ false = ground arith in
    let room : ltb c p ≡ true = ground arith in
    elim (Bool-cases (ltb (suc c) p)) [
      | inl l ↦
          let g : (full || leb p (suc c)) ≡ false =
            not_full full (λ e. omega (arith, f e, lt_of l)) (lt_of l) in
          rw (some_pipe, room, l, g) refl
      | inr l ↦
          let g : (full || leb p (suc c)) ≡ true = or_true full (ground arith) in
          let pred : suc c - 1 ≡ c = omega arith in
          rw (some_pipe, room, l, g)
            (rw pred (elim (Bool-cases (c == 0)) [ inl z ↦ rw z refl | inr nz ↦ rw nz refl ]))
    ]
