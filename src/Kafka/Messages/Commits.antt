-- ===== src/Kafka/Messages/Commits.antt =====
-- The transactional consumer of src/kafka.c, and what becomes of its message: the end of a round of
-- `produce`, which runs the callback, or a hook that refuses it.
use mathlib.Core.List.{append-nil, append_assoc}
use schaufel.Common.{
  ◌≡◌, refl, sym, ap, ◌∙◌, Bool, true, false, Option, none, some, List, [], ◌∷◌, ◌++◌, length,
  Bool-cases, ◌⊎◌, inl, inr,
}
use schaufel.Metadata.{
  func, opaque, MDatum, mdatum_init, HashTable, callback_key, metadata_find, metadata_insert,
  metadata_free, callback_run, mdatum_free, free_items,
}
use schaufel.Kafka.Messages.{
  RkMessage, no_error, Pointer, payload_of, envelope, commit_offset, Meta, frees, destroys, stores,
  frees_table, all_free, Carrier, Outcome, aborts, returns, rk_message_key, consume_transactional,
  kafka_transactional_consumer_consume, commit_envelope, consume_message, with_envelope, free_table,
  after_callback, consumer_commit_offset, metadata_callback_run, release, refuse,
}

free_items-append :
    {F P : Type 0} (xs ys : List (MDatum F P))
    → free_items (xs ++ ys) ≡ free_items xs ++ free_items ys
free_items-append [] ys = refl
free_items-append (x ∷ xs) ys = simp (free_items-append xs ys, append_assoc)

append_nil : {A : Type 0} (xs ys : List A) → xs ++ ys ≡ [] → (xs ≡ []) × (ys ≡ [])
append_nil [] ys h = (refl, h)
append_nil (x ∷ xs) ys h = cc

-- A value among others that free nothing.
free_items-insert :
    {F P : Type 0} (xs ys : List (MDatum F P)) (v : MDatum F P)
    → free_items (xs ++ ys) ≡ []
    → free_items (xs ++ (v ∷ ys)) ≡ mdatum_free v
free_items-insert xs ys v h =
    let (a, b) = append_nil (free_items xs) (free_items ys) (sym (free_items-append xs ys) ∙ h) in
    free_items-append xs (v ∷ ys) ∙ rw (a, b) (append-nil (mdatum_free v))

append_single :
    {A : Type 0} (xs ys : List A) (p : A) → xs ++ (p ∷ ys) ≡ p ∷ [] → (xs ≡ []) × (ys ≡ [])
append_single [] ys p h = (refl, cc)
append_single (x ∷ xs) ys p h =
    let k : xs ++ (p ∷ ys) ≡ [] = cc in let (_, e) = append_nil xs (p ∷ ys) k in cc

-- The only value that frees something is replaced by one that does not.
free_items-clear :
    {F P : Type 0} (xs ys : List (MDatum F P)) (v w : MDatum F P) (p : P)
    → mdatum_free w ≡ p ∷ []
    → mdatum_free v ≡ []
    → free_items (xs ++ (w ∷ ys)) ≡ p ∷ []
    → free_items (xs ++ (v ∷ ys)) ≡ []
free_items-clear xs ys v w p fw fv h =
    let k : free_items xs ++ (p ∷ free_items ys) ≡ p ∷ [] =
      ap (λ l. free_items xs ++ (l ++ free_items ys)) (sym fw)
      ∙ (sym (free_items-append xs (w ∷ ys)) ∙ h) in
    let (a, b) = append_single (free_items xs) (free_items ys) p k in
    free_items-append xs (v ∷ ys) ∙ rw (a, fv, b) refl

module _ (H : HashTable Meta) (m : RkMessage) where
  abbrev callback_datum : Meta
  callback_datum = mdatum_init (func (some commit_offset)) 8

  abbrev envelope_datum : Meta
  envelope_datum = mdatum_init (opaque (some (envelope m))) 8

  abbrev cleared_datum : Meta
  cleared_datum = mdatum_init (opaque none) 8

  -- The table with the callback, then also with the message, and after the callback.
  abbrev first : H.Table
  first = (H.insert H.create callback_key callback_datum).0

  abbrev both : H.Table
  both = (H.insert first rk_message_key envelope_datum).0

  abbrev after : H.Table
  after = H.write both rk_message_key cleared_datum

  find-first : H.find first rk_message_key ≡ none
  find-first = H.find-insert H.create callback_key rk_message_key callback_datum ∙ H.find-create _

  find-envelope : H.find both rk_message_key ≡ some envelope_datum
  find-envelope = H.find-insert first rk_message_key rk_message_key envelope_datum

  find-callback : H.find both callback_key ≡ some callback_datum
  find-callback =
      H.find-insert first rk_message_key callback_key envelope_datum
      ∙ H.find-insert H.create callback_key callback_key callback_datum

  free-first : free_items (H.items first) ≡ []
  unfolding mdatum_free
  free-first =
      let (xs, ys, a, b) = H.items-insert H.create callback_key callback_datum (H.find-create _) in
      ap free_items b
      ∙ free_items-insert xs ys callback_datum (ap free_items (sym a ∙ H.items-create))

  free-both : free_items (H.items both) ≡ envelope m ∷ []
  unfolding mdatum_free
  free-both =
      let (xs, ys, a, b) = H.items-insert first rk_message_key envelope_datum find-first in
      ap free_items b ∙ free_items-insert xs ys envelope_datum (ap free_items (sym a) ∙ free-first)

  free-after : free_items (H.items after) ≡ []
  unfolding mdatum_free
  free-after =
      let (xs, ys, a, b) =
        H.items-write both rk_message_key cleared_datum envelope_datum find-envelope in
      ap free_items b
      ∙ free_items-clear xs ys cleared_datum envelope_datum (envelope m) refl refl
          (ap free_items (sym a) ∙ free-both)

  with_envelope-run : with_envelope H m none ≡ (some both, [])
  unfolding metadata_insert
  with_envelope-run = rw (find-first, H.find-create callback_key) refl

  -- The message as the consumer leaves it.
  abbrev carried : Carrier H.Table
  carried = record { payload = some (payload_of m); datalen = length m.payload; table = some both }

  abbrev left_with : Option H.Table × List Pointer → Outcome H.Table
  left_with r = returns (record carried { table = r.0 }) (all_free r.1)

  consume-run :
      (msg : Carrier H.Table)
      → m.err ≡ no_error
      → msg.table ≡ none
      → kafka_transactional_consumer_consume H true (some m) msg ≡ returns carried []
  unfolding kafka_transactional_consumer_consume consume_transactional
  consume-run msg good fresh =
      ap (λ e. consume_message (consume_transactional H true) e m msg) good
      ∙ (ap (λ md. left_with (with_envelope H m md)) fresh ∙ ap left_with with_envelope-run)

  commit-run :
      (stored : RkMessage → Bool)
      → metadata_callback_run H stored carried
        ≡ commit_envelope H stored carried (some envelope_datum)
  unfolding metadata_callback_run callback_run consumer_commit_offset metadata_find
  commit-run stored = rw (find-callback, find-envelope) refl

  free_table-after : free_table H (some after) ≡ frees_table ∷ []
  unfolding metadata_free
  free_table-after = rw free-after refl

  free_table-both : free_table H (some both) ≡ frees (envelope m) ∷ (frees_table ∷ [])
  unfolding metadata_free
  free_table-both = rw free-both refl

-- A message of the library without an error, for a message of this program that has no metadata:
-- `kafka_transactional_consumer_consume` hands on the payload as it lies inside the library's
-- message, and frees nothing. If the message then gets to the end of a round of `produce`, its own
-- offset is stored, the library's message is destroyed once and after that, and of the program's
-- own memory only the table is freed; where the offset cannot be stored the process aborts. If a hook
-- refuses the message instead, the program frees two pointers into the library's memory, destroys
-- nothing and stores no offset.
pub transactional_lem :
    (H : HashTable Meta) (stored : RkMessage → Bool) (m : RkMessage) (msg : Carrier H.Table)
    → m.err ≡ no_error
    → msg.table ≡ none
    → (c : Carrier H.Table) × (kafka_transactional_consumer_consume H true (some m) msg
        ≡ returns c [])
      × (c.payload ≡ some (payload_of m))
      × (c.datalen ≡ length m.payload)
      × (((stored m ≡ true)
            × (d : Carrier H.Table) × (release H stored c
                ≡ returns d
                    (stores m.topic m.partition m.offset ∷ destroys m.addr ∷ frees_table ∷ []))
            × (d.payload ≡ none))
          ⊎ ((stored m ≡ false) × (release H stored c ≡ aborts)))
      × (d : Carrier H.Table) × (refuse H c
          ≡ returns d (frees (payload_of m) ∷ frees (envelope m) ∷ frees_table ∷ []))
unfolding release refuse commit_envelope
transactional_lem H stored m msg good fresh = (
  carried H m,
  consume-run H m msg good fresh,
  refl,
  refl,
  elim (Bool-cases (stored m)) [
    | inl y ↦ inl (
      y,
      record { payload = none; datalen = length m.payload; table = some (after H m) },
      ap (after_callback H) (commit-run H m stored) ∙ rw (y, free_table-after H m) refl,
      refl,
    )
    | inr n ↦ inr (n, ap (after_callback H) (commit-run H m stored) ∙ rw n refl)
  ],
  record { payload = none; datalen = 0; table = some (both H m) },
  rw (free_table-both H m) refl,
)
