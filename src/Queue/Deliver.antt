-- ===== src/Queue/Deliver.antt =====
-- `queue_get` of src/queue.c, waits included, against the list of messages.
use mathlib.Core.Path.{subst}
use schaufel.Common.{
  ℕ, ◌+◌, ◌^◌, ◌<◌, ◌≡◌, refl, sym, ◌∙◌, Bool, true, false, Option, none, some, List, [], ◌∷◌, ◌++◌,
  arith, Bool-cases, Option-cases, inl, inr,
}
use schaufel.Message.{Message}
use schaufel.Hooks.{hooklist_run}
use schaufel.Bintree.{bin_find, bin_find-write_some}
use schaufel.Queue.{
  Xmark, Queue, Signal, is_null, mark_of, xmark_find, take_queue, queue_take, consumer_cond,
  xmark_consumer_cond,
}
use schaufel.Queue.Segment.{Entry, mark, of_mark, head_or, Avoids}
use schaufel.Queue.Model.{Holds, take, contents}
use schaufel.Queue.Get.{of_mark-split, take-contents, take-none, queue_take-Holds, of_mark-here}
use schaufel.Queue.Refine.{xmark_find-Holds}
use schaufel.Queue.Calls.{
  Wait, WaitResult, woken, timed_out, left, get_wait, xmark_empty, gets, etimedout, get_first,
  get_second, queue_get,
}

-- A wait loop whose condition is met at once uses up no wait.
get_wait-ready :
    (empty : Queue → Bool) (ws : List Wait) (ret : WaitResult) (q : Queue)
    → empty q ≡ false
    → get_wait empty ws ret q ≡ left ret q ws
unfolding get_wait
get_wait-ready empty [] ret q e = rw e
get_wait-ready empty ((w, r) ∷ ws) ret q e = rw e

-- The critical section, for the oldest message of the mark `k`.
pub queue_take-at :
    (q : Queue) (ls : List Entry) (e : Entry) (bs : List Entry) (k : ℕ)
    → mark e ≡ k
    → Holds q (ls ++ (e ∷ bs))
    → of_mark k ls ≡ []
    → (q' : Queue) × (queue_take q k ≡ some (e.msg, q', consumer_cond ∷ xmark_consumer_cond k ∷ []))
      × Holds q' (ls ++ bs)
      × ((q'.preget ≡ q.preget) × (q'.postadd ≡ q.postadd))
      × (q'.delivered ≡ q.delivered + 1)
      × (q'.added ≡ q.added)
      × (xmark_empty k q ≡ false)
      × ((b : ℕ) → Avoids b (ls ++ (e ∷ bs)) → q'.cell b ≡ q.cell b)
      × ((j : ℕ)
          → j < 2 ^ 32
          → (y : Xmark) → bin_find q.xtree j ≡ some y
          → (z : Xmark) × (bin_find q'.xtree j ≡ some z))
queue_take-at q ls e bs k m h o =
    subst
      (λ j.
        of_mark j ls ≡ []
        → (q' : Queue) × (queue_take q j
            ≡ some (e.msg, q', consumer_cond ∷ xmark_consumer_cond j ∷ []))
          × Holds q' (ls ++ bs)
          × ((q'.preget ≡ q.preget) × (q'.postadd ≡ q.postadd))
          × (q'.delivered ≡ q.delivered + 1)
          × (q'.added ≡ q.added)
          × (xmark_empty j q ≡ false)
          × ((b : ℕ) → Avoids b (ls ++ (e ∷ bs)) → q'.cell b ≡ q.cell b)
          × ((i : ℕ)
              → i < 2 ^ 32
              → (y : Xmark) → bin_find q.xtree i ≡ some y
              → (z : Xmark) × (bin_find q'.xtree i ≡ some z)))
      m
      (λ o.
        let (x, n, cell, f, run, h', same) = queue_take-Holds q ls e bs h o in
        let mk = rw (f, of_mark-here ls e bs o) at (h.marks (mark e) (omega arith)) in
        (
          take_queue q (mark e) x e.addr n cell,
          run,
          h',
          (refl, refl),
          refl,
          refl,
          rw (f, mk.0),
          same,
          λ i lt y g. bin_find-write_some q.xtree (mark e) i _ y (omega arith) lt g,
        ))
      o

first_not_null :
    (ls : List Entry) (e : Entry) (bs : List Entry) (first : Option ℕ)
    → first ≡ head_or (ls ++ (e ∷ bs)) none
    → is_null first ≡ false
first_not_null [] e bs first p = rw p
first_not_null (f ∷ ls) e bs first p = rw p

-- A call that finds both lists filled takes at once.
queue_get-run :
    (ws : List Wait) (q q1 q2 : Queue) (msg n : Message) (x : Xmark) (sigs : List Signal)
    → xmark_find true q (mark_of msg.xmark) ≡ some (x, q1)
    → is_null q1.first ≡ false
    → xmark_empty (mark_of msg.xmark) q1 ≡ false
    → queue_take q1 (mark_of msg.xmark) ≡ some (n, q2, sigs)
    → let r =
        hooklist_run q1.preget
          (record msg { payload = n.payload; datalen = n.datalen; metadata = n.metadata }) in
      queue_get ws true (some q) (some msg) ≡ gets r.passed r.msg q2 sigs r.freed
unfolding queue_get
queue_get-run ws q q1 q2 msg n x sigs find first mark run =
    rw (find, get_wait-ready (λ s. is_null s.first) ws woken q1 first)
      (rw (get_wait-ready (xmark_empty (mark_of msg.xmark)) ws woken q1 mark, run) refl)

pub taken_eq :
    {a b : Message} {xs ys : List Message}
    → ◌≡◌ {A = Option (Message × List Message)} (some (a, xs)) (some (b, ys))
    → (a ≡ b) × (xs ≡ ys)
taken_eq h = (cc, cc)

-- A `queue_get` whose mark has messages does not wait. It returns the oldest of them, with the
-- xmark of the caller and after the preget hooks; the others stay in their order, and so do the
-- hooks of the queue. `delivered` goes up by one and both kinds of waiting `queue_add` are woken.
pub queue_get_lem :
    (ws : List Wait) (q : Queue) (es : List Entry) (msg m : Message) (rest : List Message)
    → Holds q es
    → take (mark_of msg.xmark) (contents es) ≡ some (m, rest)
    → let r =
        hooklist_run q.preget
          (record msg { payload = m.payload; datalen = m.datalen; metadata = m.metadata }) in
      (q' : Queue) × (fs : List Entry) × (queue_get ws true (some q) (some msg)
        ≡ gets r.passed r.msg q'
            (consumer_cond ∷ xmark_consumer_cond (mark_of msg.xmark) ∷ [])
            r.freed)
      × Holds q' fs
      × (contents fs ≡ rest)
      × (q'.preget ≡ q.preget)
      × (q'.postadd ≡ q.postadd)
      × (q'.delivered ≡ q.delivered + 1)
      × (q'.added ≡ q.added)
queue_get_lem ws q es msg m rest h t =
    let k = mark_of msg.xmark in
    let (x, tree, run, found, kept, h1) = xmark_find-Holds q es k (omega arith) h in
    let q1 = record q { xtree = tree } in
    elim (of_mark-split k es) [
      | inl o ↦ cc (take-none k es o, t)
      | inr (ls, e, bs, s, o, me) ↦
          let (q2, take_run, h2, hk, one, same, ready, away, kept') =
            queue_take-at q1 ls e bs k me (subst (Holds q1) s h1) o in
          let first = first_not_null ls e bs q.first (rw s at h.is_first) in
          let both : ◌≡◌ {A = Option (Message × List Message)} (some (e.msg, contents (ls ++ bs)))
              (some (m, rest)) =
            sym (take-contents k ls e bs o me) ∙ (rw s at t) in
          let hooks = queue_get-run ws q q1 q2 msg e.msg x _ run first ready take_run in
          (
            q2,
            ls ++ bs,
            rw ((taken_eq both).0) at hooks,
            h2,
            (taken_eq both).1,
            hk.0,
            hk.1,
            one,
            same,
          )
    ]

-- A mark without messages has nothing to take.
pub queue_take-none :
    (q : Queue) (es : List Entry) (k : ℕ)
    → k < 2 ^ 32
    → Holds q es
    → of_mark k es ≡ []
    → (queue_take q k ≡ none) × (xmark_empty k q ≡ true)
unfolding queue_take
queue_take-none q es k lt h o = elim (Option-cases (bin_find q.xtree k)) [
  | inl f ↦ (rw f, rw f)
  | inr (x, f) ↦ let mk = rw (f, o) at (h.marks k lt) in (rw (f, mk.0), rw (f, mk.0))
]

timeout_runs :
    (msg : Message) (k : ℕ) (q : Queue)
    → xmark_empty k q ≡ true
    → get_first msg k true (get_wait (λ s. is_null s.first) ((λ s. s, timed_out) ∷ []) woken q)
      ≡ etimedout q
unfolding get_first get_second get_wait
timeout_runs msg k q e = elim (Bool-cases (is_null q.first)) [ inl f ↦ rw f | inr f ↦ rw (f, e) ]

-- A `queue_get` whose mark has no messages, left alone until its wait times out, returns ETIMEDOUT,
-- also where other marks have messages; what the queue holds stays.
pub queue_get_timeout :
    (q : Queue) (es : List Entry) (msg : Message)
    → Holds q es
    → take (mark_of msg.xmark) (contents es) ≡ none
    → (q' : Queue) × (queue_get ((λ s. s, timed_out) ∷ []) true (some q) (some msg) ≡ etimedout q')
      × Holds q' es
unfolding queue_get
queue_get_timeout q es msg h t =
    let k = mark_of msg.xmark in
    let (x, tree, run, found, kept, h1) = xmark_find-Holds q es k (omega arith) h in
    let q1 = record q { xtree = tree } in
    elim (of_mark-split k es) [
      | inr (ls, e, bs, s, o, me) ↦ let t' = rw s at t in cc (t', take-contents k ls e bs o me)
      | inl o ↦
          let waits_mark = (queue_take-none q1 es k (omega arith) h1 o).1 in
          (q1, rw run (timeout_runs msg k q1 waits_mark), h1)
    ]
