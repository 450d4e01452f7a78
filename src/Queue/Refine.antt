-- ===== src/Queue/Refine.antt =====
-- The calls of src/queue.c against the list of messages: `queue_add` appends, `queue_get` takes the
-- oldest message of its mark.
use schaufel.Common.{
  ℕ, ◌+◌, ◌^◌, ◌<◌, ◌≤◌, ◌≡◌, ap, ==_iff, ==_refl, refl, sym, ◌∙◌, true, false, Option, none, some,
  List, [], ◌∷◌, ◌++◌, arith, ◌==◌, leb, if◌then◌else◌, Bool-cases, Option-cases, inl, inr,
}
use schaufel.Message.{Message}
use schaufel.Hooks.{hooklist_run}
use schaufel.Bintree.{bin_find, bin_find-cons}
use schaufel.Queue.{
  Node, Heap, Xmark, Queue, Signal, max_queue_size, update, mark_of, xmark_find, link_queue,
  link_signals,
}
use schaufel.Queue.Segment.{Entry, of_mark, Segment, Avoids, Segment-update}
use schaufel.Queue.Model.{MarkHolds, Holds, put, contents}
use schaufel.Queue.Add.{queue_link-Holds}
use schaufel.Queue.Calls.{fresh_node, adds, waits, queue_add}

-- No node of a segment stands at a free address.
pub Segment-Avoids :
    (cell : Heap) (pv : Option ℕ) (es : List Entry) (nx : Option ℕ) (xn : ℕ → Option ℕ) (p : ℕ)
    → cell p ≡ none
    → Segment cell pv es nx xn
    → Avoids p es
Segment-Avoids cell pv [] nx xn p h s = tt
Segment-Avoids cell pv (e ∷ es) nx xn p h s =
    (λ q. cc (ap cell q), Segment-Avoids cell (some e.addr) es nx xn p h s.1)

-- A new node elsewhere, and a new mark, leave what the queue holds.
pub Holds-update :
    (q : Queue) (es : List Entry) (p : ℕ) (v : Option Node)
    → Avoids p es
    → Holds q es
    → Holds (record q { cell = update q.cell p v }) es
Holds-update q es p v av h = record {
  segment = Segment-update q.cell p v none es none _ av h.segment;
  distinct = h.distinct;
  is_first = h.is_first;
  is_last = h.is_last;
  counted = h.counted;
  marks = h.marks;
}

-- What `_xmark_find` does where its allocations succeed: the mark is in the tree afterwards, no
-- other mark changes, and neither does what the queue holds.
pub xmark_find-Holds :
    (q : Queue) (es : List Entry) (k : ℕ)
    → k < 2 ^ 32
    → Holds q es
    → (x : Xmark) × (t : List (ℕ × Xmark)) × (xmark_find true q k
        ≡ some (x, record q { xtree = t }))
      × (bin_find t k ≡ some x)
      × ((j : ℕ) → j < 2 ^ 32 → (y : Xmark) → bin_find q.xtree j ≡ some y → bin_find t j ≡ some y)
      × Holds (record q { xtree = t }) es
unfolding xmark_find
xmark_find-Holds q es k lt h = elim (Option-cases (bin_find q.xtree k)) [
  | inr (x, f) ↦ (x, q.xtree, rw f, f, (λ j l y g. g), h)
  | inl f ↦
      let fresh : Xmark = record { first = none; last = none; count = 0 } in
      (
        fresh,
        (k, fresh) ∷ q.xtree,
        rw f,
        rw (bin_find-cons q.xtree k k fresh lt lt, ==_refl),
        (λ j l y g. rw (bin_find-cons q.xtree k j fresh lt l) (kept q.xtree k j y fresh f g)),
        record {
          segment = h.segment;
          distinct = h.distinct;
          is_first = h.is_first;
          is_last = h.is_last;
          counted = h.counted;
          marks = λ j l.
              rw (bin_find-cons q.xtree k j fresh lt l)
                (fresh_mark j f (h.marks k lt) (h.marks j l));
        },
      )
]
  where
    kept :
        (t : List (ℕ × Xmark)) (i j : ℕ) (y z : Xmark)
        → bin_find t i ≡ none
        → bin_find t j ≡ some y
        → (if j == i then some z else bin_find t j) ≡ some y
    kept t i j y z f g = elim (Bool-cases (j == i)) [
      | inl p ↦ cc (sym f ∙ (ap (bin_find t) (sym ((==_iff j i).0 p)) ∙ g))
      | inr p ↦ rw p g
    ]

    fresh_mark :
        (j : ℕ)
        → bin_find q.xtree k ≡ none
        → MarkHolds (bin_find q.xtree k) (of_mark k es)
        → MarkHolds (bin_find q.xtree j) (of_mark j es)
        → MarkHolds
            (if j == k
              then some (record { first = none; last = none; count = 0 })
              else bin_find q.xtree j)
            (of_mark j es)
    fresh_mark j f hk hj = elim (Bool-cases (j == k)) [
      | inl p ↦
          let e : of_mark j es ≡ [] = ap (λ i. of_mark i es) ((==_iff j k).0 p) ∙ (rw f at hk) in
          rw (p, e) (refl, refl, refl)
      | inr p ↦ rw p hj
    ]

leb-true : {n m : ℕ} → n ≤ m → leb n m ≡ true
leb-true h = ground arith

leb-false : {n m : ℕ} → m < n → leb n m ≡ false
leb-false h = ground arith

pub contents-append : (es fs : List Entry) → contents (es ++ fs) ≡ contents es ++ contents fs
contents-append [] fs = refl
contents-append (e ∷ es) fs = rw (contents-append es fs)

-- `queue_add` with hooks that accept, enough memory, and a queue that is not over its bound: the
-- message that the hooks made is appended, `added` goes up by one, and nothing is delivered.
pub queue_add_lem :
    (q : Queue) (es : List Entry) (p : ℕ) (m : Message)
    → Holds q es
    → q.cell p ≡ none
    → (hooklist_run q.postadd m).passed ≡ true
    → q.length ≤ max_queue_size
    → let r = hooklist_run q.postadd m in
      (q' : Queue) × (sigs : List Signal) × (fs : List Entry) × (queue_add [] (some p) true true q m
        ≡ adds q' sigs r.freed)
      × Holds q' fs
      × (contents fs ≡ put (contents es) r.msg)
      × (q'.added ≡ q.added + 1)
      × (q'.delivered ≡ q.delivered)
unfolding queue_add
queue_add_lem q es p m h free pass bound =
    let r = hooklist_run q.postadd m in
    let k = mark_of r.msg.xmark in
    let av = Segment-Avoids q.cell none es none _ p free h.segment in
    let v : Node = fresh_node r.msg in
    let q1 = record q { cell = update q.cell p (some v) } in
    let (x, t, run, found, kept, h1) =
      xmark_find-Holds q1 es k (omega arith) (Holds-update q es p (some v) av h) in
    let (cell, link, h2, same) =
      queue_link-Holds (record q1 { xtree = t }) es p r.msg x h1 av (ground arith) found in
    (
      link_queue (record q1 { xtree = t }) p k x cell,
      link_signals (record q1 { xtree = t }) k x,
      es ++ (record { addr = p; msg = r.msg } ∷ []),
      rw (pass, run) (rw (leb-true bound, link) refl),
      h2,
      contents-append es _,
      refl,
      refl,
    )

-- Over the bound `queue_add` waits: nothing is appended, whatever the message.
pub queue_add_full :
    (q : Queue) (es : List Entry) (p : ℕ) (m : Message)
    → Holds q es
    → q.cell p ≡ none
    → (hooklist_run q.postadd m).passed ≡ true
    → max_queue_size < q.length
    → (q' : Queue) × (queue_add [] (some p) true true q m ≡ waits q') × Holds q' es
unfolding queue_add
queue_add_full q es p m h free pass bound =
    let r = hooklist_run q.postadd m in
    let av = Segment-Avoids q.cell none es none _ p free h.segment in
    let v : Node = fresh_node r.msg in
    let q1 = record q { cell = update q.cell p (some v) } in
    let (x, t, run, found, kept, h1) =
      xmark_find-Holds q1 es (mark_of r.msg.xmark) (omega arith)
        (Holds-update q es p (some v) av h) in
    (record q1 { xtree = t }, rw (pass, run) (rw (leb-false bound) refl), h1)
