-- ===== src/Queue/Steps/Keep.antt =====
-- Each critical section of src/queue.c keeps the invariant of the interleaved system.
use mathlib.Core.List.{append_assoc}
use schaufel.Common.{
  ℕ, ◌^◌, ◌<◌, ◌≤◌, ◌≡◌, ◌≢◌, refl, sym, ◌∙◌, ap, true, Option, none, some, List, [], ◌∷◌, ◌++◌,
  length-append, arith, ◌==◌, All, Bool-cases, inl, inr,
}
use schaufel.Message.{Message}
use schaufel.Bintree.{bin_find, bin_find-write_some}
use schaufel.Queue.{
  Xmark, Queue, Signal, max_queue_size, mark_of, update, xmark_find, queue_link, queue_take,
  link_queue,
}
use schaufel.Queue.Segment.{Entry, mark, of_mark, Avoids}
use schaufel.Queue.Splice.{Distinct-around, Avoids-append, Avoids-concat}
use schaufel.Queue.Model.{contents}
use schaufel.Queue.Add.{queue_link-Holds, update_ne, Avoids-snoc}
use schaufel.Queue.Refine.{Segment-Avoids, Holds-update, xmark_find-Holds, contents-append}
use schaufel.Queue.Deliver.{queue_take-at}
use schaufel.Queue.Calls.{fresh_node}
use schaufel.Queue.Steps.{System, IsWaiting, marked, Inv}

pub marked-append :
    (k : ℕ) (xs ys : List Message) → marked k (xs ++ ys) ≡ marked k xs ++ marked k ys
marked-append k [] ys = refl
marked-append k (m ∷ xs) ys = ground (arith, marked-append k xs ys)

-- The message that is taken comes first among those of its mark.
marked-taken :
    (j k : ℕ) (ls : List Entry) (e : Entry) (bs : List Entry)
    → of_mark k ls ≡ []
    → mark e ≡ k
    → marked j (contents (ls ++ (e ∷ bs))) ≡ marked j (e.msg ∷ []) ++ marked j (contents (ls ++ bs))
marked-taken j k [] e bs o m = ground arith
marked-taken j k (f ∷ ls) e bs o m = elim (Bool-cases (mark f == k)) [
  | inl p ↦ ground (arith, o, p)
  | inr p ↦ ground (arith, m, p, marked-taken j k ls e bs (ground (arith, o, p)) m)
]

-- Waiting nodes stay so, under a change elsewhere.
Waiting-keep :
    (P : Entry → Type 0) (q q' : Queue) (es fs ps : List Entry)
    → All (IsWaiting q es) ps
    → All P ps
    → ((e : Entry) → P e → IsWaiting q es e → (q'.cell e.addr ≡ q.cell e.addr) × Avoids e.addr fs)
    → ((j : ℕ)
        → j < 2 ^ 32
        → (y : Xmark) → bin_find q.xtree j ≡ some y
        → (z : Xmark) × (bin_find q'.xtree j ≡ some z))
    → All (IsWaiting q' fs) ps
Waiting-keep P q q' es fs [] w a same kept = tt
Waiting-keep P q q' es fs (e ∷ ps) w a same kept =
    let (c, av) = same e a.0 w.0 in
    let (x, f) = w.0.2 in
    (
      (c ∙ w.0.0, av, kept (mark e) (omega arith) x f),
      Waiting-keep P q q' es fs ps w.1 a.1 same kept,
    )

-- No waiting node stands at a free address.
Waiting-Avoids :
    (q : Queue) (es ps : List Entry) (p : ℕ)
    → q.cell p ≡ none
    → All (IsWaiting q es) ps
    → Avoids p ps
Waiting-Avoids q es [] p h w = tt
Waiting-Avoids q es (e ∷ ps) p h w =
    (λ d. cc (ap q.cell d, h, w.0.0), Waiting-Avoids q es ps p h w.1)

All-around :
    (P : Entry → Type 0) (ps : List Entry) (e : Entry) (rs : List Entry)
    → All P (ps ++ (e ∷ rs))
    → All P (ps ++ rs) × P e
All-around P [] e rs h = (h.1, h.0)
All-around P (f ∷ ps) e rs h = let (l, r) = All-around P ps e rs h.1 in ((h.0, l), r)

pub enter-Inv :
    (s : System) (es : List Entry) (p : ℕ) (m : Message)
    → s.queue.cell p ≡ none
    → Inv s es
    → (x : Xmark) × (q : Queue) × (xmark_find true
          (record (s.queue) { cell = update s.queue.cell p (some (fresh_node m)) })
          (mark_of m.xmark)
        ≡ some (x, q))
      × Inv (record s { queue = q; pending = record { addr = p; msg = m } ∷ s.pending }) es
enter-Inv s es p m free inv =
    let q1 : Queue = record (s.queue) { cell = update s.queue.cell p (some (fresh_node m)) } in
    let av = Segment-Avoids s.queue.cell none es none _ p free inv.holds.segment in
    let apart = Waiting-Avoids s.queue es s.pending p free inv.waiting in
    let (x, t, run, found, kept, h) =
      xmark_find-Holds q1 es (mark_of m.xmark) (omega arith)
        (Holds-update s.queue es p (some (fresh_node m)) av inv.holds) in
    (
      x,
      record q1 { xtree = t },
      run,
      record {
        holds = h;
        waiting = (
          (ground arith, av, (x, found)),
          Waiting-keep (λ e. e.addr ≢ p) s.queue (record q1 { xtree = t }) es es s.pending
              inv.waiting apart (λ e n w. (update_ne s.queue.cell p e.addr _ n, w.1))
              (λ j lt y f. (y, kept j lt y f)),
        );
        apart = (apart, inv.apart);
        bound = inv.bound;
        fifo = inv.fifo;
      },
    )

pub link-Inv :
    (s : System) (es ps rs : List Entry) (e : Entry)
    → s.pending ≡ ps ++ (e ∷ rs)
    → s.queue.length ≤ max_queue_size
    → Inv s es
    → (q : Queue) × (sigs : List Signal) × (queue_link s.queue e.addr (mark e) ≡ some (q, sigs))
      × Inv
          (record s { queue = q; pending = ps ++ rs; log_in = s.log_in ++ (e.msg ∷ []) })
          (es ++ (e ∷ []))
link-Inv s es ps rs e split bound inv =
    let (others, (n, av, (x, f))) =
      All-around (IsWaiting s.queue es) ps e rs (rw split at inv.waiting) in
    let (apart, _, l, r, _) = Distinct-around ps e rs (rw split at inv.apart) in
    let (cell, run, h, same) = queue_link-Holds s.queue es e.addr e.msg x inv.holds av n f in
    let q' = link_queue s.queue e.addr (mark e) x cell in
    (
      q',
      _,
      run,
      record {
        holds = h;
        waiting =
            Waiting-keep (λ g. g.addr ≢ e.addr) s.queue q' es (es ++ (e ∷ [])) (ps ++ rs) others
              (Avoids-concat e.addr ps rs l r)
              (λ g d w. (same g.addr w.1 d, Avoids-snoc es e w.1 (λ p. d (sym p))))
              (λ j lt y g. bin_find-write_some s.queue.xtree (mark e) j _ y (omega arith) lt g);
        apart = apart;
        bound = omega arith;
        fifo =
            λ k. rw (marked-append, inv.fifo k, contents-append, marked-append, append_assoc) refl;
      },
    )

pub seek-Inv :
    (s : System) (es : List Entry) (k : ℕ)
    → k < 2 ^ 32
    → Inv s es
    → (x : Xmark) × (q : Queue) × (xmark_find true s.queue k ≡ some (x, q))
      × Inv (record s { queue = q }) es
seek-Inv s es k lt inv =
    let (x, t, run, found, kept, h) = xmark_find-Holds s.queue es k lt inv.holds in
    (
      x,
      record (s.queue) { xtree = t },
      run,
      record {
        holds = h;
        waiting =
            Waiting-keep (IsWaiting s.queue es) s.queue (record (s.queue) { xtree = t }) es es
              s.pending inv.waiting inv.waiting (λ e a w. (refl, w.1))
              (λ j l y f. (y, kept j l y f));
        apart = inv.apart;
        bound = inv.bound;
        fifo = inv.fifo;
      },
    )

pub get-Inv :
    (s : System) (k : ℕ) (ls : List Entry) (e : Entry) (bs : List Entry)
    → of_mark k ls ≡ []
    → mark e ≡ k
    → Inv s (ls ++ (e ∷ bs))
    → (q : Queue) × (sigs : List Signal) × (queue_take s.queue k ≡ some (e.msg, q, sigs))
      × Inv (record s { queue = q; log_out = s.log_out ++ (e.msg ∷ []) }) (ls ++ bs)
get-Inv s k ls e bs o m inv =
    let es = ls ++ (e ∷ bs) in
    let (q, run, h, _, one, same, ready, away, kept) =
      queue_take-at s.queue ls e bs k m inv.holds o in
    (
      q,
      _,
      run,
      record {
        holds = h;
        waiting =
            Waiting-keep (IsWaiting s.queue es) s.queue q es (ls ++ bs) s.pending inv.waiting
              inv.waiting
              (λ g a w.
                let (x, y) = Avoids-append g.addr ls (e ∷ bs) w.1 in
                (away g.addr w.1, Avoids-concat g.addr ls bs x y.1))
              kept;
        apart = inv.apart;
        bound = omega (
          arith,
          h.counted,
          inv.bound,
          inv.holds.counted,
          length-append ls bs,
          length-append ls (e ∷ bs),
        );
        fifo = λ j. rw (marked-append, inv.fifo j, marked-taken j k ls e bs o m, append_assoc) refl;
      },
    )

pub second_eq :
    {a b : Xmark} {x y : Queue}
    → ◌≡◌ {A = Option (Xmark × Queue)} (some (a, x)) (some (b, y))
    → x ≡ y
second_eq h = cc

pub linked_eq :
    {a b : List Signal} {x y : Queue}
    → ◌≡◌ {A = Option (Queue × List Signal)} (some (x, a)) (some (y, b))
    → x ≡ y
linked_eq h = cc

pub taken_eq :
    {m n : Message} {a b : List Signal} {x y : Queue}
    → ◌≡◌ {A = Option (Message × Queue × List Signal)} (some (m, x, a)) (some (n, y, b))
    → (m ≡ n) × (x ≡ y)
taken_eq h = (cc, cc)

pub stat-Inv :
    (s : System) (es : List Entry) (a d : ℕ)
    → Inv s es
    → Inv (record s { queue = record (s.queue) { added = a; delivered = d } }) es
stat-Inv s es a d inv = record {
  holds = record {
    segment = inv.holds.segment;
    distinct = inv.holds.distinct;
    is_first = inv.holds.is_first;
    is_last = inv.holds.is_last;
    counted = inv.holds.counted;
    marks = inv.holds.marks;
  };
  waiting =
      Waiting-keep (IsWaiting s.queue es) s.queue (record (s.queue) { added = a; delivered = d }) es
        es s.pending inv.waiting inv.waiting (λ e a' w. (refl, w.1)) (λ j l y f. (y, f));
  apart = inv.apart;
  bound = inv.bound;
  fifo = inv.fifo;
}
