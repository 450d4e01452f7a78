-- ===== src/Queue/Steps/Safety.antt =====
-- What holds in every state that the interleaved calls of src/queue.c reach.
use mathlib.Core.Path.{subst}
use schaufel.Common.{
  >>=-eq-some, ◌>>=◌, ℕ, ◌+◌, ◌^◌, ◌<◌, ◌≤◌, ◌≡◌, refl, sym, ◌∙◌, false, Option, some, List, [],
  ◌∷◌, ◌++◌, length, arith, ◌==◌, if◌then◌else◌, inl, inr,
}
use schaufel.Hooks.{Hook}
use schaufel.Message.{Message}
use schaufel.Bintree.{bin_find}
use schaufel.Queue.{
  Xmark, Queue, Signal, max_queue_size, mark_of, queue_link, queue_take, link_queue, link_signals,
  Heap, link_xmark, link_global, producer_cond, xmark_producer_cond,
}
use schaufel.Queue.Segment.{Entry, mark, of_mark}
use schaufel.Queue.Model.{Holds, contents}
use schaufel.Queue.Get.{of_mark-split}
use schaufel.Queue.Deliver.{queue_take-none}
use schaufel.Queue.Calls.{queue_added, queue_delivered, queue_init, xmark_empty}
use schaufel.Queue.Steps.{
  System, Step, enter, link, seek, get, stat_added, stat_delivered, Reach, here, next, marked, Inv,
}
use schaufel.Queue.Steps.Keep.{
  enter-Inv, link-Inv, seek-Inv, get-Inv, stat-Inv, second_eq, linked_eq, taken_eq,
}

-- Every step of every thread keeps the invariant.
pub Step-Inv : {s t : System} (es : List Entry) → Step s t → Inv s es → (fs : List Entry) × Inv t fs
unfolding queue_added queue_delivered
Step-Inv {s} es (enter p m x q free run) inv =
    let (y, q', run', inv') = enter-Inv s es p m free inv in
    let same : q' ≡ q = second_eq (sym run' ∙ run) in
    (
      es,
      subst
          (λ z. Inv (record s { queue = z; pending = record { addr = p; msg = m } ∷ s.pending }) es)
          same inv',
    )
Step-Inv {s} es (link ps rs e q sigs split bound run) inv =
    let (q', sigs', run', inv') = link-Inv s es ps rs e split bound inv in
    let same : q' ≡ q = linked_eq (sym run' ∙ run) in
    (
      es ++ (e ∷ []),
      subst
          (λ z.
            Inv (record s { queue = z; pending = ps ++ rs; log_in = s.log_in ++ (e.msg ∷ []) })
              (es ++ (e ∷ [])))
          same inv',
    )
Step-Inv {s} es (seek k x q lt run) inv =
    let (y, q', run', inv') = seek-Inv s es k lt inv in
    let same : q' ≡ q = second_eq (sym run' ∙ run) in
    (es, subst (λ z. Inv (record s { queue = z }) es) same inv')
Step-Inv {s} es (get k m q sigs lt run) inv = elim (of_mark-split k es) [
  | inl o ↦ cc (run, (queue_take-none s.queue es k lt inv.holds o).0)
  | inr (ls, e, bs, split, o, me) ↦
      let (q', sigs', run', inv') = get-Inv s k ls e bs o me (subst (Inv s) split inv) in
      let same = taken_eq (sym run' ∙ run) in
      (
        ls ++ bs,
        subst (λ z. Inv (record s { queue = z; log_out = s.log_out ++ (m ∷ []) }) (ls ++ bs)) same.1
            (subst (λ n. Inv (record s { queue = q'; log_out = s.log_out ++ (n ∷ []) }) (ls ++ bs))
              same.0 inv'),
      )
]
Step-Inv {s} es stat_added inv = (es, stat-Inv s es 0 s.queue.delivered inv)
Step-Inv {s} es stat_delivered inv = (es, stat-Inv s es s.queue.added 0 inv)

pub Reach-Inv :
    {s t : System} (es : List Entry) → Inv s es → Reach s t → (fs : List Entry) × Inv t fs
Reach-Inv es inv here = (es, inv)
Reach-Inv es inv (next r st) = let (fs, i) = Reach-Inv es inv r in Step-Inv fs st i

-- The program at its start: the queue of `queue_init`, and no call of it yet.
abbrev pub init_system : List Hook → List Hook → System
init_system postadd preget = record {
  queue = queue_init postadd preget;
  pending = [];
  log_in = [];
  log_out = [];
}

pub init-Inv : (postadd preget : List Hook) → Inv (init_system postadd preget) []
unfolding queue_init bin_find
init-Inv postadd preget = record {
  holds = record {
    segment = tt;
    distinct = tt;
    is_first = refl;
    is_last = refl;
    counted = refl;
    marks = λ k lt. refl;
  };
  waiting = tt;
  apart = tt;
  bound = omega arith;
  fifo = λ k. refl;
}

-- In every state that any interleaving of `queue_add`s, `queue_get`s and reads of the statistics
-- reaches from `queue_init`, the lists on the heap hold some messages; the messages of each mark
-- that were linked are those that were taken, in the same order, followed by those that are held;
-- and `length` is at most MAX_QUEUE_SIZE + 1.
pub reachable_fifo :
    (postadd preget : List Hook) {s : System}
    → Reach (init_system postadd preget) s
    → (es : List Entry) × Holds s.queue es
      × ((k : ℕ) → marked k s.log_in ≡ marked k s.log_out ++ marked k (contents es))
      × (s.queue.length ≤ max_queue_size + 1)
reachable_fifo postadd preget r =
    let (es, inv) = Reach-Inv [] (init-Inv postadd preget) r in (es, inv.holds, inv.fifo, inv.bound)

-- In every reachable state a `queue_add` whose wait may end can link its node: the critical section
-- reads and writes only nodes that are allocated.
pub reachable_link_runs :
    (postadd preget : List Hook) {s : System} (ps rs : List Entry) (e : Entry)
    → Reach (init_system postadd preget) s
    → s.pending ≡ ps ++ (e ∷ rs)
    → s.queue.length ≤ max_queue_size
    → (q : Queue) × (sigs : List Signal) × (queue_link s.queue e.addr (mark e) ≡ some (q, sigs))
reachable_link_runs postadd preget {s} ps rs e r split bound =
    let (es, inv) = Reach-Inv [] (init-Inv postadd preget) r in
    let (q, sigs, run, inv') = link-Inv s es ps rs e split bound inv in (q, sigs, run)

-- In every reachable state a `queue_get` that finds the list of its mark not empty takes a message
-- of that mark, and the critical section reads and writes only nodes that are allocated.
pub reachable_get_runs :
    (postadd preget : List Hook) {s : System} (k : ℕ)
    → Reach (init_system postadd preget) s
    → k < 2 ^ 32
    → xmark_empty k s.queue ≡ false
    → (m : Message) × (q : Queue) × (sigs : List Signal) × (queue_take s.queue k
        ≡ some (m, q, sigs))
      × (mark_of m.xmark ≡ k)
reachable_get_runs postadd preget {s} k r lt filled =
    let (es, inv) = Reach-Inv [] (init-Inv postadd preget) r in
    elim (of_mark-split k es) [
      | inl o ↦ cc (filled, (queue_take-none s.queue es k lt inv.holds o).1)
      | inr (ls, e, bs, split, o, me) ↦
          let (q, sigs, run, inv') = get-Inv s k ls e bs o me (subst (Inv s) split inv) in
          (e.msg, q, sigs, run, me)
    ]

waking :
    (q : Queue) (k : ℕ) (x : Xmark) (es : List Entry)
    → q.length ≡ length es
    → x.count ≡ length (of_mark k es)
    → link_signals q k x
      ≡ (if length es == 0 then producer_cond ∷ [] else [])
        ++ (if length (of_mark k es) == 0 then xmark_producer_cond k ∷ [] else [])
waking q k x es a b = rw (a, b) refl

signals_eq :
    {a b : List Signal} {x y : Queue}
    → ◌≡◌ {A = Option (Queue × List Signal)} (some (x, a)) (some (y, b))
    → a ≡ b
signals_eq h = cc

-- No wake-up is lost: a link broadcasts to the waits of `queue_get` whose condition it ends, that
-- of the queue exactly if the queue held nothing, and that of the mark exactly if it had no message.
pub queue_link_wakes :
    (q q' : Queue) (es : List Entry) (p k : ℕ) (sigs : List Signal)
    → Holds q es
    → k < 2 ^ 32
    → queue_link q p k ≡ some (q', sigs)
    → sigs
      ≡ (if length es == 0 then producer_cond ∷ [] else [])
        ++ (if length (of_mark k es) == 0 then xmark_producer_cond k ∷ [] else [])
unfolding queue_link
queue_link_wakes q q' es p k sigs h lt run =
    let last = λ (x : Xmark) (c : Heap). some (link_queue q p k x c, link_signals q k x) in
    let (x, f, run1) =
      >>=-eq-some (bin_find q.xtree k)
        (λ x. link_xmark q.cell x.last p >>= λ c. link_global c q.last p >>= last x) run in
    let (c1, _, run2) =
      >>=-eq-some (link_xmark q.cell x.last p) (λ c. link_global c q.last p >>= last x) run1 in
    let (c2, _, run3) = >>=-eq-some (link_global c1 q.last p) (last x) run2 in
    let mk = rw f at (h.marks k lt) in
    let run3' : ◌≡◌ {A = Option (Queue × List Signal)}
        (some (link_queue q p k x c2, link_signals q k x)) (some (q', sigs)) =
      run3 in
    sym (signals_eq run3') ∙ waking q k x es h.counted mk.2
