-- ===== src/Queue/Steps.antt =====
-- The queue of src/queue.c under any interleaving of its critical sections. A step is what one
-- thread does between two operations on the mutex: the wait loops release it, so that a
-- `queue_add` is two steps, and any steps of other threads may come between.
pub mod Keep
pub mod Safety
use mathlib.Core.Path.{subst}
use mathlib.Core.List.{append_assoc, append-nil}
use schaufel.Common.{
  ℕ, ◌+◌, ◌%◌, ◌^◌, ◌<◌, ◌≤◌, ◌≡◌, ◌≢◌, refl, sym, ◌∙◌, ap, Bool, true, false, Option, none, some,
  List, [], ◌∷◌, ◌++◌, length, length-append, arith, ◌==◌, if◌then◌else◌, All, Bool-cases, inl, inr,
}
use schaufel.Message.{Message}
use schaufel.Bintree.{bin_find, bin_find-write_some}
use schaufel.Queue.{
  Node, Xmark, Queue, Signal, max_queue_size, mark_of, update, xmark_find, queue_link, queue_take,
  link_queue,
}
use schaufel.Queue.Segment.{Entry, mark, of_mark, Avoids, Distinct}
use schaufel.Queue.Splice.{Distinct-around, Avoids-append, Avoids-concat}
use schaufel.Queue.Model.{Holds, contents}
use schaufel.Queue.Add.{queue_link-Holds, update_ne, Avoids-snoc}
use schaufel.Queue.Get.{of_mark-split}
use schaufel.Queue.Refine.{Segment-Avoids, Holds-update, xmark_find-Holds, contents-append}
use schaufel.Queue.Deliver.{queue_take-at, queue_take-none}
use schaufel.Queue.Calls.{fresh_node, queue_added, queue_delivered}

-- `pending` are the `queue_add`s between `_xmark_find` and the end of their wait. The two logs
-- record what was linked and what was taken, in order.
pub record System : Type 0 where
  pub queue : Queue
  pub pending : List Entry
  pub log_in : List Message
  pub log_out : List Message

pub data Step (s : System) : System → Type 0 where
  -- `queue_add`: allocate the node, lock, find the xmark
  enter :
      (p : ℕ) (m : Message) (x : Xmark) (q : Queue)
      → s.queue.cell p ≡ none
      → xmark_find true
          (record (s.queue) { cell = update s.queue.cell p (some (fresh_node m)) })
          (mark_of m.xmark)
        ≡ some (x, q)
      → Step s (record s { queue = q; pending = record { addr = p; msg = m } ∷ s.pending })
  -- `queue_add`: the wait ends, and the node is linked
  link :
      (ps rs : List Entry) (e : Entry) (q : Queue) (sigs : List Signal)
      → s.pending ≡ ps ++ (e ∷ rs)
      → s.queue.length ≤ max_queue_size
      → queue_link s.queue e.addr (mark e) ≡ some (q, sigs)
      → Step s (record s { queue = q; pending = ps ++ rs; log_in = s.log_in ++ (e.msg ∷ []) })
  -- `queue_get`: lock, find the xmark
  seek :
      (k : ℕ) (x : Xmark) (q : Queue)
      → k < 2 ^ 32
      → xmark_find true s.queue k ≡ some (x, q)
      → Step s (record s { queue = q })
  -- `queue_get`: both waits have ended, and a message is taken
  get :
      (k : ℕ) (m : Message) (q : Queue) (sigs : List Signal)
      → k < 2 ^ 32
      → queue_take s.queue k ≡ some (m, q, sigs)
      → Step s (record s { queue = q; log_out = s.log_out ++ (m ∷ []) })
  -- the statistics thread
  stat_added : Step s (record s { queue = (queue_added s.queue).1 })
  stat_delivered : Step s (record s { queue = (queue_delivered s.queue).1 })

pub data Reach (s : System) : System → Type 0 where
  here : Reach s s
  next : {t u : System} → Reach s t → Step t u → Reach s u

-- The messages of one mark.
abbrev pub marked : ℕ → List Message → List Message
marked k [] = []
marked k (m ∷ ms) = let rest = marked k ms in if mark_of m.xmark == k then m ∷ rest else rest

-- A node that is not yet linked.
abbrev pub IsWaiting : Queue → List Entry → Entry → Type 0
IsWaiting q es e =
    (q.cell e.addr ≡ some (fresh_node e.msg))
    × Avoids e.addr es
    × ((x : Xmark) × (bin_find q.xtree (mark e) ≡ some x))

pub record Inv (s : System) (es : List Entry) : Type 0 where
  pub holds : Holds s.queue es
  pub waiting : All (IsWaiting s.queue es) s.pending
  pub apart : Distinct s.pending
  pub bound : s.queue.length ≤ max_queue_size + 1
  pub fifo : (k : ℕ) → marked k s.log_in ≡ marked k s.log_out ++ marked k (contents es)
