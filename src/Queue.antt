-- ===== src/Queue.antt =====
-- src/queue.c: the bounded queue between consumers and producers, with a queue for each xmark.
-- The list nodes stand on a heap, as in the source; a `none` of a function here is an access
-- through NULL or through a node that is not allocated. A `struct MessageList` and the `struct
-- Message` that it owns are one node. The int64_t counters are numbers: `Queue.Refine` shows that
-- `length` and `count` are never below what is taken from them.
pub mod Segment
pub mod Writes
pub mod Splice
pub mod Model
pub mod Add
pub mod Get
pub mod Calls
pub mod Refine
pub mod Deliver
pub mod Misuse
pub mod Steps
mod Tests
use schaufel.Common.{
  ℕ, zero, suc, ◌+◌, ◌-◌, ◌*◌, ◌%◌, ◌^◌, ◌≡◌, Bool, true, false, not, ◌&&◌, Option, none, some,
  List, [], ◌∷◌, ◌++◌, ltb, leb, ◌==◌, if◌then◌else◌, ◌>>=◌,
}
use schaufel.Message.{Message, message_zero, Block, free_data, metadata_free}
use schaufel.Hooks.{Hook, Ran, hooklist_run}
use schaufel.Bintree.{bin_find, bin_search, bin_write}

-- `struct MessageList`, with its message.
pub record Node : Type 0 where
  pub msg : Message
  pub next : Option ℕ
  pub prev : Option ℕ
  pub xnext : Option ℕ

abbrev pub Heap : Type 0
Heap = ℕ → Option Node

abbrev pub update : Heap → ℕ → Option Node → Heap
update cell a v b = if a == b then v else cell b

-- Writes through a pointer.
abbrev pub write_next : Heap → ℕ → Option ℕ → Option Heap
write_next cell a v = cell a >>= λ n. some (update cell a (some (record n { next = v })))

abbrev pub write_prev : Heap → ℕ → Option ℕ → Option Heap
write_prev cell a v = cell a >>= λ n. some (update cell a (some (record n { prev = v })))

abbrev pub write_xnext : Heap → ℕ → Option ℕ → Option Heap
write_xnext cell a v = cell a >>= λ n. some (update cell a (some (record n { xnext = v })))

-- `struct Xmark`.
pub record Xmark : Type 0 where
  pub first : Option ℕ
  pub last : Option ℕ
  pub count : ℕ

-- `struct Queue`, with the heap that its lists stand on.
pub record Queue : Type 0 where
  pub length : ℕ
  pub added : ℕ
  pub delivered : ℕ
  pub first : Option ℕ
  pub last : Option ℕ
  pub postadd : List Hook
  pub preget : List Hook
  pub xtree : List (ℕ × Xmark)
  pub cell : Heap

abbrev pub max_queue_size : ℕ
max_queue_size = 100000

-- The conditions that threads wait on.
pub data Signal : Type 0 where
  producer_cond : Signal
  consumer_cond : Signal
  xmark_producer_cond : ℕ → Signal
  xmark_consumer_cond : ℕ → Signal

abbrev pub is_null : Option ℕ → Bool
is_null none = true
is_null (some _) = false

-- The uint32_t that `_xmark_find` is given for an int64_t xmark.
abbrev pub mark_of : ℕ → ℕ
mark_of xmark = xmark % 2 ^ 32

-- `_xmark_find`: `room` says whether the allocations succeed. `none` is the NULL that it returns.
unfoldable pub xmark_find : Bool → Queue → ℕ → Option (Xmark × Queue)
unfolding bin_search
xmark_find room q mark =
    bin_search room q.xtree mark (record { first = none; last = none; count = 0 }) >>= λ r.
    some (r.0, record q { xtree = r.1 })

-- "add to xmark queue" and "add to global queue" of `queue_add`: the last node of each list, if
-- there is one, gets the new node as its successor.
abbrev pub link_xmark : Heap → Option ℕ → ℕ → Option Heap
link_xmark cell none p = some cell
link_xmark cell (some l) p = write_xnext cell l (some p)

abbrev pub link_global : Heap → Option ℕ → ℕ → Option Heap
link_global cell none p = some cell
link_global cell (some l) p = write_prev cell p (some l) >>= λ c. write_next c l (some p)

-- "splice element out of global list" of `queue_get`: the neighbours, where they exist, skip it.
abbrev pub unlink_next : Heap → Option ℕ → Option ℕ → Option Heap
unlink_next cell none prev = some cell
unlink_next cell (some b) prev = write_prev cell b prev

abbrev pub unlink_prev : Heap → Option ℕ → Option ℕ → Option Heap
unlink_prev cell none next = some cell
unlink_prev cell (some a) next = write_next cell a next

-- The state and the broadcasts at the end of `queue_add`, with `cell` the heap after the writes to
-- the nodes.
abbrev pub link_queue : Queue → ℕ → ℕ → Xmark → Heap → Queue
link_queue q p mark x cell = record q {
  first = if is_null q.last then some p else q.first;
  last = some p;
  xtree = bin_write q.xtree mark (record {
    first = if is_null x.last then some p else x.first;
    last = some p;
    count = x.count + 1;
  });
  cell = cell;
  length = q.length + 1;
  added = q.added + 1;
}

abbrev pub link_signals : Queue → ℕ → Xmark → List Signal
link_signals q mark x =
    (if q.length == 0 then producer_cond ∷ [] else [])
    ++ (if x.count == 0 then xmark_producer_cond mark ∷ [] else [])

-- `queue_add`, from the end of the wait to the return: `p` is `newmsg`, and `mark` the key of `x`.
unfoldable pub queue_link : Queue → ℕ → ℕ → Option (Queue × List Signal)
queue_link q p mark = do
  x ← bin_find q.xtree mark
  cell ← link_xmark q.cell x.last p
  cell' ← link_global cell q.last p
  some (link_queue q p mark x cell', link_signals q mark x)

-- The state at the end of the critical section of `queue_get`; `n` is the node at `firstrec`, which
-- `message_list_free` frees.
abbrev pub take_queue : Queue → ℕ → Xmark → ℕ → Node → Heap → Queue
take_queue q mark x firstrec n cell =
    let last : Option ℕ = if is_null n.next then n.prev else q.last in
    let first : Option ℕ = if is_null n.prev then n.next else q.first in
    record q {
      first = first;
      last = if is_null first then none else last;
      length = if is_null first then 0 else q.length - 1;
      delivered = q.delivered + 1;
      xtree = bin_write q.xtree mark (record {
        first = n.xnext;
        last = if is_null n.xnext then none else x.last;
        count = if is_null n.xnext then 0 else x.count - 1;
      });
      cell = update cell firstrec none;
    }

-- `queue_get`, from the end of the waits to the unlock: splice the first message of the mark out.
-- The results are the message, the queue and the conditions that are broadcast.
unfoldable pub queue_take : Queue → ℕ → Option (Message × Queue × List Signal)
queue_take q mark = do
  x ← bin_find q.xtree mark
  firstrec ← x.first
  n ← q.cell firstrec
  cell ← unlink_next q.cell n.next n.prev
  cell' ← unlink_prev cell n.prev n.next
  some (n.msg, take_queue q mark x firstrec n cell', consumer_cond ∷ xmark_consumer_cond mark ∷ [])
