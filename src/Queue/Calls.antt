-- ===== src/Queue/Calls.antt =====
-- The calls of src/queue.c: allocation, hooks, the two waits and their critical sections.
-- What the allocator answers, what the other threads do to the queue while this one waits on a
-- condition, and how a timed wait ends, are arguments.
use schaufel.Common.{
  ℕ, zero, suc, ◌>>=◌, ◌+◌, ◌-◌, ◌*◌, Bool, true, false, ◌&&◌, not, Option, none, some, List, [],
  ◌∷◌, ◌++◌, ltb, leb, if◌then◌else◌,
}
use schaufel.Message.{Message, Block, free_data, metadata_free}
use schaufel.Hooks.{Hook, hooklist_run}
use schaufel.Bintree.{bin_find}
use schaufel.Queue.{
  Node, Heap, update, Xmark, Queue, Signal, max_queue_size, is_null, mark_of, xmark_find,
  queue_link, queue_take,
}

-- How a call of `queue_add` ends: the errors carry the blocks that were freed on the way.
-- `waits` is a thread that is still in pthread_cond_wait.
pub data AddOutcome : Type 0 where
  fault : AddOutcome
  enomem : Queue → List Block → AddOutcome
  ebadmsg : Queue → List Block → AddOutcome
  waits : Queue → AddOutcome
  adds : Queue → List Signal → List Block → AddOutcome

-- `while (q->length > MAX_QUEUE_SIZE) pthread_cond_wait(…)`: each element of the list is what the
-- others do in one wait. The Boolean says whether the loop was left.
unfoldable pub add_wait : List (Queue → Queue) → Queue → Bool × Queue
add_wait [] q = (leb q.length max_queue_size, q)
add_wait (w ∷ ws) q =
    let rest = add_wait ws (w q) in if ltb max_queue_size q.length then rest else (true, q)

abbrev pub fresh_node : Message → Node
fresh_node m = record { msg = m; next = none; prev = none; xnext = none }

add_linked : Option (Queue × List Signal) → List Block → AddOutcome
add_linked none freed = fault
add_linked (some (q, signals)) freed = adds q signals freed

-- From the return of `_xmark_find` on. `arg` is what the caller gave, and `m` what the hooks made of
-- it. Without memory for the mark the arguments are freed.
add_found :
    List (Queue → Queue)
    → Message
    → ℕ
    → Message
    → List Block
    → Queue
    → Option (Xmark × Queue)
    → AddOutcome
add_found others arg p m freed q none =
    enomem q (freed ++ (free_data arg.payload ++ metadata_free arg.metadata))
add_found others arg p m freed q (some (x, found)) =
    let (left, now) = add_wait others found in
    if left then add_linked (queue_link now p (mark_of m.xmark)) freed else waits now

-- `queue_add q data datalen xmark md`, the arguments as the fields of a message. `node` is the list
-- node that calloc gives, `body` says whether it gives the message of the node, which the source
-- does not check, and `room` whether it gives the nodes of `_xmark_find`.
unfoldable pub queue_add :
    List (Queue → Queue) → Option ℕ → Bool → Bool → Queue → Message → AddOutcome
unfolding add_found add_linked add_wait
queue_add others none body room q arg = enomem q (free_data arg.payload)
queue_add others (some p) false room q arg = fault
queue_add others (some p) true room q arg =
    let r = hooklist_run q.postadd arg in
    let q' = record q { cell = update q.cell p (some (fresh_node r.msg)) } in
    if r.passed
    then add_found others arg p r.msg r.freed q (xmark_find room q' (mark_of r.msg.xmark))
    else ebadmsg q (r.freed ++ metadata_free arg.metadata)

-- What pthread_cond_timedwait returns.
pub data WaitResult : Type 0 where
  woken timed_out failed : WaitResult

abbrev pub is_timeout : WaitResult → Bool
is_timeout timed_out = true
is_timeout _ = false

-- One wait: what the others did, and its result.
abbrev pub Wait : Type 0
Wait = (Queue → Queue) × WaitResult

-- `struct timespec`.
pub record Timespec : Type 0 where
  pub sec : ℕ
  pub nsec : ℕ

-- `abstimeout`: now, in seconds and microseconds, and the timeout of the queue.
unfoldable pub deadline : ℕ → ℕ → Timespec → Timespec
deadline sec usec timeout =
    let s = sec + timeout.sec in
    let n = usec * 1000 + timeout.nsec in
    if leb 1000000000 n
    then record { sec = s + 1; nsec = n - 1000000000 }
    else record { sec = s; nsec = n }

-- How a call of `queue_get` ends. In `gets` the Boolean is the verdict of the preget hooks:
-- with `false` the call returns EBADMSG.
pub data GetOutcome : Type 0 where
  fault : GetOutcome
  einval : GetOutcome
  waits : Queue → GetOutcome
  etimedout : Queue → GetOutcome
  gets : Bool → Message → Queue → List Signal → List Block → GetOutcome

-- The result of a wait loop: still waiting, or left with the last `ret`.
pub data Loop : Type 0 where
  sleeping : Queue → Loop
  left : WaitResult → Queue → List Wait → Loop

-- `while (<head> == NULL && ret != ETIMEDOUT) ret = pthread_cond_timedwait(…)`.
unfoldable pub get_wait : (Queue → Bool) → List Wait → WaitResult → Queue → Loop
get_wait empty [] ret q = if empty q && not (is_timeout ret) then sleeping q else left ret q []
get_wait empty ((w, r) ∷ ws) ret q =
    let rest = get_wait empty ws r (w q) in
    if empty q && not (is_timeout ret) then rest else left ret q ((w, r) ∷ ws)

abbrev pub no_first : Option Xmark → Bool
no_first none = true
no_first (some x) = is_null x.first

-- `x->first == NULL`, for the node of a mark.
abbrev pub xmark_empty : ℕ → Queue → Bool
xmark_empty mark q = no_first (bin_find q.xtree mark)

-- From the splice to the return: the fields of the message that the caller gave are overwritten,
-- but for its xmark, and the preget hooks run after the unlock.
unfoldable pub get_taken : Message → List Hook → Option (Message × Queue × List Signal) → GetOutcome
get_taken msg hooks none = fault
get_taken msg hooks (some (m, q, signals)) =
    let r =
      hooklist_run hooks
        (record msg { payload = m.payload; datalen = m.datalen; metadata = m.metadata }) in
    gets r.passed r.msg q signals r.freed

-- What follows the second wait loop.
unfoldable pub get_second : Message → ℕ → Loop → GetOutcome
get_second msg mark (sleeping q) = waits q
get_second msg mark (left ret q ws) =
    if is_timeout ret then etimedout q else get_taken msg q.preget (queue_take q mark)

-- What follows the first wait loop. `known` is false if `_xmark_find` returned NULL, which the
-- source does not check before it reads `x->first`.
unfoldable pub get_first : Message → ℕ → Bool → Loop → GetOutcome
get_first msg mark known (sleeping q) = waits q
get_first msg mark known (left ret q ws) =
    if is_timeout ret
    then etimedout q
    else if not known
    then fault
    else get_second msg mark (get_wait (xmark_empty mark) ws ret q)

get_found : List Wait → Message → ℕ → Queue → Option (Xmark × Queue) → GetOutcome
get_found waiting msg mark q none =
    get_first msg mark false (get_wait (λ s. is_null s.first) waiting woken q)
get_found waiting msg mark q (some (x, found)) =
    get_first msg mark true (get_wait (λ s. is_null s.first) waiting woken found)

-- `queue_get`; `room` says whether the allocations of `_xmark_find` succeed.
unfoldable pub queue_get : List Wait → Bool → Option Queue → Option Message → GetOutcome
unfolding get_found get_first get_second get_taken
queue_get waiting room none msg = einval
queue_get waiting room (some q) none = einval
queue_get waiting room (some q) (some msg) =
    get_found waiting msg (mark_of msg.xmark) q (xmark_find room q (mark_of msg.xmark))

-- `queue_init`, where the allocations and the initialisations of the locks succeed. The arguments
-- are the hooks that `hooks_add` builds from the settings `postadd` and `preget`.
unfoldable pub queue_init : List Hook → List Hook → Queue
queue_init postadd preget = record {
  length = 0;
  added = 0;
  delivered = 0;
  first = none;
  last = none;
  postadd = ([] ++ postadd) ++ preget;
  preget = [];
  xtree = [];
  cell = λ _. none;
}

-- `queue_length`, `queue_added` and `queue_delivered`: the number, and the queue afterwards.
unfoldable pub queue_length : Queue → ℕ × Queue
queue_length q = (q.length, q)

unfoldable pub queue_added : Queue → ℕ × Queue
queue_added q = (q.added, record q { added = 0 })

unfoldable pub queue_delivered : Queue → ℕ × Queue
queue_delivered q = (q.delivered, record q { delivered = 0 })

-- The loop of `queue_free`: the nodes that are freed, in order, and the heap afterwards. `none` is
-- a read through a node that is not allocated, or the end of the fuel.
unfoldable pub free_nodes : ℕ → Heap → Option ℕ → Option (List ℕ × Heap)
free_nodes fuel cell none = some ([], cell)
free_nodes zero cell (some a) = none
free_nodes (suc fuel) cell (some a) = do
  n ← cell a
  r ← free_nodes fuel (update cell a none) n.next
  some (a ∷ r.0, r.1)
