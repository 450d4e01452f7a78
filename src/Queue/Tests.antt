-- ===== src/Queue/Tests.antt =====
-- Runs of src/queue.c and its hooks on concrete queues.
use schaufel.Common.{
  ℕ, ◌+◌, ◌^◌, ◌<◌, ◌≤◌, ◌≡◌, refl, true, false, none, some, List, [], ◌∷◌, ◌++◌, arith, ◌==◌,
  if◌then◌else◌, All,
}
use schaufel.Message.{Message, table_at, payload_at, message_zero}
use schaufel.Hooks.{Hook, hooklist_run}
use schaufel.Hooks.Laws.{hooklist_run_refused}
use schaufel.Bintree.{bin_find, bin_search, bin_write, bin_intcomp}
use schaufel.Queue.{
  Heap, Xmark, Queue, Signal, max_queue_size, mark_of, xmark_find, queue_link, queue_take, update,
  consumer_cond, xmark_consumer_cond, xmark_producer_cond,
}
use schaufel.Queue.Segment.{Entry, of_mark, Avoids}
use schaufel.Queue.Model.{Holds, MarkHolds, contents}
use schaufel.Queue.Refine.{Holds-update, queue_add_lem}
use schaufel.Queue.Deliver.{queue_get_lem, queue_get_timeout}
use schaufel.Queue.Misuse.{queue_add-double_free, free_nodes_lem}
use schaufel.Queue.Steps.{System, enter, link, get, Reach, here, next, marked}
use schaufel.Queue.Steps.Safety.{
  init_system, reachable_fifo, reachable_link_runs, reachable_get_runs, queue_link_wakes,
}
use schaufel.Queue.Calls.{
  fresh_node, queue_init, queue_add, queue_get, adds, ebadmsg, gets, etimedout, timed_out,
  free_nodes,
}

abbrev msg_a : Message
msg_a = record { payload = some 100; datalen = 3; xmark = 5; metadata = none }

abbrev entry_a : Entry
entry_a = record { addr = 7; msg = msg_a }

abbrev xmark_a : Xmark
xmark_a = record { first = some 7; last = some 7; count = 1 }

-- One message, of mark 5.
abbrev one : Queue
one = record {
  length = 1;
  added = 1;
  delivered = 0;
  first = some 7;
  last = some 7;
  postadd = [];
  preget = [];
  xtree = (5, xmark_a) ∷ [];
  cell = λ b. if 7 == b then some (fresh_node msg_a) else none;
}

one-marks : (k : ℕ) → k < 2 ^ 32 → MarkHolds (bin_find one.xtree k) (of_mark k (entry_a ∷ []))
unfolding bin_find bin_intcomp
one-marks k lt = ground arith

one-Holds : Holds one (entry_a ∷ [])
one-Holds = record {
  segment = (refl, tt);
  distinct = (tt, tt);
  is_first = refl;
  is_last = refl;
  counted = refl;
  marks = one-marks;
}

abbrev msg_b : Message
msg_b = record { payload = some 101; datalen = 4; xmark = 6; metadata = some 200 }

-- A hook that refuses every message, and one that sets the xmark.
abbrev refuse : Hook
refuse m = record { passed = false; msg = m; freed = [] }

abbrev tag : Hook
tag m = record { passed = true; msg = record m { xmark = 5 }; freed = [] }

-- `one` with the node of a second message, not yet linked.
abbrev one_more : Queue
one_more = record one { cell = update one.cell 9 (some (fresh_node msg_b)) }

one_more-Holds : Holds one_more (entry_a ∷ [])
one_more-Holds =
    Holds-update one (entry_a ∷ []) 9 (some (fresh_node msg_b)) (omega arith, tt) one-Holds

queue_add_example :
    (q' : Queue) × (sigs : List Signal) × (fs : List Entry) × (queue_add []
        (some 9)
        true
        true
        one
        msg_b
      ≡ adds q' sigs [])
    × Holds q' fs
    × (contents fs ≡ msg_a ∷ msg_b ∷ [])
    × (q'.added ≡ 2)
    × (q'.delivered ≡ 0)
unfolding hooklist_run
queue_add_example = queue_add_lem one (entry_a ∷ []) 9 msg_b one-Holds refl refl (omega arith)

queue_get_example :
    (q' : Queue) × (fs : List Entry) × (queue_get [] true
        (some one)
        (some (record message_zero { xmark = 5 }))
      ≡ gets true msg_a q' (consumer_cond ∷ xmark_consumer_cond 5 ∷ []) [])
    × Holds q' fs
    × (contents fs ≡ [])
    × (q'.preget ≡ [])
    × (q'.postadd ≡ [])
    × (q'.delivered ≡ 1)
    × (q'.added ≡ 1)
unfolding hooklist_run
queue_get_example =
    queue_get_lem [] one (entry_a ∷ []) (record message_zero { xmark = 5 }) msg_a [] one-Holds refl

queue_get_timeout_example :
    (q' : Queue) × (queue_get ((λ s. s, timed_out) ∷ []) true (some one) (some message_zero)
      ≡ etimedout q')
    × Holds q' (entry_a ∷ [])
queue_get_timeout_example = queue_get_timeout one (entry_a ∷ []) message_zero one-Holds refl

-- Mark 6 is in the tree, without a message.
abbrev two_marks : Queue
two_marks = record one_more {
  xtree = (6, record { first = none; last = none; count = 0 }) ∷ one.xtree;
}

two_marks-marks :
    (k : ℕ) → k < 2 ^ 32 → MarkHolds (bin_find two_marks.xtree k) (of_mark k (entry_a ∷ []))
unfolding bin_find bin_intcomp
two_marks-marks k lt = ground arith

two_marks-Holds : Holds two_marks (entry_a ∷ [])
two_marks-Holds = record {
  segment = one_more-Holds.segment;
  distinct = (tt, tt);
  is_first = refl;
  is_last = refl;
  counted = refl;
  marks = two_marks-marks;
}

queue_link_wakes_example :
    ◌≡◌ {A = List Signal} (xmark_producer_cond 6 ∷ []) (xmark_producer_cond 6 ∷ [])
unfolding queue_link bin_find bin_intcomp
queue_link_wakes_example =
    queue_link_wakes two_marks _ (entry_a ∷ []) 9 6 (xmark_producer_cond 6 ∷ []) two_marks-Holds
      (omega arith) refl

queue_add-double_free_example :
    queue_add [] (some 9) true true (record one { postadd = refuse ∷ [] }) msg_b
    ≡ ebadmsg
        (record one { postadd = refuse ∷ [] })
        (payload_at 101 ∷ table_at 200 ∷ table_at 200 ∷ [])
queue_add-double_free_example =
    queue_add-double_free [] (record one { postadd = refuse ∷ [] }) refuse [] 9 200 msg_b true refl
      refl refl

-- `queue_add` up to its wait.
abbrev entering : System
entering = record (init_system [] []) {
  queue = record (queue_init [] []) {
    xtree = (5, record { first = none; last = none; count = 0 }) ∷ [];
    cell = update (λ _. none) 7 (some (fresh_node msg_a));
  };
  pending = entry_a ∷ [];
}

entering-Reach : Reach (init_system [] []) entering
unfolding queue_init xmark_find bin_search bin_find
entering-Reach = next here (enter 7 msg_a _ _ refl refl)

abbrev linked : System
linked = record entering {
  queue = record one { cell = entering.queue.cell };
  pending = [];
  log_in = msg_a ∷ [];
}

linked-Reach : Reach (init_system [] []) linked
unfolding queue_init queue_link bin_find bin_intcomp bin_write
linked-Reach = next entering-Reach (link [] [] entry_a _ _ refl (omega arith) refl)

abbrev emptied : System
emptied = record linked {
  queue = record linked.queue {
    length = 0;
    delivered = 1;
    first = none;
    last = none;
    xtree = (5, record { first = none; last = none; count = 0 }) ∷ [];
    cell = update linked.queue.cell 7 none;
  };
  log_out = msg_a ∷ [];
}

emptied-Reach : Reach (init_system [] []) emptied
unfolding queue_init queue_take bin_find bin_intcomp bin_write
emptied-Reach = next linked-Reach (get 5 _ _ _ (omega arith) refl)

reachable_fifo_example :
    (es : List Entry) × Holds emptied.queue es
    × ((k : ℕ) → marked k (msg_a ∷ []) ≡ marked k (msg_a ∷ []) ++ marked k (contents es))
    × (0 ≤ max_queue_size + 1)
reachable_fifo_example = reachable_fifo [] [] emptied-Reach

reachable_link_runs_example :
    (q : Queue) × (sigs : List Signal) × (queue_link entering.queue 7 5 ≡ some (q, sigs))
unfolding queue_init
reachable_link_runs_example =
    reachable_link_runs [] [] [] [] entry_a entering-Reach refl (omega arith)

reachable_get_runs_example :
    (m : Message) × (q : Queue) × (sigs : List Signal) × (queue_take linked.queue 5
      ≡ some (m, q, sigs))
    × (mark_of m.xmark ≡ 5)
unfolding bin_find bin_intcomp
reachable_get_runs_example = reachable_get_runs [] [] 5 linked-Reach (omega arith) refl

free_nodes_example :
    (c : Heap) × (free_nodes 1 one.cell (some 7) ≡ some (7 ∷ [], c))
    × All (λ e. c e.addr ≡ none) (entry_a ∷ [])
    × ((b : ℕ) → Avoids b (entry_a ∷ []) → c b ≡ one.cell b)
free_nodes_example = free_nodes_lem one (entry_a ∷ []) one-Holds

hooklist_run_refused_example :
    ((hooklist_run (tag ∷ refuse ∷ []) msg_b).msg.payload ≡ none)
    × ((hooklist_run (tag ∷ refuse ∷ []) msg_b).msg.datalen ≡ 0)
unfolding hooklist_run
hooklist_run_refused_example = hooklist_run_refused (tag ∷ refuse ∷ []) msg_b refl
