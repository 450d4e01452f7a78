-- ===== src/Threads.antt =====
-- src/main.c: the loops of the consumer and producer threads round the queue, and how many threads
-- are started. What a thread reads from its source, what the others do to the queue between its
-- rounds, and what the flag `consume_state` says, are arguments.
pub mod Owned
pub mod Produce
pub mod Drain
pub mod Consume
pub mod Count
mod Tests
use schaufel.Common.{
  ℕ, zero, suc, ◌+◌, Bool, true, false, not, ◌&&◌, Option, none, some, List, [], ◌∷◌, ◌++◌,
  if◌then◌else◌,
}
use schaufel.Message.{Message, Block, free_data, metadata_free}
use schaufel.Hooks.{Hook, hooklist_run}
use schaufel.Queue.{Queue, Signal}
use schaufel.Queue.Calls.{
  AddOutcome, enomem, ebadmsg, adds, Wait, GetOutcome, einval, etimedout, gets, queue_add,
  queue_get,
}

-- What `queue_get` returned to `produce`: 0, ETIMEDOUT or another error.
pub data Ret : Type 0 where
  success timeout failure : Ret

abbrev pub has_timed_out : Ret → Bool
has_timed_out timeout = true
has_timed_out _ = false

-- A round of the loop of `produce`: `ret`, the message, what was freed, the message that was handed
-- to the producer, and the queue. `stuck` is a wait that does not end, or a fault.
pub data Round : Type 0 where
  stuck : Round
  done : Ret → Message → List Block → Option Message → Queue → Round

-- After the postget hooks have passed: the producer, `metadata_callback_run`, and the frees.
abbrev pub produced : Hook → Message → List Block → Queue → Round
produced callback m freed q =
    let r = callback m in
    done success (record (r.msg) { payload = none })
      (freed ++ (r.freed ++ (free_data r.msg.payload ++ metadata_free r.msg.metadata))) (some m) q

abbrev pub with_payload : List Hook → Hook → Message → List Block → Queue → Option ℕ → Round
with_payload postget callback m freed q none = done success m freed none q
with_payload postget callback m freed q (some p) =
    let r = hooklist_run postget m in
    if r.passed
    then produced callback r.msg (freed ++ r.freed) q
    else done success r.msg (freed ++ r.freed) none q

abbrev pub after_get : List Hook → Hook → Message → GetOutcome → Round
after_get postget callback msg GetOutcome.fault = stuck
after_get postget callback msg (GetOutcome.waits q) = stuck
after_get postget callback msg einval = stuck
after_get postget callback msg (etimedout q) = done timeout msg [] none q
after_get postget callback msg (gets passed m q signals freed) =
    if passed
    then with_payload postget callback m freed q m.payload
    else done failure m freed none q

-- One round, on the queue `q` as it is when the round begins. `callback` is what
-- `metadata_callback_run` does, and `memory` says whether there is memory for the node of the mark.
unfoldable pub produce_round : List Hook → Hook → Bool → List Wait → Queue → Message → Round
produce_round postget callback memory waiting q msg =
    after_get postget callback msg (queue_get waiting memory (some q) (some msg))

-- The thread after some rounds: it goes on, it is stuck in one, or it has left the loop. The lists
-- are what was freed, and the messages that the producer was handed.
pub data Thread : Type 0 where
  goes : Ret → Message → Queue → List Block → List Message → Thread
  hangs : Thread
  stopped : Queue → List Block → List Message → Thread

-- What a round begins with: the flag `consume_state`, what the other threads did to the queue since
-- the last round, the waits, and whether there is memory.
pub record Start : Type 0 where
  pub running : Bool
  pub others : Queue → Queue
  pub waiting : List Wait
  pub memory : Bool

abbrev pub handed : Option Message → List Message
handed none = []
handed (some m) = m ∷ []

abbrev pub extend : List Block → List Message → Thread → Thread
extend freed out (goes ret msg q fs ms) = goes ret msg q (freed ++ fs) (out ++ ms)
extend freed out hangs = hangs
extend freed out (stopped q fs ms) = stopped q (freed ++ fs) (out ++ ms)

-- The loop of `produce`, as many rounds as there are starts.
unfoldable pub produce_loop : List Hook → Hook → List Start → Ret → Message → Queue → Thread
produce_loop postget callback [] ret msg q = goes ret msg q [] []
produce_loop postget callback (s ∷ ss) ret msg q = elim (not s.running && has_timed_out ret) [
  | true ↦ stopped q [] []
  | false ↦ elim (produce_round postget callback s.memory s.waiting (s.others q) msg) [
    | stuck ↦ hangs
    | done ret' msg' freed out q' ↦
        extend freed (handed out) (produce_loop postget callback ss ret' msg' q')
  ]
]

-- A round of `consume`, after `consumer_consume` has returned 0 with the message `msg`: the message
-- afterwards, what was freed, and how `queue_add` ended, if it was called.
pub record Consumed : Type 0 where
  pub msg : Message
  pub freed : List Block
  pub added : Option AddOutcome

abbrev pub freed_by : AddOutcome → List Block
freed_by AddOutcome.fault = []
freed_by (enomem q freed) = freed
freed_by (ebadmsg q freed) = freed
freed_by (AddOutcome.waits q) = []
freed_by (adds q signals freed) = freed

abbrev give_up : Message → Message
give_up m = record m { payload = none; metadata = none }

abbrev consume_payload :
    List Hook
    → List (Queue → Queue)
    → Option ℕ
    → Bool
    → Bool
    → Queue
    → Message
    → Option ℕ
    → Consumed
consume_payload preadd others address body room q msg none = record {
  msg = msg;
  freed = [];
  added = none;
}
consume_payload preadd others address body room q msg (some p) =
    let r = hooklist_run preadd msg in
    let a = queue_add others address body room q r.msg in
    if r.passed
    then record { msg = give_up r.msg; freed = r.freed ++ freed_by a; added = some a }
    else record { msg = r.msg; freed = r.freed; added = none }

unfoldable pub consume_round :
    List Hook → List (Queue → Queue) → Option ℕ → Bool → Bool → Queue → Message → Consumed
consume_round preadd others address body room q msg =
    consume_payload preadd others address body room q msg msg.payload

-- `config_setting_lookup_int` of "threads": where there is no such number the variable keeps its
-- value.
abbrev pub looked_up : Option ℕ → ℕ → ℕ
looked_up none old = old
looked_up (some n) old = n

-- `init_threads`: the threads that are started, by the number of their instance. `last` is
-- `thread_index`.
abbrev repeat_instance : ℕ → ℕ → List ℕ
repeat_instance zero i = []
repeat_instance (suc n) i = i ∷ repeat_instance n i

unfoldable pub init_threads : ℕ → ℕ → List (Option ℕ) → List ℕ
init_threads i last [] = []
init_threads i last (c ∷ cs) =
    let n = looked_up c last in repeat_instance n i ++ init_threads (suc i) n cs

-- `get_thread_count` of src/utils/config.c; `last` is `j`.
unfoldable pub get_thread_count : ℕ → List (Option ℕ) → ℕ
get_thread_count last [] = 0
get_thread_count last (c ∷ cs) = let n = looked_up c last in n + get_thread_count n cs
