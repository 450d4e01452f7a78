-- ===== src/Threads/Tests.antt =====
-- Rounds and loops of the threads of src/main.c on concrete queues.
use schaufel.Common.{
  ℕ, ◌≡◌, ◌^◌, ◌<◌, ◌⊎◌, refl, arith, true, false, none, some, List, [], ◌∷◌, ◌==◌, if◌then◌else◌,
}
use schaufel.Message.{Message, message_zero, payload_at, table_at}
use schaufel.Hooks.{Hook, hooklist_run, discard}
use schaufel.Bintree.{bin_find, bin_intcomp}
use schaufel.Queue.{Queue}
use schaufel.Queue.Segment.{Entry, of_mark}
use schaufel.Queue.Model.{Holds, MarkHolds, contents}
use schaufel.Queue.Calls.{fresh_node}
use schaufel.Threads.{Ret, success, has_timed_out, done, produce_round, produce_loop, stopped}
use schaufel.Threads.Owned.{Leaves, Keeps, owned}
use schaufel.Threads.Produce.{produce_round_lem}
use schaufel.Threads.Drain.{last_starts, produce_loop_drains}
use schaufel.Threads.Consume.{consume_round_lem}
use schaufel.Queue.{Signal}
use schaufel.Queue.Model.{put}
use schaufel.Queue.Calls.{adds}
use schaufel.Threads.{consume_round}

abbrev msg_a : Message
msg_a = record { payload = some 100; datalen = 3; xmark = 5; metadata = some 200 }

abbrev entry_a : Entry
entry_a = record { addr = 7; msg = msg_a }

-- One message, of mark 5.
abbrev one : Queue
one = record {
  length = 1;
  added = 1;
  delivered = 0;
  first = some 7;
  last = some 7;
  postadd = [];
  preget = [];
  xtree = (5, record { first = some 7; last = some 7; count = 1 }) ∷ [];
  cell = λ b. if 7 == b then some (fresh_node msg_a) else none;
}

one-marks : (k : ℕ) → k < 2 ^ 32 → MarkHolds (bin_find one.xtree k) (of_mark k (entry_a ∷ []))
unfolding bin_find bin_intcomp
one-marks k lt = ground arith

one-Holds : Holds one (entry_a ∷ [])
one-Holds = record {
  segment = (refl, tt);
  distinct = (tt, tt);
  is_first = refl;
  is_last = refl;
  counted = refl;
  marks = one-marks;
}

-- A hook that refuses every message, and one that accepts.
abbrev refuse : Hook
refuse m = record { passed = false; msg = m; freed = [] }

abbrev accept : Hook
accept m = record { passed = true; msg = m; freed = [] }

refuse-Leaves : Leaves refuse
refuse-Leaves = record { frees = λ m. refl; payload = λ m. refl; metadata = λ m. refl }

refuse-Keeps : Keeps refuse
refuse-Keeps = record {
  frees = λ m. refl;
  payload = λ m. refl;
  metadata = λ m. refl;
  xmark = λ m. refl;
}

accept-Keeps : Keeps accept
accept-Keeps = record {
  frees = λ m. refl;
  payload = λ m. refl;
  metadata = λ m. refl;
  xmark = λ m. refl;
}

abbrev msg_b : Message
msg_b = record { payload = some 101; datalen = 4; xmark = 6; metadata = some 201 }

abbrev asks : Message
asks = record message_zero { xmark = 5 }

produce_round_example :
    (ret : Ret) × (after : Message) × (q' : Queue) × (fs : List Entry) × (produce_round
        (accept ∷ refuse ∷ [])
        accept
        true
        []
        one
        asks
      ≡ done ret after (payload_at 100 ∷ table_at 200 ∷ []) none q')
    × (has_timed_out ret ≡ false)
    × (after.payload ≡ none)
    × (after.xmark ≡ 5)
    × Holds q' fs
    × (contents fs ≡ [])
    × (q'.preget ≡ [])
unfolding hooklist_run
produce_round_example =
    produce_round_lem (accept ∷ refuse ∷ []) accept [] one (entry_a ∷ []) asks msg_a [] 100 tt
      (accept-Keeps, (refuse-Keeps, tt)) accept-Keeps one-Holds refl refl

produce_loop_drains_example :
    (q' : Queue) × (fs : List Entry) × (produce_loop
        (accept ∷ [])
        accept
        (last_starts 3)
        success
        asks
        one
      ≡ stopped q' (payload_at 100 ∷ table_at 200 ∷ []) (msg_a ∷ []))
    × Holds q' fs
    × (contents fs ≡ [])
unfolding hooklist_run
produce_loop_drains_example =
    produce_loop_drains (accept ∷ []) accept one (entry_a ∷ []) asks tt (accept-Keeps, tt)
      accept-Keeps ((100, refl), tt) one-Holds

consume_round_example :
    ((hooklist_run (refuse ∷ []) msg_b).passed ≡ true
      × (q' : Queue) × (sigs : List Signal) × (fs : List Entry) × (consume_round
            (refuse ∷ [])
            []
            (some 9)
            true
            true
            one
            msg_b
          ≡ record {
            msg = record ((hooklist_run (refuse ∷ []) msg_b).msg) {
              payload = none;
              metadata = none;
            };
            freed = [];
            added = some (adds q' sigs []);
          })
      × Holds q' fs
      × (contents fs ≡ put (msg_a ∷ []) (hooklist_run (refuse ∷ []) msg_b).msg)
      × (owned (hooklist_run (refuse ∷ []) msg_b).msg ≡ owned msg_b))
    ⊎ ((hooklist_run (refuse ∷ []) msg_b).passed ≡ false
        × (consume_round (refuse ∷ []) [] (some 9) true true one msg_b ≡ record {
          msg = (hooklist_run (refuse ∷ []) msg_b).msg;
          freed = payload_at 101 ∷ table_at 201 ∷ [];
          added = none;
        })
        × (hooklist_run (refuse ∷ []) msg_b).msg.payload ≡ none
        × (hooklist_run (refuse ∷ []) msg_b).msg.metadata ≡ some 201)
unfolding hooklist_run discard
consume_round_example =
    consume_round_lem (refuse ∷ []) one (entry_a ∷ []) 9 msg_b 101 (refuse-Leaves, tt) tt one-Holds
      refl (omega arith) refl refl
