-- ===== src/Threads/Consume.antt =====
-- A round of `consume` in src/main.c: who owns the blocks of the message afterwards.
use schaufel.Common.{
  ℕ, ◌≤◌, ◌≡◌, refl, ap, ◌∙◌, inl, inr, true, false, none, some, List, [], All, ◌⊎◌,
}
use schaufel.Message.{Message}
use schaufel.Hooks.{Hook, hooklist_run}
use schaufel.Queue.{Queue, Signal, max_queue_size}
use schaufel.Queue.Segment.{Entry}
use schaufel.Queue.Model.{Holds, put, contents}
use schaufel.Queue.Calls.{adds}
use schaufel.Queue.Refine.{queue_add_lem}
use schaufel.Threads.{consume_payload, consume_round}
use schaufel.Threads.Owned.{owned, Leaves, hooklist_run-Left, owned-same}

-- A round of `consume` with a message that has a payload, where no hook frees anything or changes
-- the pointers of a message, the postadd hooks accept, there is memory, and the queue is not over
-- its bound. If the preadd hooks accept too, the message is appended to the queue, nothing is freed,
-- and the thread's own message has neither payload nor metadata. If they refuse, what the message
-- owned is freed and the queue is not called; the thread's message has no payload, and its pointer
-- to the metadata is the one that was just freed.
pub consume_round_lem :
    (preadd : List Hook) (q : Queue) (es : List Entry) (a : ℕ) (msg : Message) (p : ℕ)
    → All Leaves preadd
    → All Leaves q.postadd
    → Holds q es
    → q.cell a ≡ none
    → q.length ≤ max_queue_size
    → msg.payload ≡ some p
    → (hooklist_run q.postadd (hooklist_run preadd msg).msg).passed ≡ true
    → let r = hooklist_run preadd msg in
      let s = hooklist_run q.postadd r.msg in
      let c = consume_round preadd [] (some a) true true q msg in
      ((r.passed ≡ true)
        × (q' : Queue) × (sigs : List Signal) × (fs : List Entry) × (c ≡ record {
          msg = record (r.msg) { payload = none; metadata = none };
          freed = [];
          added = some (adds q' sigs []);
        })
        × Holds q' fs
        × (contents fs ≡ put (contents es) s.msg)
        × (owned s.msg ≡ owned msg))
      ⊎ ((r.passed ≡ false)
          × (c ≡ record { msg = r.msg; freed = owned msg; added = none })
          × (r.msg.payload ≡ none)
          × (r.msg.metadata ≡ msg.metadata))
unfolding consume_round
consume_round_lem preadd q es a msg p pre post h free bound has pass =
    let r = hooklist_run preadd msg in
    let (d, kept) = hooklist_run-Left preadd msg pre in
    elim kept [
      | inr (e, f, g) ↦
          inr
            (e, ap (consume_payload preadd [] (some a) true true q msg) has ∙ rw (e, f) refl, g, d)
      | inl (e, f, g) ↦
          let (d', kept') = hooklist_run-Left q.postadd r.msg post in
          let (q', sigs, fs, run, h', c, _, _) = queue_add_lem q es a r.msg h free pass bound in
          elim kept' [
            | inr (e', _, _) ↦ cc
            | inl (e', f', g') ↦ inl (
              e,
              q',
              sigs,
              fs,
              ap (consume_payload preadd [] (some a) true true q msg) has ∙ rw (e, f, run, f') refl,
              h',
              c,
              owned-same (hooklist_run q.postadd r.msg).msg msg (g' ∙ g) (d' ∙ d),
            )
          ]
    ]
