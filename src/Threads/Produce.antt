-- ===== src/Threads/Produce.antt =====
-- The loop of `produce` in src/main.c: each message that a producer takes is handed on at most once
-- and freed once, and the loop ends.
use schaufel.Common.{
  true, ℕ, ◌≡◌, refl, ap, ◌∙◌, inl, inr, false, ◌&&◌, Option, none, some, List, [], All,
  if◌then◌else◌,
}
use schaufel.Message.{Message}
use schaufel.Hooks.{Hook, hooklist_run}
use schaufel.Queue.{Queue, mark_of}
use schaufel.Queue.Segment.{Entry}
use schaufel.Queue.Model.{Holds, take, contents}
use schaufel.Queue.Calls.{Wait}
use schaufel.Queue.Deliver.{queue_get_lem}
use schaufel.Threads.{Ret, success, failure, has_timed_out, done, produce_round, with_payload}
use schaufel.Threads.Owned.{owned, Keeps, hooklist_run-Kept, owned-same}

-- The message that the producer is handed, if the preget hooks and the postget hooks pass.
abbrev pub delivery : List Hook → List Hook → Message → Option Message
delivery preget postget m =
    let r = hooklist_run preget m in
    let s = hooklist_run postget r.msg in if r.passed && s.passed then some s.msg else none

-- From the postget hooks on.
postget_end :
    (postget : List Hook) (callback : Hook) (m : Message) (q : Queue) (p : ℕ)
    → All Keeps postget
    → Keeps callback
    → let s = hooklist_run postget m in
      (after : Message) × (with_payload postget callback m [] q (some p)
        ≡ done success after (owned m) (if s.passed then some s.msg else none) q)
      × (after.payload ≡ none)
      × (after.xmark ≡ m.xmark)
postget_end postget callback m q p post back =
    let s = hooklist_run postget m in
    let c = callback s.msg in
    let (x, (d, kept)) = hooklist_run-Kept postget m post in
    elim kept [
      | inr (e, f, g) ↦ (s.msg, rw (e, f) refl, g, x)
      | inl (e, f, g) ↦ (
        record (c.msg) { payload = none },
        rw
            (
              e,
              f,
              back.frees s.msg,
              owned-same c.msg m (back.payload s.msg ∙ g) (back.metadata s.msg ∙ d),
            )
            refl,
        refl,
        back.xmark s.msg ∙ x,
      )
    ]

-- The end of a round, once the message has been taken.
round_end :
    (preget postget : List Hook) (callback : Hook) (m : Message) (q : Queue) (p : ℕ)
    → All Keeps preget
    → All Keeps postget
    → Keeps callback
    → m.payload ≡ some p
    → let r = hooklist_run preget m in
      (ret : Ret) × (after : Message) × ((if r.passed
          then with_payload postget callback r.msg r.freed q r.msg.payload
          else done failure r.msg r.freed none q)
        ≡ done ret after (owned m) (delivery preget postget m) q)
      × (has_timed_out ret ≡ false)
      × (after.payload ≡ none)
      × (after.xmark ≡ m.xmark)
round_end preget postget callback m q p pre post back has =
    let r = hooklist_run preget m in
    let s = hooklist_run postget r.msg in
    let (x, (d, kept)) = hooklist_run-Kept preget m pre in
    elim kept [
      | inr (e, f, g) ↦ (failure, r.msg, rw (e, f) refl, refl, g, x)
      | inl (e, f, g) ↦
          let (after, ended, a, b) = postget_end postget callback r.msg q p post back in
          (
            success,
            after,
            rw (e, f)
                (ap (with_payload postget callback r.msg [] q) (g ∙ has)
                  ∙ (ended
                      ∙ ap (λ l. done success after l (if s.passed then some s.msg else none) q)
                          (owned-same r.msg m g d))),
            refl,
            a,
            b ∙ x,
          )
    ]

-- A round of `produce` whose mark has a message, where there is memory, takes the oldest. If no hook, nor the metadata
-- callback, frees anything or changes the pointers and the xmark of a message, and the message has
-- a payload, then its payload and its metadata are freed exactly once, whichever hook refuses; the
-- producer is handed the message just if all hooks pass; the message of the thread has no payload
-- afterwards, and keeps its xmark; and the other messages stay in the queue, in their order.
pub produce_round_lem :
    (postget : List Hook) (callback : Hook) (ws : List Wait) (q : Queue) (es : List Entry)
    (msg m : Message) (rest : List Message) (p : ℕ)
    → All Keeps q.preget
    → All Keeps postget
    → Keeps callback
    → Holds q es
    → take (mark_of msg.xmark) (contents es) ≡ some (m, rest)
    → m.payload ≡ some p
    → (ret : Ret) × (after : Message) × (q' : Queue) × (fs : List Entry) × (produce_round postget
          callback true ws q msg
        ≡ done ret after (owned m) (delivery q.preget postget (record m { xmark = msg.xmark })) q')
      × (has_timed_out ret ≡ false)
      × (after.payload ≡ none)
      × (after.xmark ≡ msg.xmark)
      × Holds q' fs
      × (contents fs ≡ rest)
      × (q'.preget ≡ q.preget)
unfolding produce_round
produce_round_lem postget callback ws q es msg m rest p pre post back h t has =
    let (q', fs, run, h', c, same, _, _, _) = queue_get_lem ws q es msg m rest h t in
    let (ret, after, ended, a, b, d) =
      round_end q.preget postget callback (record m { xmark = msg.xmark }) q' p pre post back has in
    (ret, after, q', fs, rw run ended, a, b, d, h', c, same)
