-- ===== src/Threads/Drain.antt =====
-- The loop of `produce` in src/main.c after the consumers have ended: it empties the queue of its
-- mark, and ends.
use mathlib.Core.Path.{subst}
use schaufel.Common.{
  true, ℕ, zero, suc, ◌+◌, ◌≡◌, refl, sym, ap, ◌∙◌, inl, inr, false, Option, none, some, List, [],
  ◌∷◌, ◌++◌, All, ◌==◌, if◌then◌else◌, arith, Bool-cases, Option-cases, length,
}
use schaufel.Message.{Message, Block}
use schaufel.Hooks.{Hook}
use schaufel.Queue.{Queue, mark_of}
use schaufel.Queue.Segment.{Entry}
use schaufel.Queue.Model.{Holds, take, contents}
use schaufel.Queue.Calls.{timed_out}
use schaufel.Queue.Steps.{marked}
use schaufel.Queue.Deliver.{queue_get_timeout, taken_eq}
use schaufel.Threads.{
  Ret, success, timeout, has_timed_out, done, produce_round, Start, stopped, handed, extend,
  produce_loop,
}
use schaufel.Threads.Owned.{owned, owned_all, Keeps}
use schaufel.Threads.Produce.{delivery, produce_round_lem}

-- The messages of the other marks.
abbrev pub unmarked : ℕ → List Message → List Message
unmarked k [] = []
unmarked k (m ∷ ms) = let rest = unmarked k ms in if mark_of m.xmark == k then rest else m ∷ rest

-- What the producer is handed of some messages, by a thread with the mark `x`.
abbrev pub delivered : List Hook → List Hook → ℕ → List Message → List Message
delivered preget postget x [] = []
delivered preget postget x (m ∷ ms) =
    handed (delivery preget postget (record m { xmark = x })) ++ delivered preget postget x ms

-- A start after the consumers have ended, with nobody else at the queue and enough memory.
abbrev pub last_start : Start
last_start = record {
  running = false;
  others = λ q. q;
  waiting = (λ q. q, timed_out) ∷ [];
  memory = true;
}

abbrev pub last_starts : ℕ → List Start
last_starts zero = []
last_starts (suc n) = last_start ∷ last_starts n

abbrev pub HasPayload : Message → Type 0
HasPayload m = (p : ℕ) × (m.payload ≡ some p)

take-none-marked :
    (k : ℕ) (ms : List Message) → take k ms ≡ none → (marked k ms ≡ []) × (unmarked k ms ≡ ms)
take-none-marked k [] t = (refl, refl)
take-none-marked k (m ∷ ms) t = ground (arith, take-none-marked k ms)

take-some-marked :
    (k : ℕ) (ms : List Message) (m : Message) (rest : List Message)
    → take k ms ≡ some (m, rest)
    → (marked k ms ≡ m ∷ marked k rest) × (unmarked k ms ≡ unmarked k rest)
take-some-marked k [] m rest t = cc
take-some-marked k (n ∷ ms) m rest t = elim (Bool-cases (mark_of n.xmark == k)) [
  | inl e ↦ let (a, b) = taken_eq (rw e at t) in rw e (rw (sym a, sym b) (refl, refl))
  | inr e ↦ elim (Option-cases (take k ms)) [
    | inl f ↦ let t' = rw (e, f) at t in cc
    | inr ((a, later), f) ↦
        let (b, c) = taken_eq (rw (e, f) at t) in
        let (d, g) = take-some-marked k ms a later f in
        rw e (rw (sym c) (rw (e, sym b) (d, ap (λ l. n ∷ l) g)))
  ]
]

-- A round that ends gives way to the next.
loop_round :
    (postget : List Hook) (callback : Hook) (ss : List Start) (ret ret' : Ret) (msg msg' : Message)
    (q q' : Queue) (freed : List Block) (out : Option Message)
    → has_timed_out ret ≡ false
    → produce_round postget callback true last_start.waiting q msg ≡ done ret' msg' freed out q'
    → produce_loop postget callback (last_start ∷ ss) ret msg q
      ≡ extend freed (handed out) (produce_loop postget callback ss ret' msg' q')
unfolding produce_loop
loop_round postget callback ss ret ret' msg msg' q q' freed out go run =
    rw (produce_loop, go, run) refl

-- From the queue `q`, which holds `es`, the loop ends after the starts: what the messages of the
-- mark `x` own is freed, what the hooks let pass has been handed to the producer, and the queue
-- holds the messages of the other marks.
abbrev Drained :
    List Hook → List Hook → Hook → List Start → Ret → ℕ → Queue → List Entry → Message → Type 0
Drained preget postget callback starts ret x q es msg =
    let ms = marked (mark_of x) (contents es) in
    (q' : Queue) × (fs : List Entry) × (produce_loop postget callback starts ret msg q
      ≡ stopped q' (owned_all ms) (delivered preget postget x ms))
    × Holds q' fs
    × (contents fs ≡ unmarked (mark_of x) (contents es))

loop_ends :
    (preget postget : List Hook) (callback : Hook) (ss : List Start) (x : ℕ) (ret : Ret) (q : Queue)
    (es : List Entry) (msg : Message)
    → has_timed_out ret ≡ false
    → msg.xmark ≡ x
    → take (mark_of x) (contents es) ≡ none
    → Holds q es
    → Drained preget postget callback (last_start ∷ last_start ∷ ss) ret x q es msg
unfolding produce_loop produce_round
loop_ends preget postget callback ss x ret q es msg go mx t h =
    let (a, b) = take-none-marked (mark_of x) (contents es) t in
    let (q', run, h') =
      queue_get_timeout q es msg h (ap (λ y. take (mark_of y) (contents es)) mx ∙ t) in
    let round : produce_round postget callback true last_start.waiting q msg
        ≡ done timeout msg [] none q' =
      rw run refl in
    let loop =
      loop_round postget callback (last_start ∷ ss) ret timeout msg msg q q' [] none go round in
    (q', es, rw a loop, h', sym b)

-- What a round and the rest of the loop free and hand over is what the messages of the mark own,
-- and what they come to.
join_round :
    (preget postget : List Hook) (x : ℕ) (q : Queue) (m : Message) (pg : List Hook) (y : ℕ)
    (all later rest : List Message)
    → pg ≡ preget
    → y ≡ x
    → later ≡ rest
    → all ≡ m ∷ rest
    → extend
        (owned m)
        (handed (delivery pg postget (record m { xmark = y })))
        (stopped q (owned_all later) (delivered preget postget x later))
      ≡ stopped q (owned_all all) (delivered preget postget x all)
join_round preget postget x q m pg y all later rest a b c d = rw (a, b, c, d) refl

loop_drains :
    (preget postget : List Hook) (callback : Hook) (n x : ℕ) (ret : Ret) (q : Queue)
    (es : List Entry) (msg : Message)
    → length (marked (mark_of x) (contents es)) ≡ n
    → has_timed_out ret ≡ false
    → msg.xmark ≡ x
    → q.preget ≡ preget
    → All Keeps preget
    → All Keeps postget
    → Keeps callback
    → All HasPayload (marked (mark_of x) (contents es))
    → Holds q es
    → Drained preget postget callback (last_starts (suc (suc n))) ret x q es msg
loop_drains preget postget callback zero x ret q es msg len go mx hooks pre post back has h =
    elim (Option-cases (take (mark_of x) (contents es))) [
      | inl t ↦ loop_ends preget postget callback [] x ret q es msg go mx t h
      | inr ((m, rest), t) ↦ let a = (take-some-marked (mark_of x) (contents es) m rest t).0 in cc
    ]
loop_drains preget postget callback (suc n) x ret q es msg len go mx hooks pre post back has h =
    elim (Option-cases (take (mark_of x) (contents es))) [
      | inl t ↦ loop_ends preget postget callback (last_starts (suc n)) x ret q es msg go mx t h
      | inr ((m, rest), t) ↦
          let (a, b) = take-some-marked (mark_of x) (contents es) m rest t in
          let ((p, payload), others) : HasPayload m × All HasPayload (marked (mark_of x) rest) =
            subst (All HasPayload) a has in
          let (ret', after, q1, fs, run, go', _, mx', h1, c, same) =
            produce_round_lem postget callback last_start.waiting q es msg m rest p
              (subst (All Keeps) (sym hooks) pre) post back h
              (ap (λ y. take (mark_of y) (contents es)) mx ∙ t) payload in
          let len' : length (marked (mark_of x) rest) ≡ n = omega (arith, rw a at len) in
          let step =
            loop_round postget callback (last_starts (suc (suc n))) ret ret' msg after q q1
              (owned m) _ go run in
          let (q2, gs, loop, h2, c2) =
            loop_drains preget postget callback n x ret' q1 fs after
              (ap (λ l. length (marked (mark_of x) l)) c ∙ len') go' (mx' ∙ mx) (same ∙ hooks) pre
              post back (subst (λ l. All HasPayload (marked (mark_of x) l)) (sym c) others) h1 in
          let whole =
            step
            ∙ (ap (extend (owned m) _) loop
                ∙ join_round preget postget x q2 m _ _ _ _ _ hooks mx (ap (marked (mark_of x)) c)
                    a) in
          (q2, gs, whole, h2, c2 ∙ (ap (unmarked (mark_of x)) c ∙ sym b))
    ]

-- The loop of `produce` ends once the consumers have ended and nobody else is at the queue, where there
-- is memory for the node of its mark. If no
-- hook, nor the metadata callback, frees anything or changes the pointers and the xmark of a
-- message, and the messages of the mark all have a payload, then as many rounds as there are such
-- messages and two more starts are enough. By then each of them has been freed exactly once, those
-- that the hooks let pass were handed to the producer in the order in which they were added, and
-- the queue holds the messages of the other marks, in their order.
pub produce_loop_drains :
    (postget : List Hook) (callback : Hook) (q : Queue) (es : List Entry) (msg : Message)
    → All Keeps q.preget
    → All Keeps postget
    → Keeps callback
    → All HasPayload (marked (mark_of msg.xmark) (contents es))
    → Holds q es
    → let ms = marked (mark_of msg.xmark) (contents es) in
      (q' : Queue) × (fs : List Entry) × (produce_loop postget callback
          (last_starts (length ms + 2))
          success
          msg
          q
        ≡ stopped q' (owned_all ms) (delivered q.preget postget msg.xmark ms))
      × Holds q' fs
      × (contents fs ≡ unmarked (mark_of msg.xmark) (contents es))
produce_loop_drains postget callback q es msg pre post back has h =
    let (q', fs, loop, h', rest) =
      loop_drains q.preget postget callback _ msg.xmark success q es msg refl refl refl refl pre
        post back has h in
    let n = length (marked (mark_of msg.xmark) (contents es)) in
    let two : n + 2 ≡ suc (suc n) = omega arith in
    (
      q',
      fs,
      ap (λ n. produce_loop postget callback (last_starts n) success msg q) two ∙ loop,
      h',
      rest,
    )
