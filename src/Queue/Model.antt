-- ===== src/Queue/Model.antt =====
-- What the queue of src/queue.c stands for: the messages in the order in which they were added.
-- `Holds` ties the pointers, the counters and the tree of marks to that list.
use schaufel.Common.{
  ℕ, ◌^◌, ◌<◌, ◌≡◌, Option, none, some, List, [], ◌∷◌, ◌++◌, length, ◌==◌, if◌then◌else◌,
}
use schaufel.Message.{Message}
use schaufel.Bintree.{bin_find}
use schaufel.Queue.{Queue, Xmark, mark_of}
use schaufel.Queue.Segment.{Entry, of_mark, head_or, last_or, Segment, Distinct}

-- The specification: `queue_add` appends, and `queue_get` takes the oldest message of its mark.
abbrev pub put : List Message → Message → List Message
put ms m = ms ++ (m ∷ [])

abbrev pub take : ℕ → List Message → Option (Message × List Message)
take k [] = none
take k (m ∷ ms) =
    let rest = take k ms in
    if mark_of m.xmark == k
    then some (m, ms)
    else elim rest [ none ↦ none | some (n, ns) ↦ some (n, m ∷ ns) ]

abbrev pub contents : List Entry → List Message
contents [] = []
contents (e ∷ es) = e.msg ∷ contents es

-- What the tree knows of a mark whose entries are `xs`.
abbrev pub MarkHolds : Option Xmark → List Entry → Type 0
MarkHolds none xs = xs ≡ []
MarkHolds (some x) xs =
    (x.first ≡ head_or xs none) × (x.last ≡ last_or xs none) × (x.count ≡ length xs)

pub record Holds (q : Queue) (es : List Entry) : Type 0 where
  pub segment : Segment q.cell none es none (λ _. none)
  pub distinct : Distinct es
  pub is_first : q.first ≡ head_or es none
  pub is_last : q.last ≡ last_or es none
  pub counted : q.length ≡ length es
  pub marks : (k : ℕ) → k < 2 ^ 32 → MarkHolds (bin_find q.xtree k) (of_mark k es)
