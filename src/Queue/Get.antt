-- ===== src/Queue/Get.antt =====
-- `queue_get` of src/queue.c: taking the first node of a mark removes the oldest message of it.
use mathlib.Core.Bool.{false}
use schaufel.Common.{
  ℕ, ◌-◌, ◌^◌, ◌<◌, ◌≡◌, ◌≢◌, refl, sym, ◌∙◌, ◌⊎◌, Option, none, some, List, [], ◌∷◌, ◌++◌, length,
  length-append, arith, ◌==◌, if◌then◌else◌, Bool-cases, Option-cases, inl, inr, ==_iff, ==_refl,
}
use mathlib.Core.List.{append-nil}
use schaufel.Bintree.{bin_find, bin_write, bin_find-write, is_same-bin_intcomp}
use schaufel.Queue.{
  Node, Heap, Xmark, Queue, consumer_cond, xmark_consumer_cond, is_null, update, take_queue,
  queue_take,
}
use schaufel.Queue.Segment.{
  Entry, mark, of_mark, head_or, last_or, node_of, Avoids, Segment-update, Segment-append,
  Segment-split, of_mark-append, last_or-append,
}
use schaufel.Queue.Writes.{Segment-set_xn, last_or-ne-none}
use schaufel.Queue.Splice.{Distinct-around, Avoids-append, unlink_next-Segment, unlink_prev-Segment}
use schaufel.Queue.Add.{update_ne}
use schaufel.Queue.Model.{MarkHolds, Holds, take, contents}

-- The oldest entry of a mark, and what stands on its two sides.
pub of_mark-split :
    (k : ℕ) (es : List Entry)
    → (of_mark k es ≡ [])
      ⊎ ((ls : List Entry) × (e : Entry) × (bs : List Entry) × (es ≡ ls ++ (e ∷ bs))
          × (of_mark k ls ≡ [])
          × (mark e ≡ k))
of_mark-split k [] = inl refl
of_mark-split k (e ∷ es) = elim (Bool-cases (mark e == k)) [
  | inl p ↦ inr ([], e, es, refl, refl, (==_iff (mark e) k).0 p)
  | inr p ↦ elim (of_mark-split k es) [
    | inl o ↦ inl (rw p o)
    | inr (ls, f, bs, q, o, m) ↦ inr (e ∷ ls, f, bs, rw q, rw p o, m)
  ]
]

pub take-contents :
    (k : ℕ) (ls : List Entry) (e : Entry) (bs : List Entry)
    → of_mark k ls ≡ []
    → mark e ≡ k
    → take k (contents (ls ++ (e ∷ bs))) ≡ some (e.msg, contents (ls ++ bs))
take-contents k [] e bs o m = rw (m, ==_refl)
take-contents k (f ∷ ls) e bs o m = elim (Bool-cases (mark f == k)) [
  | inl p ↦ ground (arith, p, o)
  | inr p ↦ rw (p, take-contents k ls e bs (ground (arith, p, o)) m)
]

pub take-none : (k : ℕ) (es : List Entry) → of_mark k es ≡ [] → take k (contents es) ≡ none
take-none k [] o = refl
take-none k (e ∷ es) o = elim (Bool-cases (mark e == k)) [
  | inl p ↦ ground (arith, p, o)
  | inr p ↦ rw (p, take-none k es (ground (arith, p, o)))
]

-- The ends of the lists once the entry between `ls` and `bs` has gone.
head_or-gone :
    (ls : List Entry) (e : Entry) (bs : List Entry) (first : Option ℕ)
    → first ≡ head_or (ls ++ (e ∷ bs)) none
    → (if is_null (last_or ls none) then head_or bs none else first) ≡ head_or (ls ++ bs) none
head_or-gone [] e bs first p = refl
head_or-gone (f ∷ ls) e bs first p = go (last_or ls (some f.addr)) refl
  where
    go :
        (l : Option ℕ)
        → last_or ls (some f.addr) ≡ l
        → (if is_null (last_or ls (some f.addr)) then head_or bs none else first) ≡ some f.addr
    go none q = absurd (last_or-ne-none f ls q)
    go (some a) q = rw q p

last_or-gone :
    (ls : List Entry) (e : Entry) (bs : List Entry) (last : Option ℕ)
    → last ≡ last_or (ls ++ (e ∷ bs)) none
    → (if is_null (head_or (ls ++ bs) none)
        then none
        else if is_null (head_or bs none)
        then last_or ls none
        else last)
      ≡ last_or (ls ++ bs) none
last_or-gone [] e [] last p = refl
last_or-gone [] e (b ∷ bs) last p = p
last_or-gone (f ∷ ls) e [] last p = rw append-nil
last_or-gone (f ∷ ls) e (b ∷ bs) last p = p ∙ rw (last_or-append, last_or-append)

last_or-tail :
    (e : Entry) (xs : List Entry) (last : Option ℕ)
    → last ≡ last_or xs (some e.addr)
    → (if is_null (head_or xs none) then none else last) ≡ last_or xs none
last_or-tail e [] last p = refl
last_or-tail e (x ∷ xs) last p = p

length-gone :
    (ls : List Entry) (e : Entry) (bs : List Entry) (n : ℕ)
    → n ≡ length (ls ++ (e ∷ bs))
    → (if is_null (head_or (ls ++ bs) none) then 0 else n - 1) ≡ length (ls ++ bs)
length-gone [] e [] n p = refl
length-gone [] e (b ∷ bs) n p = omega arith
length-gone (f ∷ ls) e bs n p = omega (arith, length-append ls (e ∷ bs), length-append ls bs)

of_mark-other :
    (ls : List Entry) (e : Entry) (bs : List Entry) (j : ℕ)
    → (mark e == j) ≡ false
    → of_mark j (ls ++ (e ∷ bs)) ≡ of_mark j (ls ++ bs)
of_mark-other ls e bs j p = rw (of_mark-append, of_mark-append, p)

-- The tree after the splice, at every mark.
take-MarkHolds :
    (t : List (ℕ × Xmark)) (ls : List Entry) (e : Entry) (bs : List Entry) (x : Xmark) (j : ℕ)
    → j < 2 ^ 32
    → bin_find t (mark e) ≡ some x
    → of_mark (mark e) ls ≡ []
    → MarkHolds (bin_find t (mark e)) (of_mark (mark e) (ls ++ (e ∷ bs)))
    → MarkHolds (bin_find t j) (of_mark j (ls ++ (e ∷ bs)))
    → let xnext = head_or (of_mark (mark e) bs) none in
      MarkHolds
        (bin_find
          (bin_write t (mark e) (record {
            first = xnext;
            last = if is_null xnext then none else x.last;
            count = if is_null xnext then 0 else x.count - 1;
          }))
          j)
        (of_mark j (ls ++ bs))
take-MarkHolds t ls e bs x j lt f o hk hj = elim (Bool-cases (j == mark e)) [
  | inl p ↦
      let r : j ≡ mark e = (==_iff j (mark e)).0 p in
      let xs : of_mark j (ls ++ bs) ≡ of_mark (mark e) bs = rw (r, of_mark-append, o) in
      let ys : of_mark (mark e) (ls ++ (e ∷ bs)) ≡ e ∷ of_mark (mark e) bs =
        rw (of_mark-append, o, ==_refl) in
      let mk : MarkHolds (some x) (e ∷ of_mark (mark e) bs) = rw (f, ys) at hk in
      rw (bin_find-write, is_same-bin_intcomp j (mark e) lt (omega arith), p, f, xs)
        (
          refl,
          last_or-tail e (of_mark (mark e) bs) x.last mk.1,
          length-gone [] e (of_mark (mark e) bs) x.count mk.2,
        )
  | inr p ↦
      rw
        (
          bin_find-write,
          is_same-bin_intcomp j (mark e) lt (omega arith),
          p,
          ← of_mark-other ls e bs j (ground (arith, p)),
        )
        hj
]

pub of_mark-here :
    (ls : List Entry) (e : Entry) (bs : List Entry)
    → of_mark (mark e) ls ≡ []
    → of_mark (mark e) (ls ++ (e ∷ bs)) ≡ e ∷ of_mark (mark e) bs
of_mark-here ls e bs o = rw (of_mark-append, o, ==_refl)

skip_xn :
    (e : Entry) (bs : List Entry) (j : ℕ)
    → j ≢ mark e
    → head_or (of_mark j (e ∷ bs)) none ≡ head_or (of_mark j bs) none
skip_xn e bs j n = ground arith

-- A mark that has messages stands in the tree.
mark_found :
    (q : Queue) (ls : List Entry) (e : Entry) (bs : List Entry)
    → Holds q (ls ++ (e ∷ bs))
    → of_mark (mark e) ls ≡ []
    → (x : Xmark) × (bin_find q.xtree (mark e) ≡ some x)
mark_found q ls e bs h o = elim (Option-cases (bin_find q.xtree (mark e))) [
  | inr r ↦ r
  | inl f ↦ cc (rw (f, of_mark-here ls e bs o) at (h.marks (mark e) (omega arith)))
]

-- `queue_take` at a mark that has messages: the oldest is returned and removed, the waiting
-- `queue_add`s are woken, and the representation is kept.
pub queue_take-Holds :
    (q : Queue) (ls : List Entry) (e : Entry) (bs : List Entry)
    → Holds q (ls ++ (e ∷ bs))
    → of_mark (mark e) ls ≡ []
    → (x : Xmark) × (n : Node) × (cell : Heap) × (bin_find q.xtree (mark e) ≡ some x)
      × (queue_take q (mark e)
          ≡ some (
            e.msg,
            take_queue q (mark e) x e.addr n cell,
            consumer_cond ∷ xmark_consumer_cond (mark e) ∷ [],
          ))
      × Holds (take_queue q (mark e) x e.addr n cell) (ls ++ bs)
      × ((b : ℕ) → Avoids b (ls ++ (e ∷ bs)) → update cell e.addr none b ≡ q.cell b)
unfolding queue_take
queue_take-Holds q ls e bs h o =
    let k = mark e in
    let (s1, s2) = Segment-split q.cell none ls (e ∷ bs) none _ h.segment in
    let (dw, dl, al, ar, dr) = Distinct-around ls e bs h.distinct in
    let (c1, run1, t1, t2, same1) =
      unlink_next-Segment q.cell (some e.addr) (last_or ls none) ls bs none _ _ _ dw dr s1 s2.1 in
    let (c2, run2, u1, u2, same2) =
      unlink_prev-Segment c1 ls bs none _ (head_or bs none) _ _ (last_or ls none) dw dl t1 t2 in
    let v1 =
      Segment-set_xn c2 none ls _ _ (λ m. head_or (of_mark m bs) none) k o (skip_xn e bs) u1 in
    let (x, f) = mark_found q ls e bs h o in
    let mk = rw (f, of_mark-here ls e bs o) at (h.marks k (omega arith)) in
    (
      x,
      node_of (last_or ls none) e bs none (λ _. none),
      c2,
      f,
      rw (f, mk.0, s2.0, run1, run2),
      record {
        segment =
            Segment-append (update c2 e.addr none) none ls bs none _
              (Segment-update c2 e.addr none none ls _ _ al v1)
              (Segment-update c2 e.addr none _ bs _ _ ar u2);
        distinct = dw;
        is_first = head_or-gone ls e bs q.first h.is_first;
        is_last =
            rw (head_or-gone ls e bs q.first h.is_first) (last_or-gone ls e bs q.last h.is_last);
        counted =
            rw (head_or-gone ls e bs q.first h.is_first) (length-gone ls e bs q.length h.counted);
        marks = λ j lt.
            take-MarkHolds q.xtree ls e bs x j lt f o (h.marks k (omega arith)) (h.marks j lt);
      },
      λ b hb.
          let (x, y) = Avoids-append b ls (e ∷ bs) hb in
          update_ne c2 e.addr b none (λ p. y.0 (sym p)) ∙ same2 b x ∙ same1 b y.1,
    )
