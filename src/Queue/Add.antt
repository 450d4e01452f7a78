-- ===== src/Queue/Add.antt =====
-- `queue_add` of src/queue.c: linking the new node appends its message.
use mathlib.Core.Path.{fun_ext, subst}
use schaufel.Common.{
  ℕ, ◌+◌, ◌^◌, ◌<◌, ◌≡◌, ◌≢◌, refl, sym, ◌∙◌, Option, none, some, List, [], ◌∷◌, ◌++◌,
  length-append, arith, ◌==◌, if◌then◌else◌, Bool-cases, ==_iff, ==_refl, inl, inr,
}
use mathlib.Core.Bool.{false}
use mathlib.Core.List.{append-nil}
use schaufel.Message.{Message}
use schaufel.Bintree.{bin_find, bin_write, bin_find-write, is_same-bin_intcomp}
use schaufel.Queue.{
  Node, Heap, Xmark, Queue, mark_of, update, link_xmark, link_global, queue_link, link_queue,
  link_signals, is_null,
}
use schaufel.Queue.Segment.{
  Entry, mark, of_mark, head_or, last_or, Segment, Avoids, Distinct, set_xn, Segment-update,
  Segment-append, of_mark-append, last_or-append,
}
use schaufel.Queue.Writes.{
  Segment-write_next, Segment-write_xnext, Segment-set_xn, Avoids-last, Avoids-last_of_mark,
  last_or-none, last_or-ne-none,
}
use schaufel.Queue.Model.{MarkHolds, Holds}

abbrev pub new_node : Message → Node
new_node m = record { msg = m; next = none; prev = none; xnext = none }

abbrev none_after : ℕ → Option ℕ
none_after _ = none

pub Avoids-snoc :
    {a : ℕ} (es : List Entry) (e : Entry) → Avoids a es → e.addr ≢ a → Avoids a (es ++ (e ∷ []))
Avoids-snoc [] e h n = (n, tt)
Avoids-snoc (f ∷ es) e h n = (h.0, Avoids-snoc es e h.1 n)

pub update_ne : (cell : Heap) (a b : ℕ) (v : Option Node) → b ≢ a → update cell a v b ≡ cell b
update_ne cell a b v n = ground arith

-- The first write: the last node of the mark gets its successor.
link_xmark-Segment :
    (cell : Heap) (es : List Entry) (k p : ℕ) (l : Option ℕ)
    → Distinct es
    → Avoids p es
    → l ≡ last_or (of_mark k es) none
    → Segment cell none es none none_after
    → (c : Heap) × (link_xmark cell l p ≡ some c)
      × Segment c none es none (set_xn none_after k (some p))
      × ((b : ℕ) → Avoids b es → c b ≡ cell b)
link_xmark-Segment cell es k p none d av e s = (
  cell,
  refl,
  Segment-set_xn cell none es none _ _ k (last_or-none _ (sym e)) (λ j n. ground arith) s,
  λ b h. refl,
)
link_xmark-Segment cell es k p (some a) d av e s =
    let (c, run, seg, same) = Segment-write_xnext cell none es none _ k a (some p) d (sym e) s in
    (c, run, seg, λ b h. same b (λ q. Avoids-last_of_mark b k a es h (sym e) (sym q)))

-- The second: the last node of the queue gets its successor.
link_global-Segment :
    (cell : Heap) (es : List Entry) (p : ℕ) (m : Message) (l : Option ℕ) (xn : ℕ → Option ℕ)
    → Distinct es
    → Avoids p es
    → l ≡ last_or es none
    → cell p ≡ some (new_node m)
    → Segment cell none es none xn
    → (c : Heap) × (link_global cell l p ≡ some c)
      × Segment c none es (some p) xn
      × (c p ≡ some (record (new_node m) { prev = last_or es none }))
      × ((b : ℕ) → Avoids b es → b ≢ p → c b ≡ cell b)
link_global-Segment cell [] p m l xn d av e n s = (cell, rw e, tt, n, λ b h w. refl)
link_global-Segment cell (f ∷ es) p m none xn d av e n s = absurd (last_or-ne-none f es (sym e))
link_global-Segment cell (f ∷ es) p m (some a) xn d av e n s =
    let c1 = update cell p (some (record (new_node m) { prev = some a })) in
    let s1 = Segment-update cell p _ none (f ∷ es) none xn av s in
    let (c, run, seg, same) = Segment-write_next c1 none f es none xn a (some p) d (sym e) s1 in
    (
      c,
      rw n run,
      seg,
      same p (λ q. Avoids-last p a f es av (sym e) (sym q)) ∙ ground (arith, e),
      λ b h w. same b (λ q. Avoids-last b a f es h (sym e) (sym q)) ∙ update_ne cell p b _ w,
    )

Distinct-snoc :
    (es : List Entry) (e : Entry) → Distinct es → Avoids e.addr es → Distinct (es ++ (e ∷ []))
Distinct-snoc [] e d av = (tt, tt)
Distinct-snoc (f ∷ es) e d av =
    (Avoids-snoc es e d.0 (λ q. av.0 (sym q)), Distinct-snoc es e d.1 av.1)

set_xn-eq-head_or :
    (e : Entry)
    → set_xn none_after (mark e) (some e.addr) ≡ (λ j. head_or (of_mark j (e ∷ [])) none)
set_xn-eq-head_or e = fun_ext λ j. ground arith

head_or-snoc :
    (es : List Entry) (e : Entry) (first last : Option ℕ)
    → first ≡ head_or es none
    → last ≡ last_or es none
    → (if is_null last then some e.addr else first) ≡ head_or (es ++ (e ∷ [])) none
head_or-snoc [] e first last p q = rw q
head_or-snoc (f ∷ es) e first none p q = absurd (last_or-ne-none f es (sym q))
head_or-snoc (f ∷ es) e first (some a) p q = p

MarkHolds-snoc :
    (x : Xmark) (xs : List Entry) (e : Entry)
    → MarkHolds (some x) xs
    → MarkHolds
        (some (record {
          first = if is_null x.last then some e.addr else x.first;
          last = some e.addr;
          count = x.count + 1;
        }))
        (xs ++ (e ∷ []))
MarkHolds-snoc x xs e h = (
  head_or-snoc xs e x.first x.last h.0 h.1,
  rw last_or-append,
  rw length-append (omega (arith, h.2)),
)

-- The tree after the new message, at every mark.
link-MarkHolds :
    (t : List (ℕ × Xmark)) (es : List Entry) (e : Entry) (x : Xmark) (j : ℕ)
    → j < 2 ^ 32
    → bin_find t (mark e) ≡ some x
    → MarkHolds (bin_find t (mark e)) (of_mark (mark e) es)
    → MarkHolds (bin_find t j) (of_mark j es)
    → MarkHolds
        (bin_find
          (bin_write t (mark e) (record {
            first = if is_null x.last then some e.addr else x.first;
            last = some e.addr;
            count = x.count + 1;
          }))
          j)
        (of_mark j (es ++ (e ∷ [])))
link-MarkHolds t es e x j lt f hk hj = elim (Bool-cases (j == mark e)) [
  | inl p ↦
      let q : mark e ≡ j = sym ((==_iff j (mark e)).0 p) in
      let xs : of_mark j (es ++ (e ∷ [])) ≡ of_mark (mark e) es ++ (e ∷ []) =
        rw (← q, of_mark-append, ==_refl) in
      rw (bin_find-write, is_same-bin_intcomp j (mark e) lt (omega arith), p, f, xs)
        (MarkHolds-snoc x (of_mark (mark e) es) e (rw f at hk))
  | inr p ↦
      let xs : of_mark j (es ++ (e ∷ [])) ≡ of_mark j es =
        let r : (mark e == j) ≡ false = ground (arith, p) in rw (of_mark-append, r, append-nil) in
      rw (bin_find-write, is_same-bin_intcomp j (mark e) lt (omega arith), p, xs) hj
]

-- `queue_link` appends the message of the new node, and keeps the representation.
pub queue_link-Holds :
    (q : Queue) (es : List Entry) (p : ℕ) (m : Message) (x : Xmark)
    → Holds q es
    → Avoids p es
    → q.cell p ≡ some (new_node m)
    → bin_find q.xtree (mark_of m.xmark) ≡ some x
    → (cell : Heap) × (queue_link q p (mark_of m.xmark)
        ≡ some (link_queue q p (mark_of m.xmark) x cell, link_signals q (mark_of m.xmark) x))
      × Holds (link_queue q p (mark_of m.xmark) x cell) (es ++ (record { addr = p; msg = m } ∷ []))
      × ((b : ℕ) → Avoids b es → b ≢ p → cell b ≡ q.cell b)
unfolding queue_link
queue_link-Holds q es p m x h av n f =
    let k = mark_of m.xmark in
    let e : Entry = record { addr = p; msg = m } in
    let mk : MarkHolds (some x) (of_mark k es) = rw f at (h.marks k (omega arith)) in
    let (c1, run1, seg1, same1) =
      link_xmark-Segment q.cell es k p x.last h.distinct av mk.1 h.segment in
    let (c2, run2, seg2, at2, same2) =
      link_global-Segment c1 es p m q.last _ h.distinct av h.is_last (same1 p av ∙ n) seg1 in
    (
      c2,
      rw (f, run1, run2),
      record {
        segment =
            Segment-append c2 none es (e ∷ []) none none_after
              (subst (Segment c2 none es (some p)) (set_xn-eq-head_or e) seg2) (at2, tt);
        distinct = Distinct-snoc es e h.distinct av;
        is_first = head_or-snoc es e q.first q.last h.is_first h.is_last;
        is_last = rw last_or-append;
        counted = rw length-append (omega (arith, h.counted));
        marks =
            λ j lt. link-MarkHolds q.xtree es e x j lt f (h.marks k (omega arith)) (h.marks j lt);
      },
      λ b hb w. same2 b hb w ∙ same1 b hb,
    )
