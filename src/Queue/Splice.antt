-- ===== src/Queue/Splice.antt =====
-- Removing one node of a segment of the queue of src/queue.c: the writes to its neighbours.
use schaufel.Common.{ℕ, ◌≡◌, ◌≢◌, refl, sym, ◌∙◌, Option, none, some, List, [], ◌∷◌, ◌++◌, arith}
use schaufel.Queue.{Heap, unlink_next, unlink_prev}
use schaufel.Queue.Segment.{Entry, head_or, last_or, Segment, Avoids, Distinct}
use schaufel.Queue.Writes.{Segment-write_next, Segment-write_prev, Avoids-last, last_or-ne-none}

-- A heap that differs at one address only, which a segment avoids.
pub Segment-same :
    (cell c : Heap) (a : ℕ) (pv : Option ℕ) (es : List Entry) (nx : Option ℕ) (xn : ℕ → Option ℕ)
    → Avoids a es
    → ((b : ℕ) → b ≢ a → c b ≡ cell b)
    → Segment cell pv es nx xn
    → Segment c pv es nx xn
Segment-same cell c a pv [] nx xn h same s = tt
Segment-same cell c a pv (e ∷ es) nx xn h same s =
    (same e.addr h.0 ∙ s.0, Segment-same cell c a (some e.addr) es nx xn h.1 same s.1)

pub Avoids-append : (a : ℕ) (es fs : List Entry) → Avoids a (es ++ fs) → Avoids a es × Avoids a fs
Avoids-append a [] fs h = (tt, h)
Avoids-append a (e ∷ es) fs h = let (l, r) = Avoids-append a es fs h.1 in ((h.0, l), r)

pub Avoids-concat : (a : ℕ) (es fs : List Entry) → Avoids a es → Avoids a fs → Avoids a (es ++ fs)
Avoids-concat a [] fs h k = k
Avoids-concat a (e ∷ es) fs h k = (h.0, Avoids-concat a es fs h.1 k)

-- What distinct addresses give around an entry.
pub Distinct-around :
    (es : List Entry) (e : Entry) (fs : List Entry)
    → Distinct (es ++ (e ∷ fs))
    → Distinct (es ++ fs) × Distinct es × Avoids e.addr es × Avoids e.addr fs × Distinct fs
Distinct-around [] e fs d = (d.1, tt, tt, d.0, d.1)
Distinct-around (f ∷ es) e fs d =
    let (w, l, al, ar, r) = Distinct-around es e fs d.1 in
    let (x, y) = Avoids-append f.addr es (e ∷ fs) d.0 in
    ((Avoids-concat f.addr es fs x y.1, w), (x, l), ((λ p. y.0 (sym p)), al), ar, r)

-- The address of the last entry on the left is avoided on the right, and that of the first entry
-- on the right on the left.
pub Distinct-last :
    (f : Entry) (es fs : List Entry) (a : ℕ)
    → Distinct (f ∷ es ++ fs)
    → last_or es (some f.addr) ≡ some a
    → Avoids a fs
Distinct-last f [] fs a d p = let e : a ≡ f.addr = ground (arith, p) in rw e d.0
Distinct-last f (g ∷ es) fs a d p = Distinct-last g es fs a d.1 p

pub Distinct-head :
    (es : List Entry) (f : Entry) (fs : List Entry) → Distinct (es ++ (f ∷ fs)) → Avoids f.addr es
Distinct-head es f fs d = (Distinct-around es f fs d).2

-- `next->prev = prev` on the right of the node that goes.
pub unlink_next-Segment :
    (cell : Heap) (pv v : Option ℕ) (es fs : List Entry) (nx nx' : Option ℕ) (xn xn' : ℕ → Option ℕ)
    → Distinct (es ++ fs)
    → Distinct fs
    → Segment cell none es nx' xn'
    → Segment cell pv fs nx xn
    → (c : Heap) × (unlink_next cell (head_or fs none) v ≡ some c)
      × Segment c none es nx' xn'
      × Segment c v fs nx xn
      × ((b : ℕ) → Avoids b fs → c b ≡ cell b)
unlink_next-Segment cell pv v es [] nx nx' xn xn' d df s t = (cell, refl, s, tt, λ b h. refl)
unlink_next-Segment cell pv v es (f ∷ fs) nx nx' xn xn' d df s t =
    let (c, run, seg, same) = Segment-write_prev cell pv f fs nx xn v df.0 t in
    (
      c,
      run,
      Segment-same cell c f.addr none es nx' xn' (Distinct-head es f fs d) same s,
      seg,
      λ b h. same b (λ q. h.0 (sym q)),
    )

-- `prev->next = next` on its left.
pub unlink_prev-Segment :
    (cell : Heap) (es fs : List Entry) (nx nx' v : Option ℕ) (xn xn' : ℕ → Option ℕ) (pv : Option ℕ)
    → Distinct (es ++ fs)
    → Distinct es
    → Segment cell none es nx' xn'
    → Segment cell pv fs nx xn
    → (c : Heap) × (unlink_prev cell (last_or es none) v ≡ some c)
      × Segment c none es v xn'
      × Segment c pv fs nx xn
      × ((b : ℕ) → Avoids b es → c b ≡ cell b)
unlink_prev-Segment cell [] fs nx nx' v xn xn' pv d de s t = (cell, refl, tt, t, λ b h. refl)
unlink_prev-Segment cell (e ∷ es) fs nx nx' v xn xn' pv d de s t =
    go (last_or es (some e.addr)) refl
  where
    go :
        (l : Option ℕ)
        → last_or es (some e.addr) ≡ l
        → (c : Heap) × (unlink_prev cell (last_or es (some e.addr)) v ≡ some c)
          × Segment c none (e ∷ es) v xn'
          × Segment c pv fs nx xn
          × ((b : ℕ) → Avoids b (e ∷ es) → c b ≡ cell b)
    go none p = absurd (last_or-ne-none e es p)
    go (some a) p =
        let (c, run, seg, same) = Segment-write_next cell none e es nx' xn' a v de p s in
        (
          c,
          rw p run,
          seg,
          Segment-same cell c a pv fs nx xn (Distinct-last e es fs a d p) same t,
          λ b h. same b (λ q. Avoids-last b a e es h p (sym q)),
        )
