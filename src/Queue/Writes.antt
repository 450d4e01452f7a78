-- ===== src/Queue/Writes.antt =====
-- The writes of src/queue.c to `next`, `prev` and `xnext` of a node of a segment.
use schaufel.Common.{
  ℕ, ◌≡◌, ◌≢◌, refl, sym, ◌∙◌, Option, none, some, List, [], ◌∷◌, arith, ◌==◌, Bool-cases,
  List-cases, inl, inr,
}
use schaufel.Queue.{Heap, update, write_next, write_prev, write_xnext}
use schaufel.Queue.Segment.{
  Entry, mark, of_mark, last_or, node_of, Segment, Avoids, Distinct, set_xn, Segment-update,
}

pub last_or-ne-none : (e : Entry) (es : List Entry) → last_or es (some e.addr) ≢ none
last_or-ne-none e [] h = cc
last_or-ne-none e (f ∷ es) h = last_or-ne-none f es h

pub last_or-none : (es : List Entry) → last_or es none ≡ none → es ≡ []
last_or-none [] h = refl
last_or-none (e ∷ es) h = absurd (last_or-ne-none e es h)

-- An entry of a list that avoids `a` does not stand at `a`.
pub Avoids-last :
    (a b : ℕ) (e : Entry) (es : List Entry)
    → Avoids a (e ∷ es)
    → last_or es (some e.addr) ≡ some b
    → b ≢ a
Avoids-last a b e [] h p = ground arith
Avoids-last a b e (f ∷ es) h p = Avoids-last a b f es h.1 p

Avoids-of_mark : (a m : ℕ) (es : List Entry) → Avoids a es → Avoids a (of_mark m es)
Avoids-of_mark a m [] h = tt
Avoids-of_mark a m (e ∷ es) h = ground (arith, Avoids-of_mark a m es h.1)

pub Avoids-last_of_mark :
    (x m a : ℕ) (es : List Entry) → Avoids x es → last_or (of_mark m es) none ≡ some a → a ≢ x
Avoids-last_of_mark x m a es h l = elim (List-cases (of_mark m es)) [
  | inl o ↦ ground (arith, o, l)
  | inr (f, fs, o) ↦ Avoids-last x a f fs (rw o at (Avoids-of_mark x m es h)) (ground (arith, o, l))
]

-- A new successor of the last node.
pub Segment-write_next :
    (cell : Heap) (pv : Option ℕ) (e : Entry) (es : List Entry) (nx : Option ℕ) (xn : ℕ → Option ℕ)
    (a : ℕ) (v : Option ℕ)
    → Distinct (e ∷ es)
    → last_or es (some e.addr) ≡ some a
    → Segment cell pv (e ∷ es) nx xn
    → (c : Heap) × (write_next cell a v ≡ some c)
      × Segment c pv (e ∷ es) v xn
      × ((b : ℕ) → b ≢ a → c b ≡ cell b)
Segment-write_next cell pv e [] nx xn a v d l s = (
  update cell a (some (record (node_of pv e [] nx xn) { next = v })),
  ground arith,
  (ground arith, tt),
  λ b n. ground arith,
)
Segment-write_next cell pv e (f ∷ es) nx xn a v d l s =
    let (c, run, seg, same) = Segment-write_next cell (some e.addr) f es nx xn a v d.1 l s.1 in
    (c, run, (same e.addr (λ p. Avoids-last e.addr a f es d.0 l (sym p)) ∙ s.0, seg), same)

-- What follows a segment matters only for the marks that the segment has.
pub Segment-set_xn :
    (cell : Heap) (pv : Option ℕ) (es : List Entry) (nx : Option ℕ) (xn xn' : ℕ → Option ℕ) (m : ℕ)
    → of_mark m es ≡ []
    → ((k : ℕ) → k ≢ m → xn k ≡ xn' k)
    → Segment cell pv es nx xn
    → Segment cell pv es nx xn'
Segment-set_xn cell pv [] nx xn xn' m o h s = tt
Segment-set_xn cell pv (e ∷ es) nx xn xn' m o h s = elim (Bool-cases (mark e == m)) [
  | inl p ↦ ground (arith, p, o)
  | inr p ↦ (
    ground (arith, s.0, p, h (mark e)),
    Segment-set_xn cell (some e.addr) es nx xn xn' m (ground (arith, p, o)) h s.1,
  )
]

-- A new successor of the last node of a mark.
pub Segment-write_xnext :
    (cell : Heap) (pv : Option ℕ) (es : List Entry) (nx : Option ℕ) (xn : ℕ → Option ℕ) (m a : ℕ)
    (v : Option ℕ)
    → Distinct es
    → last_or (of_mark m es) none ≡ some a
    → Segment cell pv es nx xn
    → (c : Heap) × (write_xnext cell a v ≡ some c)
      × Segment c pv es nx (set_xn xn m v)
      × ((b : ℕ) → b ≢ a → c b ≡ cell b)
Segment-write_xnext cell pv [] nx xn m a v d l s = ground arith
Segment-write_xnext cell pv (e ∷ es) nx xn m a v d l s = elim (Bool-cases (mark e == m)) [
  | inr p ↦
      let l' : last_or (of_mark m es) none ≡ some a = ground (arith, l, p) in
      let (c, run, seg, same) = Segment-write_xnext cell (some e.addr) es nx xn m a v d.1 l' s.1 in
      let away : cell e.addr ≡ c e.addr =
        sym (same e.addr (λ q. Avoids-last_of_mark e.addr m a es d.0 l' (sym q))) in
      (c, run, (ground (arith, p, s.0, away), seg), same)
  | inl p ↦ elim (List-cases (of_mark m es)) [
    | inl o ↦
        let at : a ≡ e.addr = ground (arith, l, p, o) in
        (
          update cell a (some (record (node_of pv e es nx xn) { xnext = v })),
          ground (arith, at, s.0),
          (
            ground (arith, at, s.0, p, o),
            Segment-update cell a _ (some e.addr) es nx (set_xn xn m v) (rw at d.0) (
                Segment-set_xn cell (some e.addr) es nx xn (set_xn xn m v) m o (λ k n. ground arith)
                  s.1),
          ),
          λ b n. ground arith,
        )
    | inr (f, fs, o) ↦
        let l' : last_or (of_mark m es) none ≡ some a = ground (arith, l, p, o) in
        let (c, run, seg, same) =
          Segment-write_xnext cell (some e.addr) es nx xn m a v d.1 l' s.1 in
        let away : cell e.addr ≡ c e.addr =
          sym (same e.addr (λ q. Avoids-last_of_mark e.addr m a es d.0 l' (sym q))) in
        (c, run, (ground (arith, p, o, s.0, away), seg), same)
  ]
]

-- A new predecessor of the first node.
pub Segment-write_prev :
    (cell : Heap) (pv : Option ℕ) (e : Entry) (es : List Entry) (nx : Option ℕ) (xn : ℕ → Option ℕ)
    (v : Option ℕ)
    → Avoids e.addr es
    → Segment cell pv (e ∷ es) nx xn
    → (c : Heap) × (write_prev cell e.addr v ≡ some c)
      × Segment c v (e ∷ es) nx xn
      × ((b : ℕ) → b ≢ e.addr → c b ≡ cell b)
Segment-write_prev cell pv e es nx xn v d s = (
  update cell e.addr (some (node_of v e es nx xn)),
  ground (arith, s.0),
  (ground arith, Segment-update cell e.addr _ (some e.addr) es nx xn d s.1),
  λ b n. ground arith,
)
