-- ===== src/Queue/Segment.antt =====
-- Doubly linked segments of the queue's heap, and how writes to the fields of a node act on them.
use schaufel.Common.{
  ℕ, ◌≡◌, ◌≢◌, refl, Option, some, List, [], ◌∷◌, ◌++◌, arith, ◌==◌, All, if◌then◌else◌,
}
use schaufel.Message.{Message}
use schaufel.Queue.{Node, Heap, update, mark_of}

-- A message of the queue, and the address of its node.
pub record Entry : Type 0 where
  pub addr : ℕ
  pub msg : Message

abbrev pub mark : Entry → ℕ
mark e = mark_of e.msg.xmark

-- The entries of one mark, in order.
abbrev pub of_mark : ℕ → List Entry → List Entry
of_mark m [] = []
of_mark m (e ∷ es) = let rest = of_mark m es in if mark e == m then e ∷ rest else rest

-- The address of the first entry, and of the last.
abbrev pub head_or : List Entry → Option ℕ → Option ℕ
head_or [] d = d
head_or (e ∷ es) d = some e.addr

abbrev pub last_or : List Entry → Option ℕ → Option ℕ
last_or [] d = d
last_or (e ∷ es) d = last_or es (some e.addr)

-- The node of an entry that stands before `es`. After them `next` is `nx`, and the next node of
-- mark `m` is `xn m`.
abbrev pub node_of : Option ℕ → Entry → List Entry → Option ℕ → (ℕ → Option ℕ) → Node
node_of pv e es nx xn = record {
  msg = e.msg;
  next = head_or es nx;
  prev = pv;
  xnext = head_or (of_mark (mark e) es) (xn (mark e));
}

-- The nodes of `es` stand on the heap, linked both ways and by mark.
abbrev pub Segment : Heap → Option ℕ → List Entry → Option ℕ → (ℕ → Option ℕ) → Type 0
Segment cell pv [] nx xn = Unit
Segment cell pv (e ∷ es) nx xn =
    (cell e.addr ≡ some (node_of pv e es nx xn)) × Segment cell (some e.addr) es nx xn

abbrev pub Avoids : ℕ → List Entry → Type 0
Avoids a es = All (λ e. e.addr ≢ a) es

abbrev pub Distinct : List Entry → Type 0
Distinct [] = Unit
Distinct (e ∷ es) = Avoids e.addr es × Distinct es

abbrev pub set_xn : (ℕ → Option ℕ) → ℕ → Option ℕ → ℕ → Option ℕ
set_xn xn m v k = if k == m then v else xn k

pub of_mark-append :
    (m : ℕ) (es fs : List Entry) → of_mark m (es ++ fs) ≡ of_mark m es ++ of_mark m fs
of_mark-append m [] fs = refl
of_mark-append m (e ∷ es) fs = ground (arith, of_mark-append m es fs)

pub head_or-append :
    (es fs : List Entry) (d : Option ℕ) → head_or (es ++ fs) d ≡ head_or es (head_or fs d)
head_or-append [] fs d = refl
head_or-append (e ∷ es) fs d = refl

pub last_or-append :
    (es fs : List Entry) (d : Option ℕ) → last_or (es ++ fs) d ≡ last_or fs (last_or es d)
last_or-append [] fs d = refl
last_or-append (e ∷ es) fs d = last_or-append es fs (some e.addr)

-- A write elsewhere leaves a segment.
pub Segment-update :
    (cell : Heap) (a : ℕ) (v : Option Node) (pv : Option ℕ) (es : List Entry) (nx : Option ℕ)
    (xn : ℕ → Option ℕ)
    → Avoids a es
    → Segment cell pv es nx xn
    → Segment (update cell a v) pv es nx xn
Segment-update cell a v pv [] nx xn h s = tt
Segment-update cell a v pv (e ∷ es) nx xn h s =
    (ground (arith, h.0, s.0), Segment-update cell a v (some e.addr) es nx xn h.1 s.1)

-- Segments of what is concatenated.
pub Segment-append :
    (cell : Heap) (pv : Option ℕ) (es fs : List Entry) (nx : Option ℕ) (xn : ℕ → Option ℕ)
    → Segment cell pv es (head_or fs nx) (λ m. head_or (of_mark m fs) (xn m))
    → Segment cell (last_or es pv) fs nx xn
    → Segment cell pv (es ++ fs) nx xn
Segment-append cell pv [] fs nx xn s t = t
Segment-append cell pv (e ∷ es) fs nx xn s t = (
  ground (
    arith,
    s.0,
    head_or-append es fs nx,
    of_mark-append (mark e) es fs,
    head_or-append (of_mark (mark e) es) (of_mark (mark e) fs) (xn (mark e)),
  ),
  Segment-append cell (some e.addr) es fs nx xn s.1 t,
)

pub Segment-split :
    (cell : Heap) (pv : Option ℕ) (es fs : List Entry) (nx : Option ℕ) (xn : ℕ → Option ℕ)
    → Segment cell pv (es ++ fs) nx xn
    → Segment cell pv es (head_or fs nx) (λ m. head_or (of_mark m fs) (xn m))
      × Segment cell (last_or es pv) fs nx xn
Segment-split cell pv [] fs nx xn s = (tt, s)
Segment-split cell pv (e ∷ es) fs nx xn s =
    let (l, r) = Segment-split cell (some e.addr) es fs nx xn s.1 in
    (
      (
        ground (
          arith,
          s.0,
          head_or-append es fs nx,
          of_mark-append (mark e) es fs,
          head_or-append (of_mark (mark e) es) (of_mark (mark e) fs) (xn (mark e)),
        ),
        l,
      ),
      r,
    )
