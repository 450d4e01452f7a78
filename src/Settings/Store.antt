-- ===== src/Settings/Store.antt =====
-- A configuration tree whose nodes are numbers, given out in turn.
use schaufel.Common.{
  ℕ, suc, ◌<◌, ◌≡◌, ◌≢◌, refl, sym, ap, ◌∙◌, Bool, true, false, ◌&&◌, Option, none, some, List, ltb,
  ◌==◌, arith, if◌then◌else◌, Bool-cases, inl, inr,
}
use schaufel.JsonExport.{same_string}
use schaufel.Metadata.Assoc.{same_string_eq}
use schaufel.Connection.{Port}
use schaufel.Settings.{Kind, group, string, other, is_group, is_name, Library}

-- The nodes below `next` are in use.
pub record Cells : Type 0 where
  pub next : ℕ
  pub kinds : ℕ → Kind
  pub edges : ℕ → List ℕ → Option ℕ
  pub strings : ℕ → Option (List ℕ)
  pub ints : ℕ → Port
  pub bools : ℕ → Bool

abbrev pub below : ℕ → Option ℕ → Option ℕ
below n none = none
below n (some r) = if ltb r n then some r else none

abbrev pub kind_at : Cells → ℕ → Kind
kind_at t p = if ltb p t.next then t.kinds p else other

abbrev pub member_at : Cells → ℕ → List ℕ → Option ℕ
member_at t p n = if ltb p t.next then below t.next (t.edges p n) else none

abbrev pub grown : Cells → ℕ → List ℕ → Kind → Cells
grown t p n k = record {
  next = suc t.next;
  kinds = λ q. if q == t.next then k else t.kinds q;
  edges = λ q j.
      if q == t.next
      then none
      else if q == p && same_string n j
      then some t.next
      else member_at t q j;
  strings = λ q. if q == t.next then none else t.strings q;
  ints = t.ints;
  bools = t.bools;
}

abbrev pub add_absent : Cells → ℕ → List ℕ → Kind → Option ℕ → Cells × Option ℕ
add_absent t p n k none = (grown t p n k, some t.next)
add_absent t p n k (some m) = (t, none)

abbrev pub add_at : Cells → Option ℕ → List ℕ → Kind → Cells × Option ℕ
add_at t none n k = (t, none)
add_at t (some p) n k =
    if is_group (kind_at t p) then add_absent t p n k (member_at t p n) else (t, none)

abbrev pub set_at : Cells → ℕ → List ℕ → Cells
set_at t m v = record t { strings = λ q. if q == m then some v else t.strings q }

abbrev pub remove_at : Cells → ℕ → List ℕ → Cells
remove_at t p n = record t {
  edges = λ q j. if q == p && same_string n j then none else t.edges q j;
}

pub add_old :
    (t : Cells) (p m : ℕ) (n : List ℕ) (k : Kind)
    → kind_at t p ≡ group
    → member_at t p n ≡ some m
    → add_at t (some p) n k ≡ (t, none)
add_old t p m n k g e =
    ap (λ c. if is_group c then add_absent t p n k (member_at t p n) else (t, none)) g
    ∙ ap (add_absent t p n k) e

below_lt : (n : ℕ) (o : Option ℕ) (r : ℕ) → below n o ≡ some r → r < n
below_lt n none r h = cc
below_lt n (some s) r h = ground arith

group_lt : (t : Cells) (p : ℕ) → kind_at t p ≡ group → p < t.next
group_lt t p g = ground arith

member_lt :
    (t : Cells) (q : ℕ) (j : List ℕ) (r : ℕ)
    → member_at t q j ≡ some r
    → (q < t.next) × (r < t.next)
member_lt t q j r h = elim (Bool-cases (ltb q t.next)) [
  | inl l ↦
      let k : below t.next (t.edges q j) ≡ some r = rw l at h in
      (ground arith, below_lt t.next (t.edges q j) r k)
  | inr l ↦ let k : ◌≡◌ {A = Option ℕ} none (some r) = rw l at h in cc
]

below_more : (n : ℕ) (o : Option ℕ) → below (suc n) (below n o) ≡ below n o
below_more n none = refl
below_more n (some r) = ground arith

module _ (t : Cells) (p : ℕ) (n : List ℕ) (k : Kind) where
  -- The members of a node that was in use.
  grown_members :
      (q : ℕ)
      → q < t.next
      → (j : List ℕ)
      → member_at (grown t p n k) q j
        ≡ (if q == p && same_string n j then some t.next else member_at t q j)
  grown_members q lt j =
      let a : ltb q (suc t.next) ≡ true = ground arith in
      let b : (q == t.next) ≡ false = ground arith in
      let c : ltb q t.next ≡ true = ground arith in
      elim (Bool-cases (q == p && same_string n j)) [
        | inl e ↦ rw (a, b, e) (ground arith)
        | inr e ↦ rw (a, b, e, c) (below_more t.next (t.edges q j))
      ]

  grown_keeps :
      member_at t p n ≡ none
      → (q : ℕ) (j : List ℕ) (r : ℕ) → member_at t q j ≡ some r
      → (member_at (grown t p n k) q j ≡ some r) × (r ≢ t.next)
  grown_keeps e q j r h =
      let (lt, lr) = member_lt t q j r h in
      (
        grown_members q lt j ∙ elim (Bool-cases (q == p && same_string n j)) [
          | inr f ↦ rw f h
          | inl f ↦
              let qp : q ≡ p = ground (arith, f) in
              let nj : n ≡ j = same_string_eq n j (ground (arith, f)) in
              let same : member_at t q j ≡ member_at t p n =
                ap (λ x. member_at t x j) qp ∙ ap (member_at t p) (sym nj) in
              cc
        ],
        omega arith,
      )

  grown_frame :
      (q : ℕ)
      → q ≢ t.next
      → (kind_at (grown t p n k) q ≡ kind_at t q) × ((grown t p n k).strings q ≡ t.strings q)
  grown_frame q ne = (ground arith, ground arith)

pub add_new :
    (t : Cells) (p : ℕ) (n : List ℕ) (k : Kind)
    → kind_at t p ≡ group
    → is_name n ≡ true
    → member_at t p n ≡ none
    → (t' : Cells) × (m : ℕ) × (add_at t (some p) n k ≡ (t', some m))
      × (kind_at t' m ≡ k)
      × ((j : List ℕ) → member_at t' m j ≡ none)
      × ((j : List ℕ) → member_at t' p j ≡ (if same_string n j then some m else member_at t p j))
      × ((q : ℕ) (j : List ℕ) (r : ℕ)
          → member_at t q j ≡ some r
          → (member_at t' q j ≡ some r) × (r ≢ m))
      × (p ≢ m)
      × ((q : ℕ) → q ≢ m → (kind_at t' q ≡ kind_at t q) × (t'.strings q ≡ t.strings q))
add_new t p n k g v e =
    let lt = group_lt t p g in
    let here : (p == p) ≡ true = ground arith in
    let l : ltb t.next (suc t.next) ≡ true = ground arith in
    let r : (t.next == t.next) ≡ true = ground arith in
    (
      grown t p n k,
      t.next,
      ap (λ c. if is_group c then add_absent t p n k (member_at t p n) else (t, none)) g
          ∙ ap (add_absent t p n k) e,
      rw (l, r) refl,
      λ j. rw (l, r) refl,
      λ j. grown_members t p n k p lt j ∙ rw here refl,
      grown_keeps t p n k e,
      omega arith,
      grown_frame t p n k,
    )

pub set_same :
    (t : Cells) (m : ℕ) (v : List ℕ) → kind_at t m ≡ string → (set_at t m v).strings m ≡ some v
set_same t m v h = ground arith

pub set_other : (t : Cells) (m q : ℕ) (v : List ℕ) → q ≢ m → (set_at t m v).strings q ≡ t.strings q
set_other t m q v ne = ground arith

-- The laws hold of it.
abbrev pub store : Library
store = record {
  Tree = Cells;
  Node = ℕ;
  kind = kind_at;
  member = member_at;
  string_of = λ t p. t.strings p;
  int_of = λ t p. t.ints p;
  bool_of = λ t p. t.bools p;
  remove = remove_at;
  add = add_at;
  set_string = set_at;
  add-null = λ t n k. refl;
  add-old = add_old;
  add-new = add_new;
  set_string-same = set_same;
  set_string-other = set_other;
  kind-set_string = λ t m q v. refl;
  member-set_string = λ t m q j v. refl;
}
