-- ===== src/Bintree.antt =====
-- src/utils/bintree.c: the order on the keys of the tree, and its lookups. `tsearch` and `tfind`
-- are the C library's: the tree is the list of its nodes, and a node is found when it compares
-- equal. A key is a uint32_t, which `bin_intcomp` reads as an int.
use schaufel.Common.{
  ℕ, ◌+◌, ◌%◌, ◌^◌, ◌<◌, ◌≡◌, ◌↔◌, Bool, true, false, Option, none, some, List, [], ◌∷◌, arith, ltb,
  ◌==◌, if◌then◌else◌, ==_iff, Bool-cases, inl, inr,
}

-- The result of a comparison: -1, 0 or 1.
pub data Sign : Type 0 where
  below same above : Sign

-- The int that a uint32_t converts to, moved up by 2 ^ 31 so that it is no less than 0.
abbrev pub as_int : ℕ → ℕ
as_int u = (u + 2 ^ 31) % 2 ^ 32

unfoldable pub bin_intcomp : ℕ → ℕ → Sign
bin_intcomp a b =
    if ltb (as_int a) (as_int b) then below else if ltb (as_int b) (as_int a) then above else same

-- `bin_intcomp` is 0 exactly at equal keys, and changes its sign when the arguments change places.
pub bin_intcomp_order :
    (a b : ℕ)
    → a < 2 ^ 32
    → b < 2 ^ 32
    → ((bin_intcomp a b ≡ same) ↔ (a ≡ b)) × ((bin_intcomp a b ≡ below) ↔ (bin_intcomp b a ≡ above))
unfolding bin_intcomp
bin_intcomp_order a b p q = ground arith

pub bin_intcomp_self : (a : ℕ) → bin_intcomp a a ≡ same
unfolding bin_intcomp
bin_intcomp_self a = ground arith

abbrev pub is_same : Sign → Bool
is_same same = true
is_same _ = false

pub is_same-bin_intcomp : (a b : ℕ) → a < 2 ^ 32 → b < 2 ^ 32 → is_same (bin_intcomp a b) ≡ (a == b)
unfolding bin_intcomp
is_same-bin_intcomp a b p q = ground arith

module _ {V : Type 0} where
  -- `bin_find`: the node whose key compares equal, or NULL.
  unfoldable pub bin_find : List (ℕ × V) → ℕ → Option V
  bin_find [] k = none
  bin_find ((j, v) ∷ t) k = if is_same (bin_intcomp k j) then some v else bin_find t k

  -- `bin_search`: find the node, or insert it. `none` is a tsearch that is out of memory.
  abbrev insert_at : Bool → List (ℕ × V) → ℕ → V → Option V → Option (V × List (ℕ × V))
  insert_at room t k v (some w) = some (w, t)
  insert_at true t k v none = some (v, (k, v) ∷ t)
  insert_at false t k v none = none

  unfoldable pub bin_search : Bool → List (ℕ × V) → ℕ → V → Option (V × List (ℕ × V))
  bin_search room t k v = insert_at room t k v (bin_find t k)

  -- A write through the pointer that `bin_find` returns.
  unfoldable pub bin_write : List (ℕ × V) → ℕ → V → List (ℕ × V)
  bin_write [] k v = []
  bin_write ((j, w) ∷ t) k v =
      if is_same (bin_intcomp k j) then (j, v) ∷ t else (j, w) ∷ bin_write t k v

  pub bin_find-write :
      (t : List (ℕ × V)) (k j : ℕ) (v : V)
      → bin_find (bin_write t k v) j ≡ (
          if is_same (bin_intcomp j k)
          then elim (bin_find t k) [ none ↦ none | some _ ↦ some v ]
          else bin_find t j)
  unfolding bin_find bin_write bin_intcomp
  bin_find-write [] k j v = ground arith
  bin_find-write ((i, w) ∷ t) k j v = ground (arith, bin_find-write t k j v)

  -- A lookup after an insertion at another key, or at the same one.
  pub bin_find-cons :
      (t : List (ℕ × V)) (k j : ℕ) (v : V)
      → k < 2 ^ 32
      → j < 2 ^ 32
      → bin_find ((k, v) ∷ t) j ≡ (if j == k then some v else bin_find t j)
  unfolding bin_find
  bin_find-cons t k j v p q = rw (is_same-bin_intcomp j k q p)

  -- A write keeps every key in the tree.
  pub bin_find-write_some :
      (t : List (ℕ × V)) (k j : ℕ) (v y : V)
      → k < 2 ^ 32
      → j < 2 ^ 32
      → bin_find t j ≡ some y
      → (z : V) × (bin_find (bin_write t k v) j ≡ some z)
  bin_find-write_some t k j v y p q f = elim (Bool-cases (j == k)) [
    | inl e ↦
        let g : bin_find t k ≡ some y = rw (← (==_iff j k).0 e) f in
        (v, rw (bin_find-write, is_same-bin_intcomp j k q p, e, g))
    | inr n ↦ (y, rw (bin_find-write, is_same-bin_intcomp j k q p, n) f)
  ]
