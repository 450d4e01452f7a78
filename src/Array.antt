-- ===== src/Array.antt =====
-- src/utils/array.c: arrays of strings that grow. A string is any value, and NULL is `none`; the
-- result `none` of a function is an access outside the memory of the array. Allocations succeed.
pub mod Refine
mod Tests
use schaufel.Common.{
  ℕ, zero, suc, ◌+◌, ◌-◌, ◌*◌, ◌%◌, ◌^◌, Bool, true, false, Option, none, some, List, [], ◌∷◌, ◌++◌,
  ltb, ◌==◌, if◌then◌else◌,
}

-- `struct Array`.
pub record Array (V : Type 0) : Type 0 where
  pub payload : List (Option V)
  pub len : ℕ
  pub used : ℕ

module _ {V : Type 0} where
  -- What calloc gives.
  abbrev pub nulls : ℕ → List (Option V)
  nulls zero = []
  nulls (suc n) = none ∷ nulls n

  abbrev pub cell : List (Option V) → ℕ → Option (Option V)
  cell [] i = none
  cell (c ∷ cs) zero = some c
  cell (c ∷ cs) (suc i) = cell cs i

  abbrev cons_to : Option V → Option (List (Option V)) → Option (List (Option V))
  cons_to c none = none
  cons_to c (some cs) = some (c ∷ cs)

  abbrev pub set_cell : List (Option V) → ℕ → V → Option (List (Option V))
  set_cell [] i v = none
  set_cell (c ∷ cs) zero v = some (some v ∷ cs)
  set_cell (c ∷ cs) (suc i) v = cons_to c (set_cell cs i v)

  unfoldable pub array_init : ℕ → Array V
  array_init len = record { payload = nulls len; len = if len == 0 then 1 else len; used = 0 }

  -- `array->used - 1` is a size_t: of an empty array it is the largest one.
  unfoldable pub array_get : Array V → ℕ → Option (Option V)
  array_get a index =
      if ltb ((a.used + (2 ^ 64 - 1)) % 2 ^ 64) index then some none else cell a.payload index

  -- The array grown by realloc, where it is full. The loop that follows sets the new cells but the
  -- one at `used`, which is written next.
  abbrev pub grown : Array V → Array V
  grown a =
      if a.used == a.len
      then record a {
        len = a.len * 2 % 2 ^ 64;
        payload = a.payload ++ nulls (a.len * 2 % 2 ^ 64 - a.len);
      }
      else a

  abbrev pub written : Array V → Option (List (Option V)) → Option (Array V)
  written a none = none
  written a (some cs) = some (record a { payload = cs; used = a.used + 1 })

  unfoldable pub array_insert : Array V → V → Option (Array V)
  array_insert a v = let b = grown a in written b (set_cell b.payload b.used v)

  abbrev popped : Array V → Option (Option V) → Option (Option V × Array V)
  popped a none = none
  popped a (some c) = some (c, record a { used = a.used - 1 })

  -- `array_pop`: the value, and the array afterwards.
  unfoldable pub array_pop : Array V → Option (Option V × Array V)
  array_pop a = if a.used == 0 then some (none, a) else popped a (cell a.payload (a.used - 1))
