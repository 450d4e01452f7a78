-- ===== src/Metadata.antt =====
-- src/utils/metadata.c: the metadata of a message, over a hash table whose operations are an argument.
-- Pointers to the values are of a type `P`, and functions of a type `F`.
pub mod Assoc
use schaufel.Common.{
  ℕ, ◌≡◌, Bool, true, false, not, Option, none, some, List, [], ◌∷◌, ◌++◌, if◌then◌else◌,
}
use schaufel.JsonExport.{same_string}

-- `struct mdatum`, without its key: a string or a number, a function, or something opaque.
pub data Datum (F P : Type 0) : Type 0 where
  plain : Option P → Datum F P
  func : Option F → Datum F P
  opaque : Option P → Datum F P

pub record MDatum (F P : Type 0) : Type 0 where
  pub value : Datum F P
  pub len : ℕ

-- `mdatum_init`, where calloc succeeds.
abbrev pub mdatum_init : {F P : Type 0} → Datum F P → ℕ → MDatum F P
mdatum_init value len = record { value = value; len = len }

abbrev pub is_found {ℓ} : {A : Type ℓ} → Option A → Bool
is_found none = false
is_found (some a) = true

-- The hash table: `htable_create`, `htable_find`, `htable_insert` with what it says of
-- `isNewNode`, a write through the pointer that `htable_find` returned, and the items in the order in
-- which `htable_free_items` goes through them. An insertion under a key that is there replaces its
-- item.
pub record HashTable (V : Type 0) : Type 1 where
  pub Table : Type 0
  pub create : Table
  pub find : Table → List ℕ → Option V
  pub insert : Table → List ℕ → V → Table × Bool
  pub write : Table → List ℕ → V → Table
  pub items : Table → List V
  pub find-create : (k : List ℕ) → find create k ≡ none
  pub find-insert :
      (t : Table) (k j : List ℕ) (v : V)
      → find (insert t k v).0 j ≡ (if same_string k j then some v else find t j)
  pub insert_new : (t : Table) (k : List ℕ) (v : V) → (insert t k v).1 ≡ not (is_found (find t k))
  pub find-write :
      (t : Table) (k j : List ℕ) (v w : V)
      → find t k ≡ some w
      → find (write t k v) j ≡ (if same_string k j then some v else find t j)
  pub items-create : items create ≡ []
  pub items-insert :
      (t : Table) (k : List ℕ) (v : V)
      → find t k ≡ none
      → (xs : List V) × (ys : List V) × (items t ≡ xs ++ ys)
        × (items (insert t k v).0 ≡ xs ++ (v ∷ ys))
  pub items-write :
      (t : Table) (k : List ℕ) (v w : V)
      → find t k ≡ some w
      → (xs : List V) × (ys : List V) × (items t ≡ xs ++ (w ∷ ys))
        × (items (write t k v) ≡ xs ++ (v ∷ ys))

-- "callback".
abbrev pub callback_key : List ℕ
callback_key = 99 ∷ 97 ∷ 108 ∷ 108 ∷ 98 ∷ 97 ∷ 99 ∷ 107 ∷ []

-- `mdatum_free`: the block that is freed.
unfoldable pub mdatum_free : {F P : Type 0} → MDatum F P → List P
mdatum_free d = elim d.value [
  | plain none ↦ []
  | plain (some p) ↦ p ∷ []
  | func f ↦ []
  | opaque none ↦ []
  | opaque (some p) ↦ p ∷ []
]

abbrev pub free_items : {F P : Type 0} → List (MDatum F P) → List P
free_items [] = []
free_items (d ∷ ds) = mdatum_free d ++ free_items ds

module _ {F P : Type 0} (H : HashTable (MDatum F P)) where
  -- `metadata_find`.
  unfoldable pub metadata_find : Option H.Table → List ℕ → Option (MDatum F P)
  metadata_find none key = none
  metadata_find (some t) key = H.find t key

  abbrev table_of : Option H.Table → H.Table
  table_of none = H.create
  table_of (some t) = t

  abbrev replaced : Option (MDatum F P) → List P
  replaced none = []
  replaced (some d) = mdatum_free d

  -- `metadata_insert`: the table afterwards, the datum that is returned, and what is freed besides the
  -- caller's copy of the datum, which is the old value of the key.
  unfoldable pub metadata_insert :
      Option H.Table → List ℕ → Option (MDatum F P) → Option H.Table × Option (MDatum F P) × List P
  unfolding table_of replaced
  metadata_insert md key none = (md, none, [])
  metadata_insert md key (some d) =
      let t = table_of md in
      let r = H.insert t key d in
      let found = H.find r.0 key in (some r.0, if r.1 then found else none, replaced (H.find t key))

  -- The blocks that `metadata_free` frees for the values.
  unfoldable pub metadata_free : Option H.Table → List P
  metadata_free none = []
  metadata_free (some t) = free_items (H.items t)

-- `metadata_callback_run`, by what `metadata_find` gives: `accepted` and `refused` are the results
-- without a call, and `run` calls the function.
unfoldable pub callback_run {ℓ} :
    {F P : Type 0} {R : Type ℓ} → R → R → (F → R) → Option (MDatum F P) → R
callback_run accepted refused run none = accepted
callback_run accepted refused run (some d) = elim d.value [
  | plain p ↦ refused
  | func none ↦ refused
  | func (some f) ↦ run f
  | opaque p ↦ refused
]
