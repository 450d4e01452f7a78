-- ===== src/Settings.antt =====
-- `config_create_path` and `config_set_default_string` of src/utils/config.c, over a configuration
-- tree. The tree is that of the configuration library: its operations and what they promise are an
-- argument.
pub mod Defaults
pub mod Store
mod Tests
use schaufel.Common.{
  ℕ, zero, suc, ◌≡◌, ◌≢◌, Bool, true, false, ◌&&◌, ◌||◌, Option, none, some, List, [], ◌∷◌, ◌++◌,
  length, ltb, leb, ◌==◌, if◌then◌else◌,
}
use schaufel.JsonExport.{same_string}
use schaufel.Connection.{Port}

-- The types of settings that the code tells apart.
pub data Kind : Type 0 where
  group list string int bool other : Kind

abbrev pub is_group : Kind → Bool
is_group group = true
is_group _ = false

-- The names that the library takes: a letter or '*', then letters, digits, '-', '_' and '*'.
abbrev pub is_letter : ℕ → Bool
is_letter c = (leb 65 c && leb c 90) || (leb 97 c && leb c 122) || c == 42

abbrev pub are_name_chars : List ℕ → Bool
are_name_chars [] = true
are_name_chars (c ∷ cs) =
    (is_letter c || (leb 48 c && leb c 57) || c == 45 || c == 95) && are_name_chars cs

abbrev pub is_name : List ℕ → Bool
is_name [] = false
is_name (c ∷ cs) = is_letter c && are_name_chars cs

-- The tree of settings, and pointers to its nodes: the type of a setting, `config_setting_get_member`
-- (and `config_setting_lookup`, of a single name), the value of a string, an int or a bool,
-- `config_setting_add`, `config_setting_set_string` and `config_setting_remove`. A setting that was not there is added, and
-- nothing else changes; one that is there is not added, nor is anything added to NULL.
pub record Library : Type 1 where
  pub Tree : Type 0
  pub Node : Type 0
  pub kind : Tree → Node → Kind
  pub member : Tree → Node → List ℕ → Option Node
  pub string_of : Tree → Node → Option (List ℕ)
  pub int_of : Tree → Node → Port
  pub bool_of : Tree → Node → Bool
  pub remove : Tree → Node → List ℕ → Tree
  pub add : Tree → Option Node → List ℕ → Kind → Tree × Option Node
  pub set_string : Tree → Node → List ℕ → Tree
  pub add-null : (t : Tree) (n : List ℕ) (k : Kind) → add t none n k ≡ (t, none)
  pub add-old :
      (t : Tree) (p m : Node) (n : List ℕ) (k : Kind)
      → kind t p ≡ group
      → member t p n ≡ some m
      → add t (some p) n k ≡ (t, none)
  pub add-new :
      (t : Tree) (p : Node) (n : List ℕ) (k : Kind)
      → kind t p ≡ group
      → is_name n ≡ true
      → member t p n ≡ none
      → (t' : Tree) × (m : Node) × (add t (some p) n k ≡ (t', some m))
        × (kind t' m ≡ k)
        × ((j : List ℕ) → member t' m j ≡ none)
        × ((j : List ℕ) → member t' p j ≡ (if same_string n j then some m else member t p j))
        × ((q : Node) (j : List ℕ) (r : Node)
            → member t q j ≡ some r
            → (member t' q j ≡ some r) × (r ≢ m))
        × (p ≢ m)
        × ((q : Node) → q ≢ m → (kind t' q ≡ kind t q) × (string_of t' q ≡ string_of t q))
  pub set_string-same :
      (t : Tree) (m : Node) (v : List ℕ)
      → kind t m ≡ string
      → string_of (set_string t m v) m ≡ some v
  pub set_string-other :
      (t : Tree) (m q : Node) (v : List ℕ) → q ≢ m → string_of (set_string t m v) q ≡ string_of t q
  pub kind-set_string : (t : Tree) (m q : Node) (v : List ℕ) → kind (set_string t m v) q ≡ kind t q
  pub member-set_string :
      (t : Tree) (m q : Node) (j v : List ℕ) → member (set_string t m v) q j ≡ member t q j

-- The parts of a path between '/', the first of them apart.
unfoldable pub split_path : List ℕ → List ℕ × List (List ℕ)
split_path [] = ([], [])
split_path (c ∷ cs) =
    let rest = split_path cs in if c == 47 then ([], rest.0 ∷ rest.1) else (c ∷ rest.0, rest.1)

module _ (L : Library) where
  open L use {Tree, Node, kind, member, add, set_string}

  -- `config_create_path`, part by part; `none` is an abort, or a lookup in NULL.
  unfoldable pub create_from :
      Tree → Option Node → List ℕ → List (List ℕ) → Kind → Option (Tree × Option Node)
  create_from t cur name [] k = some (add t cur name k)
  create_from t none name (n ∷ ns) k = none
  create_from t (some p) name (n ∷ ns) k = elim (member t p name) [
    | none ↦ let r = add t (some p) name group in create_from r.0 r.1 n ns k
    | some f ↦ elim (is_group (kind t f)) [ true ↦ create_from t (some f) n ns k | false ↦ none ]
  ]

  -- `config_create_path`, with its assertion that the path has fewer than 512 characters.
  unfoldable pub config_create_path :
      Tree → Option Node → List ℕ → Kind → Option (Tree × Option Node)
  config_create_path t parent path k =
      let (name, names) = split_path path in
      if ltb (length path) 512 then create_from t parent name names k else none

  abbrev pub set_created : List ℕ → Option (Tree × Option Node) → Option Tree
  set_created v none = none
  set_created v (some (t, none)) = some t
  set_created v (some (t, some m)) = some (set_string t m v)

  -- `config_set_default_string`.
  unfoldable pub config_set_default_string : Tree → Option Node → List ℕ → List ℕ → Option Tree
  config_set_default_string t parent path v =
      set_created v (config_create_path t parent path string)
