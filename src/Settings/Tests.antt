-- ===== src/Settings/Tests.antt =====
-- A default in a concrete configuration.
use schaufel.Common.{ℕ, ◌≡◌, refl, arith, false, none, some, [], ◌∷◌, codes, ◌⊎◌, inl}
use schaufel.Settings.{group, config_set_default_string, split_path}
use schaufel.Settings.Store.{Cells, store}
use schaufel.Settings.Defaults.{Keeps, resolve, config_set_default_string_lem}

-- An empty group.
abbrev bare : Cells
bare = record {
  next = 1;
  kinds = λ q. group;
  edges = λ q j. none;
  strings = λ q. none;
  ints = λ q. record { negative = false; size = 0 };
  bools = λ q. false;
}

config_set_default_string_example :
    (t' : Cells) × (leaf : ℕ) × (config_set_default_string store bare
        (some 0)
        (codes "a/b")
        (codes "v")
      ≡ some t')
    × Keeps store bare t'
    × (resolve store t' 0 (codes "a") (codes "b" ∷ []) ≡ some leaf)
    × (((resolve store bare 0 (codes "a") (codes "b" ∷ []) ≡ some leaf) × (t'.strings leaf ≡ none))
        ⊎ ((resolve store bare 0 (codes "a") (codes "b" ∷ []) ≡ none)
            × (t'.strings leaf ≡ some (codes "v"))))
unfolding split_path
config_set_default_string_example =
    config_set_default_string_lem store bare 0 (codes "a/b") (codes "v") refl (omega arith)
      (refl, (refl, tt)) (inl refl)
