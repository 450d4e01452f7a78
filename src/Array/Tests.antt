-- ===== src/Array/Tests.antt =====
-- Runs of src/utils/array.c on concrete arrays.
use schaufel.Common.{ℕ, ◌≡◌, refl, none, some, [], ◌∷◌}
use schaufel.Array.{Array, array_init, array_get}

abbrev pair : Array ℕ
pair = record { payload = some 7 ∷ some 8 ∷ []; len = 2; used = 2 }

second : array_get pair 1 ≡ some (some 8)
unfolding array_get
second = refl

-- An empty array has no index that `array_get` refuses.
outside : array_get (array_init {V = ℕ} 1) 1 ≡ none
unfolding array_get array_init
outside = refl
