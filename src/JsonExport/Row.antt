-- ===== src/JsonExport/Row.antt =====
-- A row of src/hooks/jsonexport.c, read back by the format of a postgres binary COPY tuple.
use schaufel.Common.{
  ℕ, zero, suc, ◌+◌, ◌-◌, ◌*◌, ◌^◌, ◌<◌, ◌≡◌, refl, Bool, Option, none, some, List, [], ◌∷◌, length,
  take, drop, ◌==◌, if◌then◌else◌, inl, inr, ◌⊎◌,
}
use schaufel.JsonExport.{null, Dereferenced, discarded, failed, crashed, results}

-- The tuple format: a 16-bit count of fields; a field is a 32-bit length and its bytes, and the
-- length of NULL is all ones.
abbrev pub decode_fields : ℕ → List ℕ → Option (List (Option (List ℕ)))
decode_fields zero [] = some []
decode_fields zero (c ∷ cs) = none
decode_fields (suc n) (a ∷ b ∷ c ∷ d ∷ cs) =
    let len = a * 16777216 + b * 65536 + c * 256 + d in
    let null = len == 2 ^ 32 - 1 in
    elim (decode_fields n (if null then cs else drop len cs)) [
      | none ↦ none
      | some fs ↦ some ((if null then none else some (take len cs)) ∷ fs)
    ]
decode_fields (suc n) _ = none

abbrev pub decode_row : List ℕ → Option (List (Option (List ℕ)))
decode_row (a ∷ b ∷ cs) = decode_fields (a * 256 + b) cs
decode_row _ = none

-- The results that are stored.
abbrev pub stored : List (Bool × Option (List ℕ)) → List (Option (List ℕ))
stored [] = []
stored ((b, r) ∷ rs) = if b then r ∷ stored rs else stored rs

abbrev pub Fits : Option (List ℕ) → Type 0
Fits none = Unit
Fits (some v) = length v < 2 ^ 32 - 1

pub Dereferenced-cases :
    (d : Dereferenced)
    → (d ≡ discarded)
      ⊎ ((d ≡ failed) ⊎ ((d ≡ crashed) ⊎ ((rs : List (Bool × Option (List ℕ))) × (d ≡ results rs))))
Dereferenced-cases discarded = inl refl
Dereferenced-cases failed = inr (inl refl)
Dereferenced-cases crashed = inr (inr (inl refl))
Dereferenced-cases (results rs) = inr (inr (inr (rs, refl)))
