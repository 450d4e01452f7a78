-- ===== src/Exports/Produce/Wire.antt =====
-- What a connection sees of the data that src/exports.c and src/postgres.c send.
use schaufel.Common.{
  ℕ, ◌%◌, ◌^◌, ◌≡◌, refl, sym, ◌∙◌, ap, Bool, true, false, Option, none, some, List, [], ◌∷◌, ◌++◌,
  map, length,
}
use mathlib.Core.List.{append_assoc, append-nil}
use schaufel.JsonExport.{be32, encode_field, encode_results}
use schaufel.Postgres.{Sent, copy_in, copy_data, copy_end}
use schaufel.Exports.Produce.{field_data, fields_data}

-- A connection sees the bytes of the data, not how they are cut.
pub data Wire : Type 0 where
  begins ends : Wire
  byte : ℕ → Wire

abbrev pub wire : List Sent → List Wire
wire [] = []
wire (copy_in ∷ es) = begins ∷ wire es
wire (copy_data d ∷ es) = map byte d ++ wire es
wire (copy_end ∷ es) = ends ∷ wire es

pub wire-append : (es fs : List Sent) → wire (es ++ fs) ≡ wire es ++ wire fs
wire-append [] fs = refl
wire-append (copy_in ∷ es) fs = rw (wire-append es fs) refl
wire-append (copy_data d ∷ es) fs =
    ap (λ w. map byte d ++ w) (wire-append es fs)
    ∙ sym (append_assoc (map byte d) (wire es) (wire fs))
wire-append (copy_end ∷ es) fs = rw (wire-append es fs) refl

pub map-append : (xs ys : List ℕ) → map byte (xs ++ ys) ≡ map byte xs ++ map byte ys
map-append [] ys = refl
map-append (x ∷ xs) ys = rw (map-append xs ys) refl

wire-field : (r : Option (List ℕ)) → wire (field_data r) ≡ map byte (encode_field r)
wire-field none = refl
wire-field (some v) = ap (λ w. map byte (be32 (length v % 2 ^ 32)) ++ w) (append-nil (map byte v))

pub wire-fields :
    (rs : List (Bool × Option (List ℕ))) → wire (fields_data rs) ≡ map byte (encode_results rs)
wire-fields [] = refl
wire-fields ((true, r) ∷ rs) =
    wire-append (field_data r) (fields_data rs)
    ∙ (rw (wire-field r, wire-fields rs) (sym (map-append (encode_field r) (encode_results rs))))
wire-fields ((false, r) ∷ rs) = wire-fields rs
