-- ===== src/Helper/Tests.antt =====
-- Runs of src/utils/helper.c on concrete buffers.
use schaufel.Common.{ℕ, ◌≡◌, refl, ◌⊎◌, List, [], ◌∷◌, length, arith, All}
use schaufel.Helper.{clean, repaired, sanitize_utf8, sanitize_from, seq_len, is_continuation}
use schaufel.Helper.Utf8.{encode, encode_all, IsText}
use schaufel.Helper.Utf8.Repair.{sanitize_utf8-encode_all, sanitize_utf8_repairs}

-- "a", U+00E9, U+20AC, U+1F600
abbrev text : List ℕ
text = 97 ∷ 0xE9 ∷ 0x20AC ∷ 0x1F600 ∷ []

-- "a", an overlong "/", and "b"
abbrev broken : List ℕ
broken = 97 ∷ 0xC0 ∷ 0xAF ∷ 98 ∷ []

sanitize_broken : sanitize_utf8 broken ≡ record { status = repaired; buf = 97 ∷ 63 ∷ 63 ∷ 98 ∷ [] }
unfolding sanitize_utf8 sanitize_from seq_len is_continuation
sanitize_broken = refl

sanitize_utf8-encode_all_example :
    sanitize_utf8 (97 ∷ 0xC3 ∷ 0xA9 ∷ 0xE2 ∷ 0x82 ∷ 0xAC ∷ 0xF0 ∷ 0x9F ∷ 0x98 ∷ 0x80 ∷ [])
    ≡ record {
      status = clean;
      buf = 97 ∷ 0xC3 ∷ 0xA9 ∷ 0xE2 ∷ 0x82 ∷ 0xAC ∷ 0xF0 ∷ 0x9F ∷ 0x98 ∷ 0x80 ∷ [];
    }
unfolding encode
sanitize_utf8-encode_all_example = sanitize_utf8-encode_all text (
  (omega arith, omega arith, omega arith),
  (
    (omega arith, omega arith, omega arith),
    ((omega arith, omega arith, omega arith), ((omega arith, omega arith, omega arith), tt)),
  ),
)

sanitize_utf8_repairs_example :
    (cs : List ℕ) × All IsText cs
    × ((sanitize_utf8 broken).buf ≡ encode_all cs)
    × (length (sanitize_utf8 broken).buf ≡ 4)
    × (((sanitize_utf8 broken).status ≡ repaired)
        ⊎ (((sanitize_utf8 broken).status ≡ clean) × ((sanitize_utf8 broken).buf ≡ broken)))
sanitize_utf8_repairs_example =
    sanitize_utf8_repairs broken (omega arith, (omega arith, (omega arith, (omega arith, tt)))) refl
