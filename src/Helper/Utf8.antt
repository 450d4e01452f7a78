-- ===== src/Helper/Utf8.antt =====
-- `sanitize_utf8` of src/utils/helper.c against the UTF-8 encoding of Unicode scalar values.
pub mod Decode
pub mod Repair
use Prim.Native.Nat.{bit_and}
use schaufel.Common.{
  ℕ, zero, suc, ◌+◌, ◌-◌, ◌/◌, ◌*◌, ◌%◌, ◌<◌, ◌≤◌, ◌≡◌, ◌≢◌, refl, sym, ◌∙◌, ap, ◌⊎◌, inl, inr,
  Bool, true, false, not, ◌&&◌, ◌||◌, List, [], ◌∷◌, ◌++◌, length, length-append, take, drop, ltb,
  leb, ◌==◌, if◌then◌else◌, arith, All, Bool-cases, below_all, below_all_lem, drop-append,
  take-append,
}
use schaufel.Helper.{
  prepend, is_bad, is_continuation, Sanitized, running, embedded_nul, clean, repaired, seq_len,
  is_valid, advance, sanitize_from, sanitize_utf8,
}

-- The encoding of a scalar value.
unfoldable pub encode : ℕ → List ℕ
encode c =
    if ltb c 0x80
    then c ∷ []
    else if ltb c 0x800
    then (0xC0 + c / 64) ∷ (0x80 + c % 64) ∷ []
    else if ltb c 0x10000
    then (0xE0 + c / 4096) ∷ (0x80 + c / 64 % 64) ∷ (0x80 + c % 64) ∷ []
    else (0xF0 + c / 262144) ∷ (0x80 + c / 4096 % 64) ∷ (0x80 + c / 64 % 64) ∷ (0x80 + c % 64) ∷ []

-- A scalar value that text for the database may hold: no NUL, and no half of a surrogate pair.
abbrev pub IsText : ℕ → Type 0
IsText c = (0 < c) × (c < 0x110000) × ((c < 0xD800) ⊎ (0xE000 ≤ c))

abbrev pub encode_all : List ℕ → List ℕ
encode_all [] = []
encode_all (c ∷ cs) = encode c ++ encode_all cs

iff_bool : Bool → Bool → Bool
iff_bool true b = b
iff_bool false b = not b

iff_bool_lem : (a b : Bool) → iff_bool a b ≡ true → a ≡ b
unfolding iff_bool
iff_bool_lem true true h = refl
iff_bool_lem true false h = sym h
iff_bool_lem false true h = h
iff_bool_lem false false h = refl

-- The masks of the source are tests on the high bits.
lead_two : (c : ℕ) → c < 256 → (bit_and c 0xE0 == 0xC0) ≡ (c / 32 == 6)
unfolding below_all iff_bool
lead_two c lt =
    iff_bool_lem _ _
      (below_all_lem 256 (λ x. iff_bool (bit_and x 0xE0 == 0xC0) (x / 32 == 6)) c refl lt)

lead_three : (c : ℕ) → c < 256 → (bit_and c 0xF0 == 0xE0) ≡ (c / 16 == 14)
unfolding below_all iff_bool
lead_three c lt =
    iff_bool_lem _ _
      (below_all_lem 256 (λ x. iff_bool (bit_and x 0xF0 == 0xE0) (x / 16 == 14)) c refl lt)

lead_four : (c : ℕ) → c < 256 → (bit_and c 0xF8 == 0xF0) ≡ (c / 8 == 30)
unfolding below_all iff_bool
lead_four c lt =
    iff_bool_lem _ _
      (below_all_lem 256 (λ x. iff_bool (bit_and x 0xF8 == 0xF0) (x / 8 == 30)) c refl lt)

pub continuation : (c : ℕ) → c < 256 → is_continuation c ≡ (c / 64 == 2)
unfolding below_all iff_bool is_continuation
continuation c lt =
    iff_bool_lem _ _
      (below_all_lem 256 (λ x. iff_bool (bit_and x 0xC0 == 0x80) (x / 64 == 2)) c refl lt)

pub seq_len_lem :
    (c : ℕ)
    → c < 256
    → seq_len c
      ≡ (if c / 32 == 6 then 2 else if c / 16 == 14 then 3 else if c / 8 == 30 then 4 else 0)
unfolding seq_len
seq_len_lem c lt = rw (lead_two c lt, lead_three c lt, lead_four c lt) refl

or_false : (b : Bool) → (b || false) ≡ b
or_false true = refl
or_false false = refl

ne_false : (c : ℕ) → c ≢ 0 → (c == 0) ≡ false
ne_false c h = ground arith

-- One round of the loop, and one on a sequence that it accepts.
pub sanitize_step :
    (fuel : ℕ) (dirty : Bool) (c0 : ℕ) (cs : List ℕ)
    → c0 ≢ 0
    → sanitize_from (suc fuel) dirty (c0 ∷ cs)
      ≡ prepend
          ((if is_bad c0 cs then 63 else c0) ∷ take (advance c0 cs - 1) cs)
          (sanitize_from fuel (dirty || is_bad c0 cs) (drop (advance c0 cs - 1) cs))
unfolding sanitize_from
sanitize_step fuel dirty c0 cs nz = rw (ne_false c0 nz) refl

sanitize_pass :
    (fuel : ℕ) (dirty : Bool) (c0 : ℕ) (cs rest : List ℕ)
    → c0 ≢ 0
    → advance c0 (cs ++ rest) - 1 ≡ length cs
    → is_bad c0 (cs ++ rest) ≡ false
    → sanitize_from (suc fuel) dirty (c0 ∷ (cs ++ rest))
      ≡ prepend (c0 ∷ cs) (sanitize_from fuel dirty rest)
sanitize_pass fuel dirty c0 cs rest nz adv good =
    sanitize_step fuel dirty c0 (cs ++ rest) nz
    ∙ rw (adv, good, drop-append cs rest, take-append cs rest, or_false dirty) refl

two_passes :
    (fuel : ℕ) (dirty : Bool) (a b : ℕ) (rest : List ℕ)
    → 0xC2 ≤ a
    → a < 0xE0
    → 0x80 ≤ b
    → b < 0xC0
    → sanitize_from (suc fuel) dirty (a ∷ b ∷ rest)
      ≡ prepend (a ∷ b ∷ []) (sanitize_from fuel dirty rest)
two_passes fuel dirty a b rest la ua lb ub =
    let n : seq_len a ≡ 2 = seq_len_lem a (omega arith) ∙ ground arith in
    let v : is_continuation b ≡ true = continuation b (omega arith) ∙ ground arith in
    sanitize_pass fuel dirty a (b ∷ []) rest (omega arith) (rw (n, v) (ground arith))
      (rw (n, v) (ground arith))

three_passes :
    (fuel : ℕ) (dirty : Bool) (a b c : ℕ) (rest : List ℕ)
    → 0xE0 ≤ a
    → a < 0xF0
    → 0x80 ≤ b
    → b < 0xC0
    → 0x80 ≤ c
    → c < 0xC0
    → (a ≡ 0xE0 → 0xA0 ≤ b)
    → (a ≡ 0xED → b < 0xA0)
    → sanitize_from (suc fuel) dirty (a ∷ b ∷ c ∷ rest)
      ≡ prepend (a ∷ b ∷ c ∷ []) (sanitize_from fuel dirty rest)
three_passes fuel dirty a b c rest la ua lb ub lc uc short half =
    let n : seq_len a ≡ 3 = seq_len_lem a (omega arith) ∙ ground arith in
    let v : is_continuation b ≡ true = continuation b (omega arith) ∙ ground arith in
    let w : is_continuation c ≡ true = continuation c (omega arith) ∙ ground arith in
    sanitize_pass fuel dirty a (b ∷ c ∷ []) rest (omega arith) (rw (n, v, w) (ground arith))
      (rw (n, v, w) (ground arith))

four_passes :
    (fuel : ℕ) (dirty : Bool) (a b c d : ℕ) (rest : List ℕ)
    → 0xF0 ≤ a
    → a < 0xF5
    → 0x80 ≤ b
    → b < 0xC0
    → 0x80 ≤ c
    → c < 0xC0
    → 0x80 ≤ d
    → d < 0xC0
    → (a ≡ 0xF0 → 0x90 ≤ b)
    → (a ≡ 0xF4 → b < 0x90)
    → sanitize_from (suc fuel) dirty (a ∷ b ∷ c ∷ d ∷ rest)
      ≡ prepend (a ∷ b ∷ c ∷ d ∷ []) (sanitize_from fuel dirty rest)
four_passes fuel dirty a b c d rest la ua lb ub lc uc ld ud short beyond =
    let n : seq_len a ≡ 4 = seq_len_lem a (omega arith) ∙ ground arith in
    let v : is_continuation b ≡ true = continuation b (omega arith) ∙ ground arith in
    let w : is_continuation c ≡ true = continuation c (omega arith) ∙ ground arith in
    let x : is_continuation d ≡ true = continuation d (omega arith) ∙ ground arith in
    sanitize_pass fuel dirty a (b ∷ c ∷ d ∷ []) rest (omega arith) (rw (n, v, w, x) (ground arith))
      (rw (n, v, w, x) (ground arith))

pub encode_passes :
    (fuel : ℕ) (dirty : Bool) (c : ℕ) (rest : List ℕ)
    → IsText c
    → sanitize_from (suc fuel) dirty (encode c ++ rest)
      ≡ prepend (encode c) (sanitize_from fuel dirty rest)
unfolding encode
encode_passes fuel dirty c rest (pos, bound, half) = elim (Bool-cases (ltb c 0x80)) [
  | inl a ↦ rw a (sanitize_pass fuel dirty c [] rest (ground arith) (rw a refl) (rw a refl))
  | inr a ↦ elim (Bool-cases (ltb c 0x800)) [
    | inl b ↦
        rw (a, b)
          (two_passes fuel dirty _ _ rest (ground arith) (ground arith) (ground arith)
            (ground arith))
    | inr b ↦ elim (Bool-cases (ltb c 0x10000)) [
      | inl d ↦
          rw (a, b, d)
            (three_passes fuel dirty _ _ _ rest (ground arith) (ground arith) (ground arith)
              (ground arith) (ground arith) (ground arith) (ground arith) (ground arith))
      | inr d ↦
          rw (a, b, d)
            (four_passes fuel dirty _ _ _ _ rest (ground arith) (ground arith) (ground arith)
              (ground arith) (ground arith) (ground arith) (ground arith) (ground arith)
              (ground arith) (ground arith))
    ]
  ]
]
