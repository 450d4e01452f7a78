-- ===== src/Helper/Utf8/Decode.antt =====
-- The scalar value of a sequence that `sanitize_utf8` of src/utils/helper.c accepts.
use schaufel.Common.{
  ℕ, ◌+◌, ◌-◌, ◌/◌, ◌*◌, ◌<◌, ◌≤◌, ◌≡◌, ◌≢◌, refl, ◌∙◌, inl, inr, true, false, List, [], ◌∷◌, take,
  ltb, ◌==◌, if◌then◌else◌, arith, All, Bool-cases, ==_iff,
}
use schaufel.Helper.{seq_len, is_valid, advance, is_bad, valid_two, valid_three, valid_four}
use schaufel.Helper.Utf8.{encode, IsText, continuation, seq_len_lem}

abbrev pub IsByte : ℕ → Type 0
IsByte c = c < 256

-- Equal bytes make equal sequences.
two_eq : {a b c d : ℕ} → a ≡ c → b ≡ d → ◌≡◌ {A = List ℕ} (a ∷ b ∷ []) (c ∷ d ∷ [])
two_eq p q = rw (p, q) refl

three_eq :
    {a b c d e f : ℕ} → a ≡ d → b ≡ e → c ≡ f → ◌≡◌ {A = List ℕ} (a ∷ b ∷ c ∷ []) (d ∷ e ∷ f ∷ [])
three_eq p q r = rw (p, q, r) refl

four_eq :
    {a b c d e f g h : ℕ}
    → a ≡ e
    → b ≡ f
    → c ≡ g
    → d ≡ h
    → ◌≡◌ {A = List ℕ} (a ∷ b ∷ c ∷ d ∷ []) (e ∷ f ∷ g ∷ h ∷ [])
four_eq p q r s = rw (p, q, r, s) refl

decode_two :
    (a b : ℕ)
    → 0xC2 ≤ a
    → a < 0xE0
    → 0x80 ≤ b
    → b < 0xC0
    → (c : ℕ) × IsText c × (a ∷ b ∷ [] ≡ encode c)
unfolding encode
decode_two a b la ua lb ub =
    let c = (a - 0xC0) * 64 + (b - 0x80) in
    let lo : ltb c 0x80 ≡ false = ground arith in
    let hi : ltb c 0x800 ≡ true = ground arith in
    (c, omega arith, rw (lo, hi) (two_eq (omega arith) (omega arith)))

decode_three :
    (a b d : ℕ)
    → 0xE0 ≤ a
    → a < 0xF0
    → 0x80 ≤ b
    → b < 0xC0
    → 0x80 ≤ d
    → d < 0xC0
    → (a ≡ 0xE0 → 0xA0 ≤ b)
    → (a ≡ 0xED → b < 0xA0)
    → (c : ℕ) × IsText c × (a ∷ b ∷ d ∷ [] ≡ encode c)
unfolding encode
decode_three a b d la ua lb ub ld ud short half =
    let c = (a - 0xE0) * 4096 + (b - 0x80) * 64 + (d - 0x80) in
    let x : ltb c 0x80 ≡ false = ground arith in
    let y : ltb c 0x800 ≡ false = ground arith in
    let z : ltb c 0x10000 ≡ true = ground arith in
    (
      c,
      (ground arith, ground arith, ground arith),
      rw (x, y, z) (three_eq (omega arith) (omega arith) (omega arith)),
    )

decode_four :
    (a b d e : ℕ)
    → 0xF0 ≤ a
    → a < 0xF5
    → 0x80 ≤ b
    → b < 0xC0
    → 0x80 ≤ d
    → d < 0xC0
    → 0x80 ≤ e
    → e < 0xC0
    → (a ≡ 0xF0 → 0x90 ≤ b)
    → (a ≡ 0xF4 → b < 0x90)
    → (c : ℕ) × IsText c × (a ∷ b ∷ d ∷ e ∷ [] ≡ encode c)
unfolding encode
decode_four a b d e la ua lb ub ld ud le ue short beyond =
    let c = (a - 0xF0) * 262144 + (b - 0x80) * 4096 + (d - 0x80) * 64 + (e - 0x80) in
    let x : ltb c 0x80 ≡ false = ground arith in
    let y : ltb c 0x800 ≡ false = ground arith in
    let z : ltb c 0x10000 ≡ false = ground arith in
    (
      c,
      (ground arith, ground arith, ground arith),
      rw (x, y, z) (four_eq (omega arith) (omega arith) (omega arith) (omega arith)),
    )

lead_of :
    (a : ℕ)
    → IsByte a
    → (seq_len a ≡ 2 → a / 32 ≡ 6) × (seq_len a ≡ 3 → a / 16 ≡ 14) × (seq_len a ≡ 4 → a / 8 ≡ 30)
lead_of a lt = rw (seq_len_lem a lt) (ground arith)

valid_two-encode :
    (a : ℕ) (cs : List ℕ)
    → a / 32 ≡ 6
    → All IsByte cs
    → valid_two a cs ≡ true
    → (c : ℕ) × IsText c × (a ∷ take 1 cs ≡ encode c)
valid_two-encode a [] s bs v = cc
valid_two-encode a (b ∷ cs) s (bb, bs) v =
    let w = rw (continuation b bb) at v in
    decode_two a b (ground arith) (ground arith) (ground arith) (ground arith)

valid_three-encode :
    (a : ℕ) (cs : List ℕ)
    → a / 16 ≡ 14
    → All IsByte cs
    → valid_three a cs ≡ true
    → (c : ℕ) × IsText c × (a ∷ take 2 cs ≡ encode c)
valid_three-encode a [] s bs v = cc
valid_three-encode a (b ∷ []) s bs v = cc
valid_three-encode a (b ∷ d ∷ cs) s (bb, (bd, bs)) v =
    let w = rw (continuation b bb, continuation d bd) at v in
    decode_three a b d (ground arith) (ground arith) (ground arith) (ground arith) (ground arith)
      (ground arith) (ground arith) (ground arith)

valid_four-encode :
    (a : ℕ) (cs : List ℕ)
    → a / 8 ≡ 30
    → All IsByte cs
    → valid_four a cs ≡ true
    → (c : ℕ) × IsText c × (a ∷ take 3 cs ≡ encode c)
valid_four-encode a [] s bs v = cc
valid_four-encode a (b ∷ []) s bs v = cc
valid_four-encode a (b ∷ d ∷ []) s bs v = cc
valid_four-encode a (b ∷ d ∷ e ∷ cs) s (bb, (bd, (be, bs))) v =
    let w = rw (continuation b bb, continuation d bd, continuation e be) at v in
    decode_four a b d e (ground arith) (ground arith) (ground arith) (ground arith) (ground arith)
      (ground arith) (ground arith) (ground arith) (ground arith) (ground arith)

-- A sequence that `valid` accepts.
valid-encode :
    (n a : ℕ) (cs : List ℕ)
    → seq_len a ≡ n
    → IsByte a
    → All IsByte cs
    → is_valid n a cs ≡ true
    → (c : ℕ) × IsText c × (a ∷ take (n - 1) cs ≡ encode c)
valid-encode n a cs s lt bs v = elim (Bool-cases (n == 2)) [
  | inl p ↦
      let n2 : n ≡ 2 = (==_iff n 2).0 p in
      rw n2 (valid_two-encode a cs ((lead_of a lt).0 (s ∙ n2)) bs (rw p at v))
  | inr p ↦ elim (Bool-cases (n == 3)) [
    | inl q ↦
        let n3 : n ≡ 3 = (==_iff n 3).0 q in
        rw n3 (valid_three-encode a cs ((lead_of a lt).1 (s ∙ n3)) bs (rw (p, q) at v))
    | inr q ↦ elim (Bool-cases (n == 4)) [
      | inl r ↦
          let n4 : n ≡ 4 = (==_iff n 4).0 r in
          rw n4 (valid_four-encode a cs ((lead_of a lt).2 (s ∙ n4)) bs (rw (p, q, r) at v))
      | inr r ↦ let w = rw (p, q, r) at v in cc
    ]
  ]
]

-- What one round of the loop writes is the encoding of a scalar value: of '?', if it replaces.
pub round-encode :
    (a : ℕ) (cs : List ℕ)
    → a ≢ 0
    → IsByte a
    → All IsByte cs
    → (c : ℕ) × IsText c × ((if is_bad a cs then 63 else a) ∷ take (advance a cs - 1) cs ≡ encode c)
unfolding encode
round-encode a cs nz lt bs = elim (Bool-cases (ltb a 0x80)) [
  | inl l ↦ rw l (a, (ground arith, ground arith, ground arith), rw l refl)
  | inr l ↦ elim (Bool-cases (is_valid (seq_len a) a cs)) [
    | inl v ↦ rw (l, v) (valid-encode (seq_len a) a cs refl lt bs v)
    | inr v ↦ rw (l, v) (63, (omega arith, omega arith, ground arith), refl)
  ]
]
