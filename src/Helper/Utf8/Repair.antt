-- ===== src/Helper/Utf8/Repair.antt =====
-- What `sanitize_utf8` of src/utils/helper.c makes of a buffer.
use schaufel.Common.{
  ℕ, zero, suc, ◌-◌, ◌≤◌, ◌≡◌, ◌≢◌, refl, sym, ◌∙◌, ap, ◌⊎◌, ◌↔◌, inl, inr, Bool, true, false, ◌||◌,
  List, [], ◌∷◌, ◌++◌, length, length-append, take, drop, ◌==◌, if◌then◌else◌, arith, All,
  Bool-cases,
}
use schaufel.Helper.{
  Status, prepend, is_bad, advance, embedded_nul, clean, repaired, sanitize_from, sanitize_utf8,
}
use schaufel.Helper.Utf8.{encode, IsText, encode_all, encode_passes, sanitize_step}
use schaufel.Helper.Utf8.Decode.{IsByte, round-encode}

abbrev pub has_nul : List ℕ → Bool
has_nul [] = false
has_nul (c ∷ cs) = c == 0 || has_nul cs

take-drop : (n : ℕ) (cs : List ℕ) → take n cs ++ drop n cs ≡ cs
take-drop zero cs = refl
take-drop (suc n) [] = refl
take-drop (suc n) (c ∷ cs) = ap (λ l. c ∷ l) (take-drop n cs)

All-drop : (n : ℕ) (cs : List ℕ) → All IsByte cs → All IsByte (drop n cs)
All-drop zero cs h = h
All-drop (suc n) [] h = h
All-drop (suc n) (c ∷ cs) h = All-drop n cs h.1

length-drop : (n : ℕ) (cs : List ℕ) → length (drop n cs) ≤ length cs
length-drop zero cs = omega arith
length-drop (suc n) [] = omega arith
length-drop (suc n) (c ∷ cs) = omega (arith, length-drop n cs)

has_nul-drop : (n : ℕ) (cs : List ℕ) → has_nul cs ≡ false → has_nul (drop n cs) ≡ false
has_nul-drop zero cs h = h
has_nul-drop (suc n) [] h = h
has_nul-drop (suc n) (c ∷ cs) h = ground (arith, has_nul-drop n cs)

has_nul-append : (xs ys : List ℕ) → has_nul (xs ++ ys) ≡ (has_nul xs || has_nul ys)
has_nul-append [] ys = refl
has_nul-append (x ∷ xs) ys = ground (arith, has_nul-append xs ys)

has_nul-encode : (c : ℕ) → IsText c → has_nul (encode c) ≡ false
unfolding encode
has_nul-encode c t = ground arith

length-encode : (c : ℕ) → 1 ≤ length (encode c)
unfolding encode
length-encode c = ground arith

has_nul-drop-true :
    (a : ℕ) (n : ℕ) (cs : List ℕ) (b c : ℕ)
    → a ≢ 0
    → IsText c
    → b ∷ take n cs ≡ encode c
    → has_nul (a ∷ cs) ≡ true
    → has_nul (drop n cs) ≡ true
has_nul-drop-true a n cs b c nz t e h =
    let p : has_nul (b ∷ take n cs) ≡ false = ap has_nul e ∙ has_nul-encode c t in
    let q : has_nul (take n cs ++ drop n cs) ≡ (has_nul (take n cs) || has_nul (drop n cs)) =
      has_nul-append (take n cs) (drop n cs) in
    let r = rw (take-drop n cs) at q in ground arith

sanitize_from-encode :
    (fuel : ℕ) (dirty : Bool) (cs : List ℕ)
    → length (encode_all cs) ≤ fuel
    → All IsText cs
    → sanitize_from fuel dirty (encode_all cs)
      ≡ record { status = if dirty then repaired else clean; buf = encode_all cs }
unfolding sanitize_from
sanitize_from-encode fuel dirty [] le h = refl
sanitize_from-encode zero dirty (c ∷ cs) le h =
    absurd (omega (arith, length-append (encode c) (encode_all cs), length-encode c))
sanitize_from-encode (suc fuel) dirty (c ∷ cs) le h =
    let shorter : length (encode_all cs) ≤ fuel =
      omega (arith, length-append (encode c) (encode_all cs), length-encode c) in
    encode_passes fuel dirty c (encode_all cs) h.0
    ∙ ap (prepend (encode c)) (sanitize_from-encode fuel dirty cs shorter h.1)

sanitize_from-nul :
    (fuel : ℕ) (dirty : Bool) (buf : List ℕ)
    → length buf ≤ fuel
    → All IsByte buf
    → has_nul buf ≡ true
    → (sanitize_from fuel dirty buf).status ≡ embedded_nul
unfolding sanitize_from
sanitize_from-nul fuel dirty [] le bs h = cc
sanitize_from-nul zero dirty (a ∷ cs) le bs h = absurd (omega arith)
sanitize_from-nul (suc fuel) dirty (a ∷ cs) le bs h = elim (Bool-cases (a == 0)) [
  | inl z ↦ rw z refl
  | inr nz ↦
      let ne : a ≢ 0 = ground arith in
      let (c, t, e) = round-encode a cs ne bs.0 bs.1 in
      let n = advance a cs - 1 in
      let rest =
        sanitize_from-nul fuel (dirty || is_bad a cs) (drop n cs) (omega (arith, length-drop n cs))
          (All-drop n cs bs.1) (has_nul-drop-true a n cs _ c ne t e h) in
      ap (λ r. r.status) (sanitize_step fuel dirty a cs ne) ∙ rest
]

-- The two results of a buffer without NUL.
abbrev repaired_if : Bool → Status
repaired_if dirty = if dirty then repaired else clean

no_nul : (d : Bool) → repaired_if d ≡ embedded_nul → ⊥
no_nul true h = cc
no_nul false h = cc

good_head : (a : ℕ) (cs : List ℕ) → is_bad a cs ≡ false → (if is_bad a cs then 63 else a) ≡ a
good_head a cs e = rw e refl

or_eq_false : (a b : Bool) → (a || b) ≡ false → (a ≡ false) × (b ≡ false)
or_eq_false false b h = (refl, h)
or_eq_false true b h = cc

sanitize_from-IsText :
    (fuel : ℕ) (dirty : Bool) (buf : List ℕ)
    → length buf ≤ fuel
    → All IsByte buf
    → has_nul buf ≡ false
    → (cs : List ℕ) × (d : Bool) × All IsText cs
      × (sanitize_from fuel dirty buf ≡ record { status = repaired_if d; buf = encode_all cs })
      × (length (encode_all cs) ≡ length buf)
      × (d ≡ false → (dirty ≡ false) × (encode_all cs ≡ buf))
unfolding sanitize_from
sanitize_from-IsText fuel dirty [] le bs h = ([], dirty, tt, refl, refl, λ e. (e, refl))
sanitize_from-IsText zero dirty (a ∷ cs) le bs h = absurd (omega arith)
sanitize_from-IsText (suc fuel) dirty (a ∷ cs) le bs h =
    let ne : a ≢ 0 = ground arith in
    let n = advance a cs - 1 in
    let (c, t, e) = round-encode a cs ne bs.0 bs.1 in
    let (ks, d, ts, run, len, same) =
      sanitize_from-IsText fuel (dirty || is_bad a cs) (drop n cs) (omega (arith, length-drop n cs))
        (All-drop n cs bs.1) (has_nul-drop n cs (ground arith)) in
    (
      c ∷ ks,
      d,
      (t, ts),
      sanitize_step fuel dirty a cs ne
          ∙ (ap (prepend ((if is_bad a cs then 63 else a) ∷ take n cs)) run
              ∙ ap (λ l. record { status = repaired_if d; buf = l ++ encode_all ks }) e),
      omega (
        arith,
        length-append (encode c) (encode_all ks),
        ap length e,
        ap length (take-drop n cs),
        length-append (take n cs) (drop n cs),
        len,
      ),
      λ f.
          let (g, eq) = same f in
          let (g1, g2) = or_eq_false dirty (is_bad a cs) g in
          (
            g1,
            ap (λ l. l ++ encode_all ks) (sym e)
                ∙ (ap (λ l. l ∷ (take n cs ++ encode_all ks)) (good_head a cs g2)
                    ∙ (ap (λ l. a ∷ (take n cs ++ l)) eq ∙ ap (λ l. a ∷ l) (take-drop n cs))),
          ),
    )

-- `sanitize_utf8` returns 0 and changes nothing on a buffer that encodes scalar values other than
-- NUL.
pub sanitize_utf8-encode_all :
    (cs : List ℕ)
    → All IsText cs
    → sanitize_utf8 (encode_all cs) ≡ record { status = clean; buf = encode_all cs }
unfolding sanitize_utf8
sanitize_utf8-encode_all cs h = sanitize_from-encode _ false cs (omega arith) h

-- On a buffer of bytes without NUL, `sanitize_utf8` leaves as many bytes, and they encode scalar
-- values; it returns 0 or 1, and where it returns 0 they are the bytes that were given.
pub sanitize_utf8_repairs :
    (buf : List ℕ)
    → All IsByte buf
    → has_nul buf ≡ false
    → (cs : List ℕ) × All IsText cs
      × ((sanitize_utf8 buf).buf ≡ encode_all cs)
      × (length (sanitize_utf8 buf).buf ≡ length buf)
      × (((sanitize_utf8 buf).status ≡ repaired)
          ⊎ (((sanitize_utf8 buf).status ≡ clean) × ((sanitize_utf8 buf).buf ≡ buf)))
unfolding sanitize_utf8
sanitize_utf8_repairs buf bs h =
    let (cs, d, ts, run, len, same) = sanitize_from-IsText _ false buf (omega arith) bs h in
    (
      cs,
      ts,
      ap (λ r. r.buf) run,
      ap (λ r. length r.buf) run ∙ len,
      elim (Bool-cases d) [
        | inl e ↦ inl (ap (λ r. r.status) run ∙ ap repaired_if e)
        | inr e ↦ inr (ap (λ r. r.status) run ∙ ap repaired_if e, ap (λ r. r.buf) run ∙ (same e).1)
      ],
    )

-- `sanitize_utf8` returns -1 on a buffer of bytes exactly if a byte is NUL.
pub sanitize_utf8_nul :
    (buf : List ℕ)
    → All IsByte buf
    → ((sanitize_utf8 buf).status ≡ embedded_nul) ↔ (has_nul buf ≡ true)
unfolding sanitize_utf8
sanitize_utf8_nul buf bs = elim (Bool-cases (has_nul buf)) [
  | inl e ↦ ((λ _. e), λ _. sanitize_from-nul _ false buf (omega arith) bs e)
  | inr e ↦
      let (cs, d, ts, run, len, same) = sanitize_from-IsText _ false buf (omega arith) bs e in
      ((λ s. absurd (no_nul d (sym (ap (λ r. r.status) run) ∙ s))), λ f. cc)
]
