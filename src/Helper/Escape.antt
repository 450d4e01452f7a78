-- ===== src/Helper/Escape.antt =====
-- What `repair_null_escape` of src/utils/helper.c leaves of a string.
use schaufel.Common.{
  ℕ, zero, suc, ◌≡◌, ◌≢◌, refl, ◌∙◌, ap, Bool, true, false, ◌||◌, List, [], ◌∷◌, length, ◌==◌,
  if◌then◌else◌, arith, All, Bool-cases, inl, inr,
}
use schaufel.Helper.{null_escape, starts_with, repair_from, repair_null_escape}

-- The escape stands somewhere in the string, which a NUL ends.
abbrev pub has_escape : List ℕ → Bool
has_escape [] = false
has_escape (c ∷ cs) =
    let rest = has_escape cs in if c == 0 then false else starts_with null_escape (c ∷ cs) || rest

-- A prefix of the result without '?' is a prefix of what was given.
prefix_stays :
    (p : List ℕ) (skip : ℕ) (cs : List ℕ)
    → All (λ a. a ≢ 63) p
    → starts_with p (repair_from skip cs) ≡ true
    → starts_with p cs ≡ true
unfolding repair_from
prefix_stays [] skip cs h e = refl
prefix_stays (a ∷ p) skip [] h e = e
prefix_stays (a ∷ p) (suc skip) (c ∷ cs) h e = ground (arith, h.0)
prefix_stays (a ∷ p) zero (c ∷ cs) h e = elim (Bool-cases (c == 0)) [
  | inl z ↦ rw z at e
  | inr nz ↦ elim (Bool-cases (starts_with null_escape (c ∷ cs))) [
    | inl f ↦ let g = rw (nz, f) at e in ground (arith, h.0)
    | inr f ↦ let g = rw (nz, f) at e in let k = prefix_stays p 0 cs h.1 in ground arith
  ]
]

repair_from-length : (skip : ℕ) (cs : List ℕ) → length (repair_from skip cs) ≡ length cs
unfolding repair_from
repair_from-length skip [] = refl
repair_from-length (suc skip) (c ∷ cs) = omega (arith, repair_from-length skip cs)
repair_from-length zero (c ∷ cs) = elim (Bool-cases (c == 0)) [
  | inl z ↦ rw z refl
  | inr nz ↦
      rw nz
        (omega (arith, repair_from-length (if starts_with null_escape (c ∷ cs) then 5 else 0) cs))
]

repair_from-escape : (skip : ℕ) (cs : List ℕ) → has_escape (repair_from skip cs) ≡ false
unfolding repair_from
repair_from-escape skip [] = refl
repair_from-escape (suc skip) (c ∷ cs) = repair_from-escape skip cs
repair_from-escape zero (c ∷ cs) = elim (Bool-cases (c == 0)) [
  | inl z ↦ rw z (rw z refl)
  | inr nz ↦ elim (Bool-cases (starts_with null_escape (c ∷ cs))) [
    | inl f ↦ rw (nz, f) (repair_from-escape 5 cs)
    | inr f ↦
        let clear : starts_with null_escape (c ∷ repair_from 0 cs) ≡ false =
          elim (Bool-cases (starts_with null_escape (c ∷ repair_from 0 cs))) [
            | inr g ↦ g
            | inl g ↦
                let same : repair_from 0 (c ∷ cs) ≡ c ∷ repair_from 0 cs = rw (nz, f) refl in
                let k =
                  prefix_stays null_escape 0 (c ∷ cs)
                    (
                      omega arith,
                      (omega arith, (omega arith, (omega arith, (omega arith, (omega arith, tt))))),
                    )
                    (ap (starts_with null_escape) same ∙ g) in
                cc (f, k)
          ] in
        rw (nz, f) (rw (nz, clear) (repair_from-escape 0 cs))
  ]
]

-- `repair_null_escape` leaves no \u0000 in the string, and as many bytes.
pub repair_null_escape_lem :
    (buf : List ℕ)
    → (has_escape (repair_null_escape buf) ≡ false) × (length (repair_null_escape buf) ≡ length buf)
repair_null_escape_lem buf = (repair_from-escape 0 buf, repair_from-length 0 buf)
