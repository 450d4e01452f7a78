-- ===== src/Timestamp/Calendar.antt =====
-- The Gregorian calendar, and that the day arithmetic of src/hooks/jsonexport.c follows it.
use schaufel.Common.{
  ℕ, zero, suc, ◌+◌, ◌-◌, ◌*◌, ◌%◌, ◌<◌, ◌≤◌, ◌≡◌, refl, ◌∙◌, ap, Bool, true, false, List, [], ◌∷◌,
  ◌==◌, ltb, ==_iff, if◌then◌else◌, arith, below_all, below_all_lem,
}
use schaufel.Timestamp.{is_leap, leapyear_from, leapyear, at, month_days, months_days}

-- A leap year of the Gregorian calendar.
abbrev pub is_leap_year : ℕ → Bool
is_leap_year y = if y % 400 == 0 then true else if y % 100 == 0 then false else y % 4 == 0

abbrev pub month_lengths : Bool → List ℕ
month_lengths leap =
    31 ∷ (if leap then 29 else 28) ∷ 31 ∷ 30 ∷ 31 ∷ 30 ∷ 31 ∷ 31 ∷ 30 ∷ 31 ∷ 30 ∷ 31 ∷ []

abbrev pub month_length : Bool → ℕ → ℕ
month_length leap m = at (month_lengths leap) (m - 1)

-- The days of the `n` years from 2000 on, and of the first `n` months of a year.
abbrev pub years_length : ℕ → ℕ
years_length zero = 0
years_length (suc n) = years_length n + (if is_leap_year (2000 + n) then 366 else 365)

abbrev pub months_length : Bool → ℕ → ℕ
months_length leap zero = 0
months_length leap (suc n) = months_length leap n + month_length leap (suc n)

pub is_leap_lem : (y : ℕ) → is_leap y ≡ is_leap_year (2000 + y)
is_leap_lem y = ground arith

abbrev leaps : ℕ → ℕ
leaps zero = 0
leaps (suc n) = if is_leap n then leaps n + 1 else leaps n

at-leapyear_from : (n i j : ℕ) → j < n → at (leapyear_from n i (leaps i)) j ≡ leaps (suc (i + j))
unfolding leapyear_from
at-leapyear_from zero i j lt = absurd (omega arith)
at-leapyear_from (suc n) i zero lt = ap (λ k. leaps (suc k)) {x = i} {y = i + 0} (omega arith)
at-leapyear_from (suc n) i (suc j) lt =
    at-leapyear_from n (suc i) j (omega arith)
    ∙ ap (λ k. leaps (suc k)) {x = suc i + j} {y = i + suc j} (omega arith)

leaps_years : (n : ℕ) → years_length n ≡ n * 365 + leaps n
leaps_years zero = refl
leaps_years (suc n) = ground (arith, leaps_years n, is_leap_lem n)

at-leapyear : (y : ℕ) → y ≤ 2047 → at leapyear y ≡ leaps y
unfolding leapyear
at-leapyear zero lt = refl
at-leapyear (suc y) lt =
    at-leapyear_from 2047 0 y (omega arith) ∙ ap leaps {x = suc (0 + y)} {y = suc y} (omega arith)

-- The table of `_leapyear` and 365 days for each year are the days of the years before.
pub leapyear_lem : (y : ℕ) → y ≤ 2047 → at leapyear y + y * 365 ≡ years_length y
leapyear_lem y lt = omega (arith, at-leapyear y lt, leaps_years y)

-- The arithmetic of the loop, for a year that is or is not a leap year.
abbrev month_rule : Bool → ℕ → ℕ
month_rule leap i =
    if i == 2 then if leap then 29 else 28 else if ltb i 8 then 30 + i % 2 else 30 + (i + 1) % 2

month_rule_lem :
    (leap : Bool) (n : ℕ) → n < 12 → month_rule leap (suc n) ≡ month_length leap (suc n)
unfolding below_all
month_rule_lem true n lt =
    (==_iff _ _).0
      (below_all_lem 12 (λ n. month_rule true (suc n) == month_length true (suc n)) n refl lt)
month_rule_lem false n lt =
    (==_iff _ _).0
      (below_all_lem 12 (λ n. month_rule false (suc n) == month_length false (suc n)) n refl lt)

-- The loop over the months is the calendar's.
pub months_days_lem :
    (y n : ℕ) → n ≤ 12 → months_days y n ≡ months_length (is_leap_year (2000 + y)) n
unfolding months_days
months_days_lem y zero le = refl
months_days_lem y (suc n) le =
    let rule : month_days y (suc n) ≡ month_length (is_leap_year (2000 + y)) (suc n) =
      month_rule_lem (is_leap y) n (omega arith)
      ∙ ap (λ b. month_length b (suc n)) (is_leap_lem y) in
    omega (arith, rule, months_days_lem y n (omega arith))
