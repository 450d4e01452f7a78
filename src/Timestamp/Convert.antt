-- ===== src/Timestamp/Convert.antt =====
-- `_json_to_pqtimestamp` of src/hooks/jsonexport.c against the calendar.
use schaufel.Common.{
  ℕ, zero, suc, ◌+◌, ◌-◌, ◌*◌, ◌/◌, ◌%◌, ◌^◌, ◌<◌, ◌≤◌, ◌≡◌, refl, ◌∙◌, ap, Bool, not, ◌&&◌, ==_iff,
  true, false, Option, some, List, [], ◌∷◌, ◌++◌, ◌==◌, ltb, leb, arith, Bool-cases, inl, inr, All,
}
use schaufel.Timestamp.{
  Fields, strtoul, uint32, read_fields, in_range, has_layout, fraction, epoch, json_to_pqtimestamp,
  leapyear, at, months_days,
}
use schaufel.Timestamp.Calendar.{
  is_leap_year, month_length, month_lengths, years_length, months_length, leapyear_lem,
  months_days_lem,
}
use schaufel.Timestamp.Digits.{chars, ends_number, strtoul-chars}

abbrev pub two : ℕ → List ℕ
two n = chars (n / 10 ∷ n % 10 ∷ [])

abbrev pub four : ℕ → List ℕ
four n = chars (n / 1000 ∷ n / 100 % 10 ∷ n / 10 % 10 ∷ n % 10 ∷ [])

abbrev pub six : ℕ → List ℕ
six n =
    chars (n / 100000 ∷ n / 10000 % 10 ∷ n / 1000 % 10 ∷ n / 100 % 10 ∷ n / 10 % 10 ∷ n % 10 ∷ [])

-- "2019-11-05T11:31:34.000000Z"
abbrev pub print : Fields → List ℕ
print f =
    four f.year
    ++ (45
        ∷ (two f.month
            ++ (45
                ∷ (two f.day
                    ++ (84
                        ∷ (two f.hour
                            ++ (58
                                ∷ (two f.minute
                                    ++ (58
                                        ∷ (two f.second
                                            ++ (46 ∷ (six f.micro ++ (90 ∷ [])))))))))))))

-- A date of the calendar from 2000 to 4027 and a time of day, where second 60 is a leap second.
pub record IsDate (f : Fields) : Type 0 where
  pub year_from : 2000 ≤ f.year
  pub year_to : f.year ≤ 4027
  pub month_from : 1 ≤ f.month
  pub month_to : f.month ≤ 12
  pub day_from : 1 ≤ f.day
  pub day_to : f.day ≤ month_length (is_leap_year f.year) f.month
  pub hour_to : f.hour ≤ 23
  pub minute_to : f.minute ≤ 59
  pub second_to : f.second ≤ 60
  pub micro_to : f.micro < 1000000

-- The seconds since the start of 2000.
abbrev pub seconds_of : Fields → ℕ
seconds_of f =
    (years_length (f.year - 2000) + months_length (is_leap_year f.year) (f.month - 1) + (f.day - 1))
      * 86400
    + f.hour * 3600
    + f.minute * 60
    + f.second

some_eq : {a b : ℕ} → a ≡ b → ◌≡◌ {A = Option ℕ} (some a) (some b)
some_eq h = ap some h

uint32-two :
    (n : ℕ) (rest : List ℕ)
    → n < 100
    → ends_number rest ≡ true
    → uint32 (strtoul (two n ++ rest)) ≡ some n
uint32-two n rest lt e =
    ap uint32
      (strtoul-chars (n / 10) (n % 10 ∷ []) rest (omega arith, (omega arith, tt)) e (omega arith))
    ∙ some_eq (omega arith)

uint32-four :
    (n : ℕ) (rest : List ℕ)
    → n < 10000
    → ends_number rest ≡ true
    → uint32 (strtoul (four n ++ rest)) ≡ some n
uint32-four n rest lt e =
    ap uint32 (
      strtoul-chars (n / 1000) (n / 100 % 10 ∷ n / 10 % 10 ∷ n % 10 ∷ []) rest
        (omega arith, (omega arith, (omega arith, (omega arith, tt)))) e (omega arith))
    ∙ some_eq (omega arith)

strtoul-six : (n : ℕ) → n < 1000000 → strtoul (six n) ≡ some n
strtoul-six n lt =
    strtoul-chars (n / 100000)
      (n / 10000 % 10 ∷ n / 1000 % 10 ∷ n / 100 % 10 ∷ n / 10 % 10 ∷ n % 10 ∷ []) []
      (omega arith, (omega arith, (omega arith, (omega arith, (omega arith, (omega arith, tt))))))
      refl (omega arith)
    ∙ some_eq (omega arith)

at_bound : (l : List ℕ) (i : ℕ) → All (λ x. x ≤ 31) l → at l i ≤ 31
at_bound [] i h = omega arith
at_bound (x ∷ l) zero h = h.0
at_bound (x ∷ l) (suc i) h = at_bound l i h.1

month_length_bound : (leap : Bool) (m : ℕ) → month_length leap m ≤ 31
month_length_bound leap m = at_bound (month_lengths leap) (m - 1) (
  omega arith,
  (
    ground arith,
    (
      omega arith,
      (
        omega arith,
        (
          omega arith,
          (
            omega arith,
            (
              omega arith,
              (omega arith, (omega arith, (omega arith, (omega arith, (omega arith, tt))))),
            ),
          ),
        ),
      ),
    ),
  ),
)

has_layout-print : (f : Fields) → has_layout (print f) ≡ true
unfolding has_layout
has_layout-print f = refl

digit_not_Z : (d : ℕ) → d < 10 → ((48 + d) == 90) ≡ false
digit_not_Z d lt = ground arith

read_fields-print : (f : Fields) → IsDate f → read_fields (print f) ≡ some f
unfolding read_fields fraction
read_fields-print f d =
    let day : f.day ≤ 31 =
      omega (arith, d.day_to, month_length_bound (is_leap_year f.year) f.month) in
    rw
      (
        uint32-four f.year _ (omega (arith, d.year_to)) refl,
        uint32-two f.month _ (omega (arith, d.month_to)) refl,
        uint32-two f.day _ (omega arith) refl,
        uint32-two f.hour _ (omega (arith, d.hour_to)) refl,
        uint32-two f.minute _ (omega (arith, d.minute_to)) refl,
        uint32-two f.second _ (omega (arith, d.second_to)) refl,
        strtoul-six f.micro d.micro_to,
      )
      (rw (digit_not_Z (f.micro / 100000) (omega (arith, d.micro_to))) refl)

leb-eq_true : {a b : ℕ} → a ≤ b → leb a b ≡ true
leb-eq_true h = ground arith

february_bound : (leap : Bool) → month_length leap 2 ≤ 29
february_bound true = omega arith
february_bound false = omega arith

february :
    (f : Fields) (leap : Bool)
    → f.day ≤ month_length leap f.month
    → not (f.month == 2 && ltb 29 f.day) ≡ true
february f leap h = elim (Bool-cases (f.month == 2)) [
  | inl e ↦
      let m : f.month ≡ 2 = (==_iff f.month 2).0 e in
      let k = rw m at h in
      let bound : f.day ≤ 29 = omega (arith, k, february_bound leap) in ground arith
  | inr e ↦ rw e refl
]

in_range_lem : (f : Fields) → IsDate f → in_range f ≡ true
unfolding in_range
in_range_lem f d =
    let day : f.day ≤ 31 =
      omega (arith, d.day_to, month_length_bound (is_leap_year f.year) f.month) in
    let feb = february f (is_leap_year f.year) d.day_to in
    let a = leb-eq_true d.year_from in
    let b = leb-eq_true d.year_to in
    let c = leb-eq_true d.month_from in
    let e = leb-eq_true d.month_to in
    let g = leb-eq_true day in
    let h = leb-eq_true d.hour_to in
    let i = leb-eq_true d.minute_to in
    let j = leb-eq_true d.second_to in rw (a, b, c, e, g, h, i, j) feb

months_length_bound : (leap : Bool) (n : ℕ) → months_length leap n ≤ n * 31
months_length_bound leap zero = omega arith
months_length_bound leap (suc n) =
    omega (arith, months_length_bound leap n, month_length_bound leap (suc n))

epoch_lem : (f : Fields) → IsDate f → epoch leapyear f ≡ seconds_of f % 2 ^ 32 * 1000000 + f.micro
unfolding epoch
epoch_lem f d =
    let same : 2000 + (f.year - 2000) ≡ f.year = omega (arith, d.year_from) in
    let months : months_days (f.year - 2000) (f.month - 1)
        ≡ months_length (is_leap_year f.year) (f.month - 1) =
      months_days_lem (f.year - 2000) (f.month - 1) (omega (arith, d.month_to))
      ∙ ap (λ y. months_length (is_leap_year y) (f.month - 1)) same in
    omega (
      arith,
      months,
      leapyear_lem (f.year - 2000) (omega (arith, d.year_to)),
      months_length_bound (is_leap_year f.year) (f.month - 1),
      month_length_bound (is_leap_year f.year) f.month,
      d.day_from,
      d.day_to,
      d.month_to,
      d.micro_to,
    )

-- A date of the calendar from 2000 to 4027 with its time of day, written with six digits of the
-- fraction, becomes the microseconds since 2000-01-01T00:00:00Z by the Gregorian calendar, where the
-- whole seconds are reduced modulo 2 ^ 32.
pub json_to_pqtimestamp_lem :
    (f : Fields)
    → IsDate f
    → json_to_pqtimestamp leapyear true (print f) ≡ some (seconds_of f % 2 ^ 32 * 1000000 + f.micro)
unfolding json_to_pqtimestamp
json_to_pqtimestamp_lem f d =
    rw (has_layout-print f, read_fields-print f d) (rw (in_range_lem f d, epoch_lem f d) refl)
