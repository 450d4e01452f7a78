-- ===== src/Timestamp/Tests.antt =====
-- Runs of src/hooks/jsonexport.c on concrete dates.
use schaufel.Common.{◌≡◌, refl, true, some, [], ◌∷◌, arith}
use schaufel.Timestamp.{
  Fields, json_to_pqtimestamp, leapyear, leapyear_from, has_layout, read_fields, strtoul,
  digits_from, in_range, epoch, months_days, fraction,
}
use schaufel.Timestamp.Convert.{print, json_to_pqtimestamp_lem}

-- 2024-02-29T12:34:56.789000Z
abbrev leap_day : Fields
leap_day = record {
  year = 2024;
  month = 2;
  day = 29;
  hour = 12;
  minute = 34;
  second = 56;
  micro = 789000;
}

json_to_pqtimestamp_example :
    json_to_pqtimestamp leapyear true (print leap_day) ≡ some 762525296789000
json_to_pqtimestamp_example = json_to_pqtimestamp_lem leap_day (record {
  year_from = omega arith;
  year_to = omega arith;
  month_from = omega arith;
  month_to = omega arith;
  day_from = omega arith;
  day_to = omega arith;
  hour_to = omega arith;
  minute_to = omega arith;
  second_to = omega arith;
  micro_to = omega arith;
})

-- "2019-11-05T11:31:34Z", which has no fraction
short_form :
    json_to_pqtimestamp leapyear true (
      50 ∷ 48 ∷ 49 ∷ 57 ∷ 45 ∷ 49 ∷ 49 ∷ 45 ∷ 48 ∷ 53 ∷ 84 ∷ 49 ∷ 49 ∷ 58 ∷ 51 ∷ 49 ∷ 58 ∷ 51 ∷ 52
      ∷ 90 ∷ [])
    ≡ some 626268694000000
unfolding json_to_pqtimestamp has_layout read_fields strtoul digits_from in_range epoch months_days
    leapyear leapyear_from fraction
short_form = refl
