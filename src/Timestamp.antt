-- ===== src/Timestamp.antt =====
-- src/hooks/jsonexport.c: a date string made a binary timestamp of postgres, the microseconds since
-- 2000-01-01. Characters are their codes; `uint32_t` arithmetic keeps its wrap-around.
pub mod Calendar
pub mod Digits
pub mod Convert
mod Tests
use schaufel.Common.{
  ℕ, zero, suc, ◌+◌, ◌-◌, ◌*◌, ◌/◌, ◌%◌, ◌^◌, Bool, true, false, not, ◌&&◌, ◌||◌, Option, none,
  some, List, [], ◌∷◌, ◌++◌, length, take, drop, ltb, leb, ◌==◌, if◌then◌else◌, ◌>>=◌,
}

-- The leap years, counted from 2000: the condition of `_leapyear` and of the day of the year.
abbrev pub is_leap : ℕ → Bool
is_leap i = (i % 4 == 0 && not (i % 100 == 0)) || i % 400 == 0

-- The loop of `_leapyear`: `n` rounds from `i` on, with `a` leap years so far.
unfoldable pub leapyear_from : ℕ → ℕ → ℕ → List ℕ
leapyear_from zero i a = []
leapyear_from (suc n) i a = let b = if is_leap i then a + 1 else a in b ∷ leapyear_from n (suc i) b

-- `_leapyear`: entry `y` is how many of the `y` years from 2000 on are leap years.
unfoldable pub leapyear : List ℕ
leapyear = 0 ∷ leapyear_from 2047 0 0

-- The element at an index; past the end, as after the end of a string, it is 0.
abbrev pub at : List ℕ → ℕ → ℕ
at [] i = 0
at (c ∷ cs) zero = c
at (c ∷ cs) (suc i) = at cs i

abbrev pub is_digit : ℕ → Bool
is_digit c = leb 48 c && leb c 57

abbrev pub is_space : ℕ → Bool
is_space c = c == 32 || (leb 9 c && leb c 13)

-- strtoul in base 10: white space, a sign, and digits, up to the first other character. A value
-- above ULONG_MAX is `none`: errno is set.
unfoldable pub digits_from : ℕ → List ℕ → ℕ
digits_from acc [] = acc
digits_from acc (c ∷ cs) =
    let rest = digits_from (acc * 10 + (c - 48)) cs in if is_digit c then rest else acc

abbrev skip_space : List ℕ → List ℕ
skip_space [] = []
skip_space (c ∷ cs) = let rest = skip_space cs in if is_space c then rest else c ∷ cs

abbrev in_long : ℕ → Option ℕ
in_long n = if ltb n (2 ^ 64) then some n else none

signed : List ℕ → Option ℕ
signed [] = some 0
signed (c ∷ cs) =
    if c == 45
    then elim (in_long (digits_from 0 cs)) [ none ↦ none | some n ↦ some ((2 ^ 64 - n) % 2 ^ 64) ]
    else in_long (digits_from 0 (if c == 43 then cs else c ∷ cs))

unfoldable pub strtoul : List ℕ → Option ℕ
unfolding signed
strtoul cs = signed (skip_space cs)

-- `struct tm` of the source, before the year is shifted.
pub record Fields : Type 0 where
  pub year : ℕ
  pub month : ℕ
  pub day : ℕ
  pub hour : ℕ
  pub minute : ℕ
  pub second : ℕ
  pub micro : ℕ

-- The length and the separators.
unfoldable pub has_layout : List ℕ → Bool
has_layout ts =
    let len = length ts in
    leb 20 len
    && (leb len 31
        && (at ts 4 == 45
            && (at ts 7 == 45
                && (at ts 10 == 84
                    && (at ts 13 == 58
                        && (at ts 16 == 58
                            && ((at ts 19 == 46 || at ts 19 == 90) && at ts (len - 1) == 90)))))))

-- `micro`: at most six digits of the fraction, filled up with '0'.
unfoldable pub fraction : List ℕ → List ℕ
fraction ts =
    let rest = length ts - 1 - 20 in
    let bytes = if ltb 6 rest then 6 else rest in
    take bytes (drop 20 ts) ++ drop bytes (48 ∷ 48 ∷ 48 ∷ 48 ∷ 48 ∷ 48 ∷ [])

abbrev pub uint32 : Option ℕ → Option ℕ
uint32 none = none
uint32 (some n) = some (n % 2 ^ 32)

-- The numbers of a date string. `none` is a set errno.
unfoldable pub read_fields : List ℕ → Option Fields
read_fields ts = do
  year ← uint32 (strtoul ts)
  month ← uint32 (strtoul (drop 5 ts))
  day ← uint32 (strtoul (drop 8 ts))
  hour ← uint32 (strtoul (drop 11 ts))
  minute ← uint32 (strtoul (drop 14 ts))
  second ← uint32 (strtoul (drop 17 ts))
  micro ← (if not (at ts 20 == 90) && not (at ts 19 == 90) then strtoul (fraction ts) else some 0)
  some (record {
    year = year;
    month = month;
    day = day;
    hour = hour;
    minute = minute;
    second = second;
    micro = micro;
  })

-- The range checks.
unfoldable pub in_range : Fields → Bool
in_range f =
    leb 2000 f.year
    && (leb f.year 4027
        && (leb 1 f.month
            && (leb f.month 12
                && (leb f.day 31
                    && (leb f.hour 23
                        && (leb f.minute 59
                            && (leb f.second 60 && not (f.month == 2 && ltb 29 f.day))))))))

-- The body of the loop over the months before the date's.
abbrev pub month_days : ℕ → ℕ → ℕ
month_days year i =
    if i == 2
    then if is_leap year then 29 else 28
    else if ltb i 8
    then 30 + i % 2
    else 30 + (i + 1) % 2

-- The loop, over the months 1 to `n`.
unfoldable pub months_days : ℕ → ℕ → ℕ
months_days year zero = 0
months_days year (suc n) = months_days year n + month_days year (suc n)

-- `epoch`, with `year` counted from 2000: the seconds are a sum of uint32_t.
unfoldable pub epoch : List ℕ → Fields → ℕ
epoch leapyears f =
    let year = f.year - 2000 in
    let yday = months_days year (f.month - 1) + f.day in
    let seconds =
      (f.second
        + f.minute * 60
        + f.hour * 3600
        + (yday + (2 ^ 32 - 1)) % 2 ^ 32 * 86400
        + at leapyears year * 86400
        + year * 31536000)
      % 2 ^ 32 in
    (seconds * 1000000 + f.micro) % 2 ^ 64

abbrev checked : List ℕ → Option Fields → Option ℕ
checked leapyears none = none
checked leapyears (some f) = if in_range f then some (epoch leapyears f) else none

-- `_json_to_pqtimestamp`: `room` says whether the allocation of the result succeeds, and `none` is
-- the return of false. The result is given as a number; `htobe64` stores its bytes.
unfoldable pub json_to_pqtimestamp : List ℕ → Bool → List ℕ → Option ℕ
json_to_pqtimestamp leapyears room ts =
    if room && has_layout ts then checked leapyears (read_fields ts) else none
