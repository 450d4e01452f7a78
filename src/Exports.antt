-- ===== src/Exports.antt =====
-- src/exports.c: its own copy of the conversion of timestamps, which refuses leap seconds.
pub mod Produce
pub mod Config
mod Tests
use schaufel.Common.{
  ℕ, ◌≡◌, refl, sym, ◌∙◌, ap, Bool, true, false, not, ◌&&◌, Option, none, some, List, ltb, leb,
  ◌==◌, if◌then◌else◌, arith, Bool-cases, Option-cases, ◌⊎◌, inl, inr,
}
use schaufel.Timestamp.{Fields, has_layout, read_fields, in_range, epoch, json_to_pqtimestamp}

-- The range checks.
unfoldable pub exports_in_range : Fields → Bool
exports_in_range f =
    leb 2000 f.year
    && (leb f.year 4027
        && (leb 1 f.month
            && (leb f.month 12
                && (leb f.day 31
                    && (leb f.hour 23
                        && (leb f.minute 59
                            && (leb f.second 59 && not (f.month == 2 && ltb 29 f.day))))))))

abbrev exports_checked : List ℕ → Option Fields → Option ℕ
exports_checked leapyears none = none
exports_checked leapyears (some f) = if exports_in_range f then some (epoch leapyears f) else none

-- `_json_to_pqtimestamp` of src/exports.c.
unfoldable pub exports_json_to_pqtimestamp : List ℕ → Bool → List ℕ → Option ℕ
exports_json_to_pqtimestamp leapyears room ts =
    if room && has_layout ts then exports_checked leapyears (read_fields ts) else none

abbrev pub is_leap_second : Option Fields → Bool
is_leap_second none = false
is_leap_second (some f) = f.second == 60

in_range_second : (f : Fields) → exports_in_range f ≡ (if f.second == 60 then false else in_range f)
unfolding exports_in_range in_range
in_range_second f = ground arith

-- Both conversions of timestamps agree on every string and table, but for strings whose seconds are
-- 60: src/exports.c refuses those.
pub exports_json_to_pqtimestamp_lem :
    (leapyears : List ℕ) (room : Bool) (ts : List ℕ)
    → exports_json_to_pqtimestamp leapyears room ts
      ≡ (if is_leap_second (read_fields ts) then none else json_to_pqtimestamp leapyears room ts)
unfolding exports_json_to_pqtimestamp json_to_pqtimestamp
exports_json_to_pqtimestamp_lem leapyears room ts = elim (Option-cases (read_fields ts)) [
  | inl e ↦ rw e refl
  | inr (f, e) ↦
      rw (e, in_range_second f)
        (elim (Bool-cases (room && has_layout ts)) [
          | inl y ↦
              rw y (elim (Bool-cases (f.second == 60)) [ inl s ↦ rw s refl | inr s ↦ rw s refl ])
          | inr n ↦
              rw n (elim (Bool-cases (f.second == 60)) [ inl s ↦ rw s refl | inr s ↦ rw s refl ])
        ])
]
