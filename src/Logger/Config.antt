-- ===== src/Logger/Config.antt =====
-- src/utils/logger.c: the validation of the logger's settings, and the start of the logger. The
-- names of the syslog facilities are those of the C library, an argument without the last row.
pub mod Started
mod Tests
use schaufel.Common.{
  ℕ, ◌+◌, ◌/◌, ◌%◌, Bool, true, false, ◌&&◌, Option, none, some, List, [], ◌∷◌, map, ltb, leb, ◌==◌,
  if◌then◌else◌, codes,
}
use schaufel.JsonExport.{same_string}
use schaufel.Helper.{starts_with}

-- The settings of the logger, as they are looked up. `mode` is a mode_t; `facility` and `ident` are
-- members that may be missing, or no strings.
pub record Config : Type 0 where
  pub type_name : Option (List ℕ)
  pub mode : Option ℕ
  pub file : Option (List ℕ)
  pub facility : Option (Option (List ℕ))
  pub ident : Option (Option (List ℕ))

-- `strlwr` of src/utils/strlwr.c.
abbrev pub to_lower : List ℕ → List ℕ
to_lower s = map (λ c. if leb 65 c && leb c 90 then c + 32 else c) s

-- 0640.
abbrev pub mode_or_default : Option ℕ → ℕ
mode_or_default none = 416
mode_or_default (some m) = m

-- `m & (S_ISVTX | S_ISGID | S_ISUID)`, and `m > 07777`.
abbrev validate_file : Config → Option Config
validate_file c =
    let m = mode_or_default c.mode in
    if m / 512 % 8 == 0
    then if ltb 4095 m then none else elim c.file [ none ↦ none | some f ↦ some c ]
    else none

-- The search for a facility in `logger_validate`: the value of `res` after the loop, where -1 is
-- `none`. The loop ends before the last row, which has -1.
unfoldable pub facility_value : List (List ℕ × ℕ) → List ℕ → Option ℕ
facility_value [] f = none
facility_value ((name, v) ∷ []) f = some v
facility_value ((name, v) ∷ r ∷ rows) f =
    let rest = facility_value (r ∷ rows) f in if same_string name f then some v else rest

abbrev validate_ident : Config → Option (Option (List ℕ)) → Option Config
validate_ident c none = some (record c { ident = some (some (codes "schaufel")) })
validate_ident c (some none) = none
validate_ident c (some (some i)) = some c

abbrev known_facility : Config → Option ℕ → Option Config
known_facility c none = none
known_facility c (some v) = validate_ident c c.ident

abbrev validate_facility : List (List ℕ × ℕ) → Config → Option (Option (List ℕ)) → Option Config
validate_facility rows c none =
    validate_ident (record c { facility = some (some (codes "daemon")) }) c.ident
validate_facility rows c (some none) = none
validate_facility rows c (some (some f)) = known_facility c (facility_value rows f)

abbrev validate_type : List (List ℕ × ℕ) → Config → List ℕ → Option Config
validate_type rows c type =
    if same_string type (codes "file")
    then validate_file c
    else if same_string type (codes "stdout")
    then some c
    else if same_string type (codes "stderr")
    then some c
    else if same_string type (codes "null")
    then some c
    else if same_string type (codes "syslog")
    then validate_facility rows c c.facility
    else none

abbrev validate_lower : List (List ℕ × ℕ) → Config → Option (List ℕ) → Option Config
validate_lower rows c none = none
validate_lower rows c (some type) = validate_type rows c (to_lower type)

-- `logger_validate`: the settings afterwards, or `none` where it rejects them.
unfoldable pub logger_validate : List (List ℕ × ℕ) → Config → Option Config
unfolding validate_file validate_ident known_facility validate_facility validate_type validate_lower
logger_validate rows c = validate_lower rows c c.type_name

-- Where the logger writes: a file with its mode, a descriptor, nothing, or syslog with an
-- identification and a facility.
pub data Target : Type 0 where
  to_file : List ℕ → ℕ → Target
  to_fd : ℕ → Target
  to_null : Target
  to_syslog : List ℕ → ℕ → Target

-- `logger_init`: the process exits, it reads the name of the last row, which is NULL, or it logs.
pub data Start : Type 0 where
  exits crashes : Start
  logs : Target → Start

-- The search in `logger_init`: it goes on to the last row.
unfoldable pub find_facility : List (List ℕ × ℕ) → List ℕ → Option ℕ
find_facility [] f = none
find_facility ((name, v) ∷ rows) f =
    let rest = find_facility rows f in if same_string name f then some v else rest

abbrev open_file : Bool → Config → Option (List ℕ) → Start
open_file opens c none = exits
open_file opens c (some f) = if opens then logs (to_file f (mode_or_default c.mode)) else exits

abbrev string_of_member : Option (Option (List ℕ)) → Option (List ℕ)
string_of_member none = none
string_of_member (some s) = s

abbrev open_facility : List ℕ → Option ℕ → Start
open_facility ident none = crashes
open_facility ident (some v) = logs (to_syslog ident v)

abbrev open_syslog : List (List ℕ × ℕ) → Option (List ℕ) → Option (List ℕ) → Start
open_syslog rows none ident = exits
open_syslog rows (some f) none = exits
open_syslog rows (some f) (some i) = open_facility i (find_facility rows f)

abbrev init_type : List (List ℕ × ℕ) → Bool → Config → List ℕ → Start
init_type rows opens c type =
    if starts_with (codes "file") type
    then open_file opens c c.file
    else if starts_with (codes "stderr") type
    then logs (to_fd 2)
    else if starts_with (codes "stdout") type
    then logs (to_fd 1)
    else if same_string type (codes "null")
    then logs to_null
    else if starts_with (codes "syslog") type
    then open_syslog rows (string_of_member c.facility) (string_of_member c.ident)
    else exits

abbrev init_named : List (List ℕ × ℕ) → Bool → Config → Option (List ℕ) → Start
init_named rows opens c none = crashes
init_named rows opens c (some type) = init_type rows opens c type

-- `logger_init`; `opens` is whether the file can be opened.
unfoldable pub logger_init : List (List ℕ × ℕ) → Bool → Config → Start
unfolding open_file string_of_member open_facility open_syslog init_type init_named
logger_init rows opens c = init_named rows opens c c.type_name
