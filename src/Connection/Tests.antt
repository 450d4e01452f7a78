-- ===== src/Connection/Tests.antt =====
-- Runs of the functions of Connection on concrete strings.
use schaufel.Common.{ℕ, ◌≡◌, refl, arith, true, false, some, List, [], ◌∷◌}
use schaufel.Timestamp.{digits_from}
use schaufel.Connection.{
  Port, number_length, count_digits, parse_connstring, crash, refused, connectinfo, conninfo_text,
  cpycmd, plain_text, table_text, exports_connectinfo, exports_conninfo_text, exports_cpycmd,
  exports_copy_text,
}
use schaufel.Connection.Room.{connection_strings_fit}

-- "db-1:54:/s"
abbrev sample : List ℕ
sample = 100 ∷ 98 ∷ 45 ∷ 49 ∷ 58 ∷ 53 ∷ 52 ∷ 58 ∷ 47 ∷ 115 ∷ []

abbrev port : Port
port = record { negative = false; size = 54 }

connection_strings_fit_example :
    (connectinfo sample (100 ∷ []) (117 ∷ [])
      ≡ some (conninfo_text (100 ∷ []) (117 ∷ []) (47 ∷ 115 ∷ []) port))
    × (cpycmd sample true (116 ∷ []) (99 ∷ []) ≡ some (plain_text (116 ∷ []) (99 ∷ [])))
    × (cpycmd sample false (116 ∷ []) (99 ∷ [])
        ≡ some (table_text (100 ∷ 98 ∷ 95 ∷ 49 ∷ []) port (116 ∷ []) (99 ∷ [])))
    × (exports_connectinfo sample ≡ some (exports_conninfo_text (100 ∷ 98 ∷ 45 ∷ 49 ∷ []) port))
    × (exports_cpycmd sample (116 ∷ []) ≡ some (exports_copy_text (116 ∷ [])))
unfolding parse_connstring digits_from
connection_strings_fit_example =
    connection_strings_fit sample (100 ∷ []) (117 ∷ []) (116 ∷ []) (99 ∷ [])
      (100 ∷ 98 ∷ 45 ∷ 49 ∷ []) port (some (47 ∷ 115 ∷ [])) refl (omega arith)

-- -7 is two characters long.
minus_seven : number_length (record { negative = true; size = 7 }) ≡ 2
unfolding number_length count_digits
minus_seven = refl

-- Without a host strdup is given NULL; a port that is no number is refused.
no_host : parse_connstring (58 ∷ 58 ∷ []) ≡ crash
unfolding parse_connstring
no_host = refl

no_number : parse_connstring (104 ∷ 58 ∷ 120 ∷ []) ≡ refused
unfolding parse_connstring digits_from
no_number = refl
