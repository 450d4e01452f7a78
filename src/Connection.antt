-- ===== src/Connection.antt =====
-- Connection strings and COPY commands: `number_length` and `parse_connstring` of src/utils/helper.c,
-- and `_connectinfo` and `_cpycmd` of src/postgres.c and of src/exports.c, with what snprintf leaves
-- of each text in its buffer.
pub mod Room
mod Tests
use schaufel.Common.{
  ℕ, zero, suc, ◌+◌, ◌-◌, ◌*◌, ◌/◌, ◌%◌, Bool, true, false, ◌&&◌, ◌||◌, Option, none, some, List,
  [], ◌∷◌, ◌++◌, length, take, ltb, leb, ◌==◌, if◌then◌else◌, ◌>>=◌,
}
use schaufel.Timestamp.{is_digit, is_space, digits_from}

-- An int, as a port is one: its sign and its magnitude.
pub record Port : Type 0 where
  pub negative : Bool
  pub size : ℕ

-- The loop of `number_length`; the fuel is the number, which each round divides by 10.
unfoldable pub count_digits : ℕ → ℕ → ℕ
count_digits zero n = 0
count_digits (suc fuel) n = elim (n == 0) [ true ↦ 0 | false ↦ suc (count_digits fuel (n / 10)) ]

unfoldable pub number_length : Port → ℕ
number_length i = (if i.size == 0 || i.negative then 1 else 0) + count_digits i.size i.size

-- "%d".
unfoldable pub show_digits : ℕ → ℕ → List ℕ
show_digits zero n = []
show_digits (suc fuel) n = elim (n == 0) [
  | true ↦ []
  | false ↦ show_digits fuel (n / 10) ++ ((48 + n % 10) ∷ [])
]

abbrev pub show_int : Port → List ℕ
show_int i =
    if i.size == 0
    then 48 ∷ []
    else (if i.negative then 45 ∷ [] else []) ++ show_digits i.size i.size

-- atoi.
abbrev skip_space : List ℕ → List ℕ
skip_space [] = []
skip_space (c ∷ cs) = let rest = skip_space cs in if is_space c then rest else c ∷ cs

abbrev signed : List ℕ → Port
signed [] = record { negative = false; size = 0 }
signed (c ∷ cs) =
    if c == 45
    then record { negative = true; size = digits_from 0 cs }
    else record { negative = false; size = digits_from 0 (if c == 43 then cs else c ∷ cs) }

abbrev pub atoi : List ℕ → Port
atoi cs = signed (skip_space cs)

-- The tokens that strtok_r finds between colons; `word` is the one that was begun, the wrong way
-- round.
abbrev pub rev_onto : List ℕ → List ℕ → List ℕ
rev_onto [] acc = acc
rev_onto (x ∷ xs) acc = rev_onto xs (x ∷ acc)

abbrev pub end_word : List ℕ → List (List ℕ) → List (List ℕ)
end_word [] ws = ws
end_word (c ∷ word) ws = rev_onto (c ∷ word) [] ∷ ws

abbrev pub tokens : List ℕ → List ℕ → List (List ℕ)
tokens word [] = end_word word []
tokens word (c ∷ cs) =
    let ends = end_word word (tokens [] cs) in
    let goes = tokens (c ∷ word) cs in if c == 58 then ends else goes

-- What `parse_connstring` finds: a NULL that it gives to strdup, the result -1, or the host, the port,
-- which is 0 where there is none, and the directory of the socket.
pub data Parsed : Type 0 where
  crash refused : Parsed
  found : List ℕ → Port → Option (List ℕ) → Parsed

abbrev pub third : List (List ℕ) → Option (List ℕ)
third [] = none
third (s ∷ ws) = some s

abbrev pub parse_tokens : List (List ℕ) → Parsed
parse_tokens [] = crash
parse_tokens (h ∷ []) = found h (record { negative = false; size = 0 }) none
parse_tokens (h ∷ (p ∷ ws)) = if (atoi p).size == 0 then refused else found h (atoi p) (third ws)

unfoldable pub parse_connstring : List ℕ → Parsed
parse_connstring conninfo = parse_tokens (tokens [] conninfo)

-- snprintf with a buffer of `len` bytes, as far as the NUL.
abbrev pub snprintf : ℕ → List ℕ → List ℕ
snprintf len text = take (len - 1) text

-- "dbname="
abbrev pub dbname_eq : List ℕ
dbname_eq = 100 ∷ 98 ∷ 110 ∷ 97 ∷ 109 ∷ 101 ∷ 61 ∷ []

-- " user="
abbrev pub user_eq : List ℕ
user_eq = 32 ∷ 117 ∷ 115 ∷ 101 ∷ 114 ∷ 61 ∷ []

-- " host="
abbrev pub host_eq : List ℕ
host_eq = 32 ∷ 104 ∷ 111 ∷ 115 ∷ 116 ∷ 61 ∷ []

-- " port="
abbrev pub port_eq : List ℕ
port_eq = 32 ∷ 112 ∷ 111 ∷ 114 ∷ 116 ∷ 61 ∷ []

-- "COPY "
abbrev pub copy_text : List ℕ
copy_text = 67 ∷ 79 ∷ 80 ∷ 89 ∷ 32 ∷ []

-- " FROM STDIN (FORMAT "
abbrev pub from_format : List ℕ
from_format =
    32 ∷ 70 ∷ 82 ∷ 79 ∷ 77 ∷ 32 ∷ 83 ∷ 84 ∷ 68 ∷ 73 ∷ 78 ∷ 32 ∷ 40 ∷ 70 ∷ 79 ∷ 82 ∷ 77 ∷ 65 ∷ 84
    ∷ 32 ∷ []

-- ".data"
abbrev pub data_suffix : List ℕ
data_suffix = 46 ∷ 100 ∷ 97 ∷ 116 ∷ 97 ∷ []

-- " FROM STDIN ( FORMAT binary )"
abbrev pub from_binary : List ℕ
from_binary =
    32 ∷ 70 ∷ 82 ∷ 79 ∷ 77 ∷ 32 ∷ 83 ∷ 84 ∷ 68 ∷ 73 ∷ 78 ∷ 32 ∷ 40 ∷ 32 ∷ 70 ∷ 79 ∷ 82 ∷ 77 ∷ 65
    ∷ 84 ∷ 32 ∷ 98 ∷ 105 ∷ 110 ∷ 97 ∷ 114 ∷ 121 ∷ 32 ∷ 41 ∷ []

-- "dbname=bagger_exports user=postgres host="
abbrev pub exports_db : List ℕ
exports_db =
    100 ∷ 98 ∷ 110 ∷ 97 ∷ 109 ∷ 101 ∷ 61 ∷ 98 ∷ 97 ∷ 103 ∷ 103 ∷ 101 ∷ 114 ∷ 95 ∷ 101 ∷ 120 ∷ 112
    ∷ 111 ∷ 114 ∷ 116 ∷ 115 ∷ 32 ∷ 117 ∷ 115 ∷ 101 ∷ 114 ∷ 61 ∷ 112 ∷ 111 ∷ 115 ∷ 116 ∷ 103 ∷ 114
    ∷ 101 ∷ 115 ∷ 32 ∷ 104 ∷ 111 ∷ 115 ∷ 116 ∷ 61 ∷ []

-- `_connectinfo` of src/postgres.c: the text, and what the buffer has of it. `none` is an abort, or a
-- fault. The format has 33 characters.
abbrev pub conninfo_text : List ℕ → List ℕ → List ℕ → Port → List ℕ
conninfo_text dbname user host port =
    dbname_eq
    ++ (dbname ++ (user_eq ++ (user ++ (host_eq ++ (host ++ (port_eq ++ show_int port))))))

abbrev pub or_host : List ℕ → Option (List ℕ) → List ℕ
or_host host none = host
or_host host (some dir) = dir

abbrev pub parsed_connectinfo : List ℕ → List ℕ → Parsed → Option (List ℕ)
parsed_connectinfo dbname user crash = none
parsed_connectinfo dbname user refused = none
parsed_connectinfo dbname user (found hostname port dir) =
    let host = or_host hostname dir in
    some (
      snprintf (33 + length host + length dbname + length user + 20)
        (conninfo_text dbname user host port))

unfoldable pub connectinfo : List ℕ → List ℕ → List ℕ → Option (List ℕ)
connectinfo host dbname user = parsed_connectinfo dbname user (parse_connstring host)

-- `_cpycmd` of src/postgres.c. '-' and '.' of the host become '_'.
abbrev pub underscored : List ℕ → List ℕ
underscored [] = []
underscored (c ∷ cs) = (if c == 45 || c == 46 then 95 else c) ∷ underscored cs

abbrev pub table_text : List ℕ → Port → List ℕ → List ℕ → List ℕ
table_text host port generation format =
    copy_text
    ++ (host
        ++ (95
            ∷ (show_int port
                ++ (95 ∷ (generation ++ (data_suffix ++ (from_format ++ (format ++ (41 ∷ [])))))))))

abbrev pub plain_text : List ℕ → List ℕ → List ℕ
plain_text generation format = copy_text ++ (generation ++ (from_format ++ (format ++ (41 ∷ []))))

-- `named` says whether the format is csv or binary, which name the table by the topic alone. The
-- formats have 30 and 41 characters.
abbrev pub parsed_cpycmd : Bool → List ℕ → List ℕ → Parsed → Option (List ℕ)
parsed_cpycmd named generation format crash = none
parsed_cpycmd named generation format refused = none
parsed_cpycmd named generation format (found hostname port dir) =
    let host = underscored hostname in
    some (
      if named
      then snprintf (30 + length generation + length format + 20) (plain_text generation format)
      else snprintf (41 + length host + length generation + length format + 20)
          (table_text host port generation format))

unfoldable pub cpycmd : List ℕ → Bool → List ℕ → List ℕ → Option (List ℕ)
cpycmd host named generation format = parsed_cpycmd named generation format (parse_connstring host)

-- `_connectinfo` and `_cpycmd` of src/exports.c.
abbrev pub exports_conninfo_text : List ℕ → Port → List ℕ
exports_conninfo_text host port = exports_db ++ (host ++ (port_eq ++ show_int port))

abbrev pub parsed_exports_connectinfo : Parsed → Option (List ℕ)
parsed_exports_connectinfo crash = none
parsed_exports_connectinfo refused = none
parsed_exports_connectinfo (found host port dir) =
    some
      (snprintf (length host + number_length port + 37 + 7 + 7) (exports_conninfo_text host port))

unfoldable pub exports_connectinfo : List ℕ → Option (List ℕ)
exports_connectinfo host = parsed_exports_connectinfo (parse_connstring host)

abbrev pub exports_copy_text : List ℕ → List ℕ
exports_copy_text table = copy_text ++ (table ++ from_binary)

abbrev pub parsed_exports_cpycmd : List ℕ → Parsed → Option (List ℕ)
parsed_exports_cpycmd table crash = none
parsed_exports_cpycmd table refused = none
parsed_exports_cpycmd table (found host port dir) =
    some (snprintf (length table + 36) (exports_copy_text table))

unfoldable pub exports_cpycmd : List ℕ → List ℕ → Option (List ℕ)
exports_cpycmd host table = parsed_exports_cpycmd table (parse_connstring host)
