-- ===== src/Connection/Room.antt =====
-- The buffers of the connection strings and COPY commands are large enough.
use native.Mathlib.Nat.{pow-suc}
use schaufel.Common.{
  ℕ, zero, suc, ◌+◌, ◌-◌, ◌/◌, ◌%◌, ◌^◌, ◌≤◌, ◌<◌, ◌≡◌, refl, ap, ◌∙◌, true, false, ◌||◌, Option,
  some, List, [], ◌∷◌, length, length-append, take, ◌==◌, arith, ==_iff, Bool-cases, inl, inr,
}
use schaufel.Connection.{
  Port, count_digits, number_length, show_digits, show_int, found, parse_connstring, snprintf,
  conninfo_text, or_host, connectinfo, underscored, table_text, plain_text, cpycmd,
  exports_conninfo_text, exports_connectinfo, exports_copy_text, exports_cpycmd,
}

take-all : (n : ℕ) (xs : List ℕ) → length xs ≤ n → take n xs ≡ xs
take-all zero [] h = refl
take-all zero (x ∷ xs) h = absurd (omega arith)
take-all (suc n) [] h = refl
take-all (suc n) (x ∷ xs) h = ap (λ l. x ∷ l) (take-all n xs (omega arith))

length-show_digits : (fuel n : ℕ) → length (show_digits fuel n) ≡ count_digits fuel n
unfolding show_digits count_digits
length-show_digits zero n = refl
length-show_digits (suc fuel) n = elim (Bool-cases (n == 0)) [
  | inl y ↦ rw (show_digits, count_digits, y) refl
  | inr z ↦
      let ih = length-show_digits fuel (n / 10) in
      let snoc = length-append (show_digits fuel (n / 10)) ((48 + n % 10) ∷ []) in
      rw (show_digits, count_digits, z) (omega arith)
]

count_digits-zero : (n : ℕ) → count_digits 0 n ≡ 0
unfolding count_digits
count_digits-zero n = refl

-- `number_length` is the length of the number that is printed.
length-show_int : (i : Port) → length (show_int i) ≡ number_length i
unfolding number_length
length-show_int i = elim (Bool-cases (i.size == 0)) [
  | inl y ↦
      let z = ap (λ n. count_digits n i.size) ((==_iff i.size 0).0 y) ∙ count_digits-zero i.size in
      rw (y, z) refl
  | inr n ↦
      let d = length-show_digits i.size i.size in
      elim (Bool-cases i.negative) [
        | inl y ↦ rw (n, y) (omega (arith, d))
        | inr y ↦ rw (n, y) (omega (arith, d))
      ]
]

-- A number below 10 ^ k has at most k digits.
count_digits-bound : (fuel k n : ℕ) → n < 10 ^ k → count_digits fuel n ≤ k
unfolding count_digits
count_digits-bound zero k n h = omega arith
count_digits-bound (suc fuel) zero n h = elim (Bool-cases (n == 0)) [
  | inl y ↦ rw (count_digits, y) (omega arith)
  | inr z ↦ absurd (ground (arith, h))
]
count_digits-bound (suc fuel) (suc k) n h = elim (Bool-cases (n == 0)) [
  | inl y ↦ rw (count_digits, y) (omega arith)
  | inr z ↦
      let p = pow-suc 10 k in
      let ih = count_digits-bound fuel k (n / 10) (omega arith) in
      rw (count_digits, z) (omega arith)
]

-- What an int can be.
abbrev pub InRange : Port → Type 0
InRange i = i.size ≤ 2 ^ 31

length-show_int-bound : (i : Port) → InRange i → length (show_int i) ≤ 11
unfolding number_length
length-show_int-bound i h =
    let len = length-show_int i in
    let few = count_digits-bound i.size 10 i.size (omega arith) in
    elim (Bool-cases (i.size == 0 || i.negative)) [
      | inl y ↦ omega (arith, rw y at len)
      | inr n ↦ omega (arith, rw n at len)
    ]

-- A text that leaves room for the NUL is not cut.
snprintf-all : (len : ℕ) (text : List ℕ) → length text < len → snprintf len text ≡ text
snprintf-all len text h = take-all (len - 1) text (omega arith)

length-conninfo_text :
    (dbname user host : List ℕ) (port : Port)
    → length (conninfo_text dbname user host port)
      ≡ 25 + length dbname + length user + length host + length (show_int port)
length-conninfo_text dbname user host port = grind (arith, length-append)

length-underscored : (cs : List ℕ) → length (underscored cs) ≡ length cs
length-underscored [] = refl
length-underscored (c ∷ cs) = ap suc (length-underscored cs)

length-plain_text :
    (generation format : List ℕ)
    → length (plain_text generation format) ≡ 26 + length generation + length format
length-plain_text generation format = grind (arith, length-append)

length-table_text :
    (host : List ℕ) (port : Port) (generation format : List ℕ)
    → length (table_text host port generation format)
      ≡ 33 + length host + length (show_int port) + length generation + length format
length-table_text host port generation format = grind (arith, length-append)

length-exports_conninfo_text :
    (host : List ℕ) (port : Port)
    → length (exports_conninfo_text host port) ≡ 47 + length host + length (show_int port)
length-exports_conninfo_text host port = grind (arith, length-append)

length-exports_copy_text : (table : List ℕ) → length (exports_copy_text table) ≡ 34 + length table
length-exports_copy_text table = grind (arith, length-append)

-- Where `parse_connstring` finds a host and a port, no buffer cuts the text that is printed into it:
-- src/postgres.c connects with the whole connection string, to the directory of the socket if one is
-- named, and copies to the whole table name, and so does src/exports.c.
pub connection_strings_fit :
    (conninfo dbname user generation format : List ℕ) (host : List ℕ) (port : Port)
    (dir : Option (List ℕ))
    → parse_connstring conninfo ≡ found host port dir
    → InRange port
    → (connectinfo conninfo dbname user ≡ some (conninfo_text dbname user (or_host host dir) port))
      × (cpycmd conninfo true generation format ≡ some (plain_text generation format))
      × (cpycmd conninfo false generation format
          ≡ some (table_text (underscored host) port generation format))
      × (exports_connectinfo conninfo ≡ some (exports_conninfo_text host port))
      × (exports_cpycmd conninfo generation ≡ some (exports_copy_text generation))
unfolding connectinfo cpycmd exports_connectinfo exports_cpycmd
connection_strings_fit conninfo dbname user generation format host port dir p small =
    let digits = length-show_int-bound port small in
    let shown = length-show_int port in
    let a = length-conninfo_text dbname user (or_host host dir) port in
    let b = length-plain_text generation format in
    let c = length-table_text (underscored host) port generation format in
    let d = length-exports_conninfo_text host port in
    let e = length-exports_copy_text generation in
    (
      rw p (
          ap some
            (snprintf-all _ (conninfo_text dbname user (or_host host dir) port) (omega arith))),
      rw p (ap some (snprintf-all _ (plain_text generation format) (omega arith))),
      rw p (
          ap some
            (snprintf-all _ (table_text (underscored host) port generation format) (omega arith))),
      rw p (ap some (snprintf-all _ (exports_conninfo_text host port) (omega arith))),
      rw p (ap some (snprintf-all _ (exports_copy_text generation) (omega arith))),
    )
