-- ===== src/File/Copy.antt =====
-- The consumer of src/file.c beside its producer: a file is copied line by line.
use schaufel.Common.{
  ℕ, zero, suc, ◌+◌, ◌<◌, ◌≡◌, ◌≢◌, refl, sym, ap, ◌∙◌, Bool, true, false, not, ◌&&◌, Option, none,
  some, List, [], ◌∷◌, ◌++◌, length, length-append, take-append, map, All, ltb, ◌==◌, if◌then◌else◌,
  ◌⊎◌, inl, inr, Bool-cases, arith,
}
use mathlib.Core.List.{append-nil, append_assoc}
use schaufel.File.{
  Str, Line, message_of, Settings, file_validate, file_consumer_init, file_producer_init,
  file_meta_init, has_name, many_threads, next_line, with_byte, restored, stops, reads,
  file_consumer_consume, Outcome, aborts, faults, returns, file_producer_produce,
}

abbrev nothing_left : Str → Bool
nothing_left [] = true
nothing_left (c ∷ cs) = false

-- The only '\n' is at the end; and there is none.
unfoldable pub is_line : Str → Bool
is_line [] = false
is_line (c ∷ cs) = if c == 10 then nothing_left cs else is_line cs

unfoldable pub has_no_newline : Str → Bool
has_no_newline [] = true
has_no_newline (c ∷ cs) = not (c == 10) && has_no_newline cs

-- What comes behind the last '\n' is a line too, if it is something.
abbrev pub with_tail : List Str → Str → List Str
with_tail [] [] = []
with_tail [] (c ∷ cs) = (c ∷ cs) ∷ []
with_tail (l ∷ ls) t = l ∷ with_tail ls t

-- The messages that the consumer gives until it returns -1, where the file can be read; `none` if it
-- does not in so many calls.
unfoldable pub consume_all : ℕ → ℕ → Str → Option (List Line)
consume_all zero errno s = none
consume_all (suc n) errno s = elim (file_consumer_consume true errno s) [
  | stops ↦ some []
  | reads rest errno' msg ↦ elim (consume_all n errno' rest) [
    | none ↦ none
    | some msgs ↦ some (msg ∷ msgs)
  ]
]

-- The calls of the producer for messages, where the file can be written.
unfoldable pub produce_all : List Line → Str → Outcome Str
produce_all [] file = returns file
produce_all (m ∷ ms) file = elim (file_producer_produce true m file) [
  | aborts ↦ aborts
  | faults ↦ faults
  | returns file' ↦ produce_all ms file'
]

-- A line and what is behind it, or the whole without a '\n'.
Splits : Str → Type 0
Splits s =
    ((c : ℕ) × (l : Str) × (r : Str) × (next_line s ≡ (c ∷ l, r))
      × (is_line (c ∷ l) ≡ true)
      × ((c ∷ l) ++ r ≡ s))
    ⊎ ((has_no_newline s ≡ true) × (next_line s ≡ (s, [])))

next_line_newline :
    (c : ℕ) (s : Str) → c ≡ 10 → (next_line (c ∷ s) ≡ (c ∷ [], s)) × (is_line (c ∷ []) ≡ true)
unfolding next_line is_line
next_line_newline c s e = (ground arith, ground arith)

next_line_other :
    (c : ℕ) (s l : Str)
    → c ≢ 10
    → (next_line (c ∷ s) ≡ with_byte c (next_line s))
      × (is_line (c ∷ l) ≡ is_line l)
      × (has_no_newline (c ∷ l) ≡ has_no_newline l)
unfolding next_line is_line has_no_newline
next_line_other c s l e = (ground arith, ground arith, ground arith)

other-Splits : (c : ℕ) (s : Str) → c ≢ 10 → Splits s → Splits (c ∷ s)
unfolding Splits
other-Splits c s e (inl (d, l, r, hn, hl, ha)) =
    let (n, i, w) = next_line_other c s (d ∷ l) e in
    inl (c, d ∷ l, r, n ∙ ap (with_byte c) hn, i ∙ hl, ap (λ x. c ∷ x) ha)
other-Splits c s e (inr (hw, hn)) =
    let (n, i, w) = next_line_other c s s e in inr (w ∙ hw, n ∙ ap (with_byte c) hn)

is_newline : (c : ℕ) → (c ≡ 10) ⊎ (c ≢ 10)
is_newline c = elim (Bool-cases (c == 10)) [
  | inl e ↦ inl (ground arith)
  | inr e ↦ inr (ground arith)
]

next_line-Splits : (s : Str) → Splits s
unfolding Splits next_line has_no_newline
next_line-Splits [] = inr (refl, refl)
next_line-Splits (c ∷ s) = elim (is_newline c) [
  | inl e ↦ let (n, i) = next_line_newline c s e in inl (c, [], s, n, i, refl)
  | inr e ↦ other-Splits c s e (next_line-Splits s)
]

-- The producer puts a line, which is not empty, behind what is in the file.
room : (n m : ℕ) → ltb (suc (n + suc m)) (suc n) ≡ false
room n m = ground arith

positive : (n : ℕ) → (suc n == 0) ≡ false
positive n = ground arith

produce_line :
    (c : ℕ) (l file : Str)
    → file_producer_produce true (message_of (c ∷ l)) file ≡ returns (file ++ (c ∷ l))
unfolding file_producer_produce
produce_line c l file =
    rw (length-append l (0 ∷ []), room (length l) 0, take-append l (0 ∷ []), positive (length l))
      refl

produce_lines :
    (c : ℕ) (l : Str) (ms : List Line) (file : Str)
    → produce_all (message_of (c ∷ l) ∷ ms) file ≡ produce_all ms (file ++ (c ∷ l))
unfolding produce_all
produce_lines c l ms file = rw (produce_all, produce_line c l file) refl

-- A call that reads a line, or the last without a '\n'.
consume_line :
    (errno c : ℕ) (s l r : Str)
    → next_line (c ∷ s) ≡ (l, r)
    → file_consumer_consume true errno (c ∷ s) ≡ reads r (restored errno) (message_of l)
unfolding file_consumer_consume
consume_line errno c s l r h = ap (λ p. reads p.1 (restored errno) (message_of p.0)) h

consume_next :
    (n errno c : ℕ) (s l r : Str) (ms : List Line)
    → next_line (c ∷ s) ≡ (l, r)
    → consume_all n (restored errno) r ≡ some ms
    → consume_all (suc n) errno (c ∷ s) ≡ some (message_of l ∷ ms)
unfolding consume_all
consume_next n errno c s l r ms hn hm = rw (consume_all, consume_line errno c s l r hn, hm) refl

Reproduced : ℕ → ℕ → Str → Type 0
Reproduced n errno s =
    (ls : List Str) × (t : Str) × All (λ l. is_line l ≡ true) ls
    × (has_no_newline t ≡ true)
    × (consume_all n errno s ≡ some (map message_of (with_tail ls t)))
    × ((file : Str) → produce_all (map message_of (with_tail ls t)) file ≡ returns (file ++ s))

consume_empty : (n errno : ℕ) → consume_all (suc n) errno [] ≡ some []
unfolding consume_all file_consumer_consume
consume_empty n errno = refl

produce_none : (file : Str) → produce_all [] file ≡ returns file
unfolding produce_all
produce_none file = refl

produce_empty :
    (file : Str) (works : Bool) → file_producer_produce works (message_of []) file ≡ aborts
unfolding file_producer_produce
produce_empty file false = refl
produce_empty file true = refl

copy_empty : (n errno : ℕ) → Reproduced (suc n) errno []
unfolding Reproduced consume_all file_consumer_consume produce_all has_no_newline
copy_empty n errno = ([], [], tt, refl, refl, λ file. ap returns (sym (append-nil file)))

copy_line :
    (n errno c : ℕ) (s : Str) (d : ℕ) (l r : Str)
    → next_line (c ∷ s) ≡ (d ∷ l, r)
    → is_line (d ∷ l) ≡ true
    → (d ∷ l) ++ r ≡ c ∷ s
    → Reproduced n (restored errno) r
    → Reproduced (suc n) errno (c ∷ s)
unfolding Reproduced
copy_line n errno c s d l r hn hl ha (ls, t, hs, ht, hc, hp) = (
  (d ∷ l) ∷ ls,
  t,
  (hl, hs),
  ht,
  consume_next n errno c s (d ∷ l) r _ hn hc,
  λ file.
      produce_lines d l _ file
      ∙ (hp (file ++ (d ∷ l)) ∙ ap returns (append_assoc file (d ∷ l) r ∙ ap (λ x. file ++ x) ha)),
)

copy_last :
    (n errno c : ℕ) (s : Str)
    → has_no_newline (c ∷ s) ≡ true
    → next_line (c ∷ s) ≡ (c ∷ s, [])
    → Reproduced (suc (suc n)) errno (c ∷ s)
unfolding Reproduced
copy_last n errno c s hw hn = (
  [],
  c ∷ s,
  tt,
  hw,
  consume_next (suc n) errno c s (c ∷ s) [] [] hn (consume_empty n (restored errno)),
  λ file. produce_lines c s [] file ∙ produce_none (file ++ (c ∷ s)),
)

copy_all : (n errno : ℕ) (s : Str) → length s < n → Reproduced n errno s
unfolding Splits
copy_all zero errno s lt = absurd (omega arith)
copy_all (suc n) errno [] lt = copy_empty n errno
copy_all (suc zero) errno (c ∷ s) lt = absurd (omega arith)
copy_all (suc (suc n)) errno (c ∷ s) lt = elim (next_line-Splits (c ∷ s)) [
  | inl (d, l, r, hn, hl, ha) ↦
      let shorter : length r < suc n = omega (arith, length-append (d ∷ l) r, ap length ha) in
      copy_line (suc n) errno c s d l r hn hl ha (copy_all (suc n) (restored errno) r shorter)
  | inr (hw, hn) ↦ copy_last n errno c s hw hn
]

named :
    (b : Bool) (f : Option Str)
    → (if b then false else has_name f) ≡ true
    → (name : Str) × (f ≡ some name)
named true f h = cc
named false none h = cc
named false (some name) h = (name, refl)

opened :
    (held : Str → Str) (s : Settings)
    → file_validate s ≡ true
    → (name : Str) × (s.file ≡ some name)
      × (file_consumer_init (λ n mode. some (held n)) s ≡ returns (held name))
      × (file_producer_init (λ n mode. some (held n)) s ≡ returns (held name))
unfolding file_validate file_consumer_init file_producer_init file_meta_init
opened held s h =
    let (name, e) = named (many_threads s.threads) s.file h in (name, e, rw e refl, rw e refl)

-- For settings that `file_validate` accepts, where the files can be opened, read and written: the
-- producer appends just the bytes of the consumer's file, whatever they are. For that the consumer
-- is called until it returns -1, which it does after no more calls than there are bytes, and one;
-- its messages are the lines, each with its '\n', and what follows the last. A message of length 0
-- makes the producer abort, even where the file can be written.
pub produce_all-consume_all :
    (held : Str → Str) (source sink : Settings) (errno : ℕ)
    → file_validate source ≡ true
    → file_validate sink ≡ true
    → (from : Str) × (to : Str) × (ls : List Str) × (t : Str) × (source.file ≡ some from)
      × (sink.file ≡ some to)
      × (file_consumer_init (λ n mode. some (held n)) source ≡ returns (held from))
      × (file_producer_init (λ n mode. some (held n)) sink ≡ returns (held to))
      × All (λ l. is_line l ≡ true) ls
      × (has_no_newline t ≡ true)
      × (consume_all (suc (length (held from))) errno (held from)
          ≡ some (map message_of (with_tail ls t)))
      × (produce_all (map message_of (with_tail ls t)) (held to) ≡ returns (held to ++ held from))
      × ((works : Bool) → file_producer_produce works (message_of []) (held to) ≡ aborts)
unfolding Reproduced
produce_all-consume_all held source sink errno hi ho =
    let (from, ei, ci, pi) = opened held source hi in
    let (to, eo, co, po) = opened held sink ho in
    let (ls, t, hs, ht, hc, hp) =
      copy_all (suc (length (held from))) errno (held from) (omega arith) in
    (from, to, ls, t, ei, eo, ci, po, hs, ht, hc, hp (held to), produce_empty (held to))
