-- ===== src/File.antt =====
-- src/file.c: the consumer that reads a file line by line, the producer that appends to one, and
-- their validator. Whether the C library can open, read and write is an argument; a file is the list
-- of its bytes, and for a consumer of those that it has not read yet.
pub mod Copy
mod Tests
use schaufel.Common.{
  ℕ, ◌+◌, ◌-◌, ◌%◌, ◌^◌, Bool, true, false, not, ◌&&◌, Option, none, some, List, [], ◌∷◌, ◌++◌,
  length, take, codes, ltb, ◌==◌, if◌then◌else◌,
}
use schaufel.Connection.{Port}

abbrev pub Str : Type 0
Str = List ℕ

-- `struct Message`, with the bytes that its payload points to.
pub record Line : Type 0 where
  pub payload : Option Str
  pub datalen : ℕ

-- The settings that the validator reads, where they have the type that it asks for.
pub record Settings : Type 0 where
  pub threads : Option Port
  pub file : Option Str

-- The process aborts, or passes on NULL or reads past a buffer, or the call returns.
pub data Outcome (A : Type 0) : Type 0 where
  aborts faults : Outcome A
  returns : A → Outcome A

-- `t > 1`, of an int that is 0 without the setting.
abbrev pub many_threads : Option Port → Bool
many_threads none = false
many_threads (some n) = not n.negative && ltb 1 n.size

abbrev pub has_name : Option Str → Bool
has_name none = false
has_name (some []) = false
has_name (some (c ∷ cs)) = true

unfoldable pub file_validate : Settings → Bool
file_validate s = if many_threads s.threads then false else has_name s.file

-- `file_meta_init`: fopen gives the content for a name and a mode, or fails.
unfoldable pub file_meta_init : (Str → Str → Option Str) → Option Str → Str → Outcome Str
file_meta_init fopen none mode = faults
file_meta_init fopen (some name) mode = elim (fopen name mode) [
  | none ↦ aborts
  | some content ↦ returns content
]

unfoldable pub file_consumer_init : (Str → Str → Option Str) → Settings → Outcome Str
file_consumer_init fopen s = file_meta_init fopen s.file (codes "r")

unfoldable pub file_producer_init : (Str → Str → Option Str) → Settings → Outcome Str
file_producer_init fopen s = file_meta_init fopen s.file (codes "a")

-- What getline reads: up to the next '\n' and with it, or all that there is.
abbrev pub with_byte : ℕ → Str × Str → Str × Str
with_byte c (line, rest) = (c ∷ line, rest)

unfoldable pub next_line : Str → Str × Str
next_line [] = ([], [])
next_line (c ∷ cs) = elim (c == 10) [ true ↦ (c ∷ [], cs) | false ↦ with_byte c (next_line cs) ]

-- `works` says whether it can read and has memory.
abbrev getline : Bool → Str → Option (Str × Str)
getline false s = none
getline true [] = none
getline true (c ∷ cs) = some (next_line (c ∷ cs))

-- `int8_t err = errno; ... errno = err;`, of the bit pattern of an int.
unfoldable pub restored : ℕ → ℕ
restored errno = let b = errno % 2 ^ 8 in if ltb b (2 ^ 7) then b else 2 ^ 32 - 2 ^ 8 + b

-- The result -1, with the message as it was, or 0, with what is left of the file, errno and the message.
pub data Read : Type 0 where
  stops : Read
  reads : Str → ℕ → Line → Read

abbrev pub message_of : Str → Line
message_of line = record { payload = some (line ++ (0 ∷ [])); datalen = length line }

unfoldable pub file_consumer_consume : Bool → ℕ → Str → Read
file_consumer_consume works errno s = elim (getline works s) [
  | none ↦ stops
  | some read ↦ reads read.1 (restored errno) (message_of read.0)
]

-- fwrite of one item of `len` bytes gives 0 for `len` 0, and where it fails.
abbrev fwrite : Bool → Str → ℕ → Str → Option Str
fwrite works buf len file = if works && not (len == 0) then some (file ++ take len buf) else none

unfoldable pub file_producer_produce : Bool → Line → Str → Outcome Str
file_producer_produce works msg file = elim msg.payload [
  | none ↦ if msg.datalen == 0 then aborts else faults
  | some buf ↦
      if ltb (length buf) msg.datalen
      then faults
      else elim (fwrite works buf msg.datalen file) [ none ↦ aborts | some file' ↦ returns file' ]
]
