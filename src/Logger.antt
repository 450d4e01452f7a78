-- ===== src/Logger.antt =====
-- `logger_log` of src/utils/logger.c: the line that it puts together in `log_buffer`, each write with
-- its bound. What strftime and vsnprintf print are arguments.
pub mod Line
pub mod Config
mod Tests
use schaufel.Common.{
  ℕ, zero, suc, ◌+◌, ◌-◌, Bool, true, false, Option, none, some, List, [], ◌∷◌, ◌++◌, length, take,
  ltb, ◌==◌, if◌then◌else◌, ◌>>=◌,
}

abbrev pub log_buffer_size : ℕ
log_buffer_size = 4096

-- `log_buffer` has two bytes more.
abbrev pub Buffer : Type 0
Buffer = ℕ → ℕ

-- A write of one byte, and of the bytes of a string; `none` is one outside the buffer.
abbrev pub write_byte : Buffer → ℕ → ℕ → Option Buffer
write_byte buf i c =
    if ltb i (log_buffer_size + 2) then some (λ j. (if i == j then c else buf j)) else none

unfoldable pub write_bytes : Buffer → ℕ → List ℕ → Option Buffer
write_bytes buf i [] = some buf
write_bytes buf i (c ∷ cs) = write_byte buf i c >>= λ b. write_bytes b (i + 1) cs

-- The bytes from `i` on.
abbrev pub read : Buffer → ℕ → ℕ → List ℕ
read buf i zero = []
read buf i (suc n) = buf i ∷ read buf (i + 1) n

-- `buffer_set_timestamp`: strftime gives 0 if the time, with its NUL, does not fit. `stamp` is the
-- time, or `none` where the logger prints none.
abbrev pub stamp_of : Option (List ℕ) → List ℕ
stamp_of none = []
stamp_of (some stamp) = if ltb (length stamp) log_buffer_size then stamp else []

unfoldable pub buffer_set_timestamp : Buffer → Option (List ℕ) → Option (Buffer × ℕ)
buffer_set_timestamp buf stamp = do
  b ← write_bytes buf 0 (stamp_of stamp ++ (0 ∷ []))
  some (b, length (stamp_of stamp))

-- The two bytes after the text, which ends at `len` at the most; the result is what the log
-- functions are given.
unfoldable pub end_line : Buffer → ℕ → Option (List ℕ)
end_line buf len =
    let capped = if ltb log_buffer_size len then log_buffer_size else len in
    write_bytes buf capped (10 ∷ 0 ∷ []) >>= λ b. some (read b 0 (capped + 2))

-- `logger_log`; `text` is what vsnprintf would print with room enough, or `none` for its error, of
-- which it returns -1. An index of -1 is outside the buffer.
unfoldable pub logger_log : Buffer → Option (List ℕ) → Option (List ℕ) → Option (List ℕ)
logger_log buf stamp text = do
  stamped ← buffer_set_timestamp buf stamp
  elim text [
    | none ↦ if stamped.1 == 0 then none else end_line (stamped.0) (stamped.1 - 1)
    | some t ↦ do
      printed ←
          write_bytes (stamped.0) (stamped.1) (take (log_buffer_size - stamped.1 - 1) t ++ (0 ∷ []))
      end_line printed (stamped.1 + length t)
  ]

-- `log_fd`: the bytes that are written to the file.
abbrev pub log_fd : List ℕ → List ℕ
log_fd line =
    let len = length line in
    take ((if ltb (log_buffer_size + 2) len then log_buffer_size + 2 else len) - 1) line
