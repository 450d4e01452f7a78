-- ===== src/Helper.antt =====
-- src/utils/helper.c: text of a payload made safe for the database. Bytes are numbers below 256.
pub mod Utf8
pub mod Escape
mod Tests
use Prim.Native.Nat.{bit_and}
use schaufel.Common.{
  ℕ, zero, suc, ◌+◌, ◌-◌, ◌/◌, ◌*◌, ◌%◌, ◌<◌, Bool, true, false, not, ◌&&◌, ◌||◌, List, [], ◌∷◌,
  ◌++◌, length, take, drop, ltb, leb, ◌==◌, if◌then◌else◌,
}

-- The results of `sanitize_utf8`: -1, 0 and 1. `running` is a loop without fuel.
pub data Status : Type 0 where
  running embedded_nul clean repaired : Status

pub record Sanitized : Type 0 where
  pub status : Status
  pub buf : List ℕ

-- `seqlen`, from the lead byte.
unfoldable pub seq_len : ℕ → ℕ
seq_len c0 =
    if bit_and c0 0xE0 == 0xC0
    then 2
    else if bit_and c0 0xF0 == 0xE0
    then 3
    else if bit_and c0 0xF8 == 0xF0
    then 4
    else 0

unfoldable pub is_continuation : ℕ → Bool
is_continuation c = bit_and c 0xC0 == 0x80

-- `valid` for each `seqlen`, from the lead byte and what follows it in the buffer. A sequence that
-- does not fit into the buffer is the last clause.
abbrev pub valid_two : ℕ → List ℕ → Bool
valid_two c0 (c1 ∷ _) = is_continuation c1 && leb 0xC2 c0
valid_two c0 _ = false

abbrev pub valid_three : ℕ → List ℕ → Bool
valid_three c0 (c1 ∷ c2 ∷ _) =
    is_continuation c1
    && (is_continuation c2 && (not (c0 == 0xE0 && ltb c1 0xA0) && not (c0 == 0xED && ltb 0x9F c1)))
valid_three c0 _ = false

abbrev pub valid_four : ℕ → List ℕ → Bool
valid_four c0 (c1 ∷ c2 ∷ c3 ∷ _) =
    is_continuation c1
    && (is_continuation c2
        && (is_continuation c3
            && (leb c0 0xF4
                && (not (c0 == 0xF0 && ltb c1 0x90) && not (c0 == 0xF4 && ltb 0x8F c1)))))
valid_four c0 _ = false

abbrev pub is_valid : ℕ → ℕ → List ℕ → Bool
is_valid n c0 cs =
    if n == 2
    then valid_two c0 cs
    else if n == 3
    then valid_three c0 cs
    else if n == 4
    then valid_four c0 cs
    else false

-- How many bytes one round of the loop passes.
abbrev pub advance : ℕ → List ℕ → ℕ
advance c0 cs = if ltb c0 0x80 then 1 else if is_valid (seq_len c0) c0 cs then seq_len c0 else 1

abbrev pub is_bad : ℕ → List ℕ → Bool
is_bad c0 cs = not (ltb c0 0x80) && not (is_valid (seq_len c0) c0 cs)

abbrev pub prepend : List ℕ → Sanitized → Sanitized
prepend bs r = record r { buf = bs ++ r.buf }

-- The loop, with the part of the buffer from `i` on. '?' is 63.
unfoldable pub sanitize_from : ℕ → Bool → List ℕ → Sanitized
sanitize_from fuel dirty [] = record { status = if dirty then repaired else clean; buf = [] }
sanitize_from zero dirty (c0 ∷ cs) = record { status = running; buf = c0 ∷ cs }
sanitize_from (suc fuel) dirty (c0 ∷ cs) =
    let n = advance c0 cs in
    let r = sanitize_from fuel (dirty || is_bad c0 cs) (drop (n - 1) cs) in
    if c0 == 0
    then record { status = embedded_nul; buf = c0 ∷ cs }
    else prepend ((if is_bad c0 cs then 63 else c0) ∷ take (n - 1) cs) r

-- `sanitize_utf8`: a round passes a byte at least, so the length of the buffer is fuel enough.
unfoldable pub sanitize_utf8 : List ℕ → Sanitized
sanitize_utf8 buf = sanitize_from (length buf) false buf

-- "\\u0000"
abbrev pub null_escape : List ℕ
null_escape = 92 ∷ 117 ∷ 48 ∷ 48 ∷ 48 ∷ 48 ∷ []

abbrev pub starts_with : List ℕ → List ℕ → Bool
starts_with [] cs = true
starts_with (a ∷ p) [] = false
starts_with (a ∷ p) (c ∷ cs) = a == c && starts_with p cs

-- The loop of `repair_null_escape`, over the string that strstr searches: `skip` bytes are left of
-- those that memset overwrites. A NUL ends the string.
unfoldable pub repair_from : ℕ → List ℕ → List ℕ
repair_from skip [] = []
repair_from (suc skip) (c ∷ cs) = 63 ∷ repair_from skip cs
repair_from zero (c ∷ cs) =
    let found = starts_with null_escape (c ∷ cs) in
    let rest = repair_from (if found then 5 else 0) cs in
    if c == 0 then c ∷ cs else (if found then 63 else c) ∷ rest

-- `repair_null_escape`, without its result, which no caller reads.
abbrev pub repair_null_escape : List ℕ → List ℕ
repair_null_escape buf = repair_from 0 buf
