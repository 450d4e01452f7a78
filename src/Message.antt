-- ===== src/Message.antt =====
-- src/queue.c, `struct Message` and its accessors, and src/utils/metadata.c as far as the owner of
-- a message sees it: which blocks are freed. A pointer is `none` for NULL, or the block's number.
use schaufel.Common.{ℕ, Option, none, some, List, [], ◌∷◌}

-- `data` and `metadata` are pointers. `xmark` is the bit pattern of the int64_t, below 2 ^ 64.
pub record Message : Type 0 where
  pub payload : Option ℕ
  pub datalen : ℕ
  pub xmark : ℕ
  pub metadata : Option ℕ

-- What calloc returns: every field zero.
abbrev pub message_zero : Message
message_zero = record { payload = none; datalen = 0; xmark = 0; metadata = none }

-- `message_init`: the argument says whether calloc succeeds.
pub message_init : Option ℕ → Option Message
message_init none = none
message_init (some p) = some message_zero

pub message_get_metadata : Option Message → Option (Option ℕ)
message_get_metadata none = none
message_get_metadata (some m) = some m.metadata

pub message_set_metadata : Option Message → Option ℕ → Option Message
message_set_metadata none md = none
message_set_metadata (some m) md = some (record m { metadata = md })

pub message_get_data : Option Message → Option ℕ
message_get_data none = none
message_get_data (some m) = m.payload

pub message_set_data : Option Message → Option ℕ → Option Message
message_set_data none d = none
message_set_data (some m) d = some (record m { payload = d })

pub message_set_len : Option Message → ℕ → Option Message
message_set_len none n = none
message_set_len (some m) n = some (record m { datalen = n })

pub message_get_len : Option Message → ℕ
message_get_len none = 0
message_get_len (some m) = m.datalen

pub message_get_xmark : Option Message → ℕ
message_get_xmark none = 0
message_get_xmark (some m) = m.xmark

pub message_set_xmark : Option Message → ℕ → Option Message
message_set_xmark none x = none
message_set_xmark (some m) x = some (record m { xmark = x })

-- A block given back to the allocator: a payload, or a metadata table with its items.
pub data Block : Type 0 where
  payload_at : ℕ → Block
  table_at : ℕ → Block

-- `free(data)`: NULL is no block.
abbrev pub free_data : Option ℕ → List Block
free_data none = []
free_data (some p) = payload_at p ∷ []

-- `metadata_free`: the pointer that it is given the address of is left as it is.
abbrev pub metadata_free : Option ℕ → List Block
metadata_free none = []
metadata_free (some p) = table_at p ∷ []
