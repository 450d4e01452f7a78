-- ===== src/Redis.antt =====
-- src/redis.c: commands to the server are pipelined, and their replies are read later. Whether the
-- client library can append a command, and what it replies, are arguments.
pub mod Pipeline
mod Tests
use schaufel.Common.{
  ℕ, zero, suc, ◌+◌, ◌-◌, Bool, true, false, not, ◌&&◌, ◌||◌, Option, none, some, List, [], ◌∷◌,
  ◌++◌, ltb, leb, ◌==◌, if◌then◌else◌,
}

-- `struct Meta`, with the state of the connection: `outstanding` commands have no reply yet, and
-- `replied` replies were read.
pub record RedisMeta : Type 0 where
  pub pipe_cur : ℕ
  pub pipe_max : ℕ
  pub pipe_full : Bool
  pub outstanding : ℕ
  pub replied : ℕ

-- How a call ends. A read of a reply that no command asked for does not return.
pub data Ended (A : Type 0) : Type 0 where
  aborts : Ended A
  blocks : Ended A
  returns : A → Ended A

-- What the server replies: an array of strings, or anything else.
pub data Reply : Type 0 where
  array : List (List ℕ) → Reply
  other : Reply

-- `redis_meta_init`, where the connection is made.
abbrev pub redis_meta_init : ℕ → RedisMeta
redis_meta_init pipe_max = record {
  pipe_cur = 0;
  pipe_max = pipe_max;
  pipe_full = false;
  outstanding = 0;
  replied = 0;
}

-- `redisAppendCommand`, and the counter of the caller.
abbrev pub append_command : RedisMeta → RedisMeta
append_command m = record m { outstanding = suc m.outstanding; pipe_cur = suc m.pipe_cur }

-- `redis_meta_get_reply`, and the counter of the caller; `ok` says whether redisGetReply succeeds.
abbrev pub read_at : ℕ → Bool → RedisMeta → Ended RedisMeta
read_at zero ok m = blocks
read_at (suc n) false m = aborts
read_at (suc n) true m =
    returns (record m { outstanding = n; replied = m.replied + 1; pipe_cur = m.pipe_cur - 1 })

unfoldable pub redis_meta_get_reply : Bool → RedisMeta → Ended RedisMeta
redis_meta_get_reply ok m = read_at m.outstanding ok m

-- The loop of `redis_meta_check_pipeline`, `n` times; `ok n` is the result of the read at which `n`
-- more follow.
unfoldable pub drain : ℕ → (ℕ → Bool) → RedisMeta → Ended RedisMeta
drain zero ok m = returns m
drain (suc n) ok m = elim (redis_meta_get_reply (ok n) m) [
  | aborts ↦ aborts
  | blocks ↦ blocks
  | returns m' ↦ drain n ok m'
]

unfoldable pub redis_meta_check_pipeline : Bool → (ℕ → Bool) → RedisMeta → Ended RedisMeta
redis_meta_check_pipeline lazy ok m =
    if m.pipe_cur == 0
    then returns m
    else if lazy && ltb m.pipe_cur m.pipe_max
    then returns m
    else drain m.pipe_cur ok m

-- `redis_producer_produce`: `sends` says whether redisCommand or redisAppendCommand succeeds. The
-- former sends a command and reads its reply.
unfoldable pub redis_produce : Bool → (ℕ → Bool) → RedisMeta → Ended RedisMeta
redis_produce false ok m = aborts
redis_produce true ok m =
    if m.pipe_max == 0
    then returns (record m { replied = m.replied + 1 })
    else redis_meta_check_pipeline true ok (append_command m)

-- `redis_consumer_handle_reply`: the payload that the message has afterwards, a copy that a NUL ends.
-- `none` for the reply is the NULL pointer, and for `room` an allocation that fails is false; both
-- abort.
unfoldable pub handle_reply : Bool → Option Reply → Option (List ℕ) → Ended (Option (List ℕ))
handle_reply room none payload = aborts
handle_reply room (some (array (key ∷ value ∷ []))) payload =
    if room then returns (some (value ++ (0 ∷ []))) else aborts
handle_reply room (some _) payload = returns payload

abbrev with_state : RedisMeta → Ended (Option (List ℕ)) → Ended (RedisMeta × Option (List ℕ))
with_state m aborts = aborts
with_state m blocks = blocks
with_state m (returns p) = returns (m, p)

-- The second half of `redis_consumer_consume`, from `if (m->pipe_full)` on.
abbrev lower_full : RedisMeta → RedisMeta
lower_full m = if m.pipe_cur == 0 then record m { pipe_full = false } else m

abbrev deliver :
    Bool → Option Reply → Option (List ℕ) → Ended RedisMeta → Ended (RedisMeta × Option (List ℕ))
deliver room reply payload aborts = aborts
deliver room reply payload blocks = blocks
deliver room reply payload (returns m) = with_state (lower_full m) (handle_reply room reply payload)

abbrev pub is_some : Option Reply → Bool
is_some none = false
is_some (some _) = true

-- `redis_consumer_consume`, from the message's payload to the payload afterwards. `reply` is what
-- redisGetReply or redisCommand gives: `none` is an error.
unfoldable pub redis_consume :
    Bool → Bool → Option Reply → RedisMeta → Option (List ℕ) → Ended (RedisMeta × Option (List ℕ))
redis_consume sends room reply m payload =
    let asked = if ltb m.pipe_cur m.pipe_max then append_command m else m in
    let full = asked.pipe_full || leb asked.pipe_max asked.pipe_cur in
    let marked = record asked { pipe_full = full } in
    if m.pipe_max == 0
    then with_state (record m { replied = m.replied + 1 }) (handle_reply room reply payload)
    else if ltb m.pipe_cur m.pipe_max && not sends
    then aborts
    else if full
    then deliver room reply payload (redis_meta_get_reply (is_some reply) marked)
    else returns (marked, payload)
