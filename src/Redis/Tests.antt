-- ===== src/Redis/Tests.antt =====
-- Runs of src/redis.c on concrete pipelines.
use schaufel.Common.{◌+◌, ◌≤◌, ◌≡◌, refl, true, false, none, some}
use schaufel.Redis.{
  RedisMeta, returns, other, redis_meta_init, redis_meta_check_pipeline, redis_consume,
  redis_produce, redis_meta_get_reply, drain, handle_reply,
}
use schaufel.Redis.Pipeline.{synced, produce_all, produce_all_lem}

-- Five messages, a pipeline of three
produce_all_example :
    (m : RedisMeta) × (produce_all 5 (redis_meta_init 3) ≡ returns m)
    × (m.outstanding ≤ 2)
    × (m.outstanding + m.replied ≡ 5)
    × (redis_meta_check_pipeline false (λ _. true) m ≡ returns (synced 0 3 5 false))
produce_all_example = produce_all_lem 3 5

five_messages : produce_all 5 (redis_meta_init 3) ≡ returns (synced 2 3 3 false)
unfolding produce_all redis_produce redis_meta_check_pipeline drain redis_meta_get_reply
five_messages = refl

-- A timed-out BLPOP leaves the message without a payload.
no_message :
    redis_consume true true (some other) (redis_meta_init 0) none
    ≡ returns (record (redis_meta_init 0) { replied = 1 }, none)
unfolding redis_consume handle_reply
no_message = refl
