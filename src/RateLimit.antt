-- ===== src/RateLimit.antt =====
-- src/transport/http/middleware/rate-limit.middleware.ts, with `incrementWithTtl` and the cooldown of
-- src/infrastructure/cache/redis-cache.ts. The key of a request, made of its namespace, window,
-- address and credentials, is given; so is what Redis answers to a command, if it answers: the
-- counter's value. A request reads the clock once, in milliseconds.
pub mod Laws
mod Tests
use tallei_ai.Common.{
  none, update_where, some, ◌/◌, ◌∷◌, ◌||◌, leb, first_where, Option, ◌*◌, delete_where, ◌&&◌,
  str_eq, not, ltb, max, if◌then◌else◌, ◌+◌, Bool, List, ℕ, String,
}

pub record RateLimitOptions : Type 0 where
  pub namespace : String
  pub window_seconds : ℕ
  pub max_requests : ℕ

pub record LocalRateLimitEntry : Type 0 where
  pub key : String
  pub count : ℕ
  pub exp : ℕ

-- What the two modules keep: the counters of the process, and until when Redis is left alone.
pub record Limiter : Type 0 where
  pub local : List LocalRateLimitEntry
  pub redis_disabled_until : ℕ

-- A command of Redis: its answer, no answer, or none in the 40 milliseconds that the caller waits.
pub data Reply : Type 0 where
  counted : ℕ → Reply
  failed : Reply

-- `config.redisFailureCooldownMs`, and whether a URL is configured and the connection works
pub record RedisConfig : Type 0 where
  pub failure_cooldown_ms : ℕ
  pub connected : Bool

pub data Source : Type 0 where
  redis local_bucket redis_threshold redis_timeout_fail_open : Source

unfoldable pub should_skip_redis : ℕ → Limiter → Bool
should_skip_redis now l = ltb now l.redis_disabled_until

unfoldable pub disable_redis_temporarily : RedisConfig → ℕ → Limiter → Limiter
disable_redis_temporarily c now l = record l {
  redis_disabled_until = now + max 1_000 c.failure_cooldown_ms;
}

abbrev answered : RedisConfig → ℕ → Limiter → Reply → ℕ × Limiter
answered c now l (counted n) = (n, l)
answered c now l failed = (1, disable_redis_temporarily c now l)

-- Every failure counts as the first request: the function never throws.
unfoldable pub increment_with_ttl : RedisConfig → ℕ → Reply → Limiter → ℕ × Limiter
unfolding should_skip_redis disable_redis_temporarily
increment_with_ttl c now reply l =
    if not c.connected || should_skip_redis now l then (1, l) else answered c now l reply

abbrev pub at_key : String → LocalRateLimitEntry → Bool
at_key key e = str_eq e.key key

abbrev expired : String → ℕ → LocalRateLimitEntry → Bool
expired key now e = at_key key e && leb e.exp now

unfoldable pub cleanup_local_rate_limit :
    ℕ → String → List LocalRateLimitEntry → List LocalRateLimitEntry
cleanup_local_rate_limit now key local = delete_where (expired key now) local

unfoldable pub can_use_local_sampling : RateLimitOptions → Bool
can_use_local_sampling o = str_eq o.namespace "mcp" || str_eq o.namespace "memory-api"

unfoldable pub should_use_soft_timeout : RateLimitOptions → Bool
should_use_soft_timeout o = str_eq o.namespace "memory-api"

-- `Map.set`
unfoldable pub sync_local_sample :
    ℕ → String → (count ttl_seconds : ℕ) → List LocalRateLimitEntry → List LocalRateLimitEntry
sync_local_sample now key count ttl local =
    record { key = key; count = count; exp = now + ttl * 1_000 } ∷ delete_where (at_key key) local

bumped :
    ℕ
    → String
    → ℕ
    → List LocalRateLimitEntry
    → Option LocalRateLimitEntry
    → ℕ × List LocalRateLimitEntry
bumped now key ttl local none =
    (1, record { key = key; count = 1; exp = now + ttl * 1_000 } ∷ local)
bumped now key ttl local (some e) =
    (e.count + 1, update_where (at_key key) (λ x. record x { count = e.count + 1 }) local)

unfoldable pub bump_local_count :
    ℕ → String → (ttl_seconds : ℕ) → List LocalRateLimitEntry → ℕ × List LocalRateLimitEntry
unfolding cleanup_local_rate_limit bumped
bump_local_count now key ttl local =
    let cleaned = cleanup_local_rate_limit now key local in
    bumped now key ttl cleaned (first_where (at_key key) cleaned)

-- `Math.floor(maxRequests * 0.8)`, at least 1
unfoldable pub threshold : RateLimitOptions → ℕ
threshold o = max 1 (o.max_requests * 4 / 5)

-- The middleware before its verdict: the source of the count, the count, and the counters after it.
-- `in_time` is whether the increment came back within the soft timeout.
unfoldable pub count_request :
    RedisConfig
    → RateLimitOptions
    → ℕ
    → String
    → Reply
    → (in_time : Bool) → Limiter
    → Source × ℕ × Limiter
unfolding bump_local_count increment_with_ttl sync_local_sample can_use_local_sampling
    should_use_soft_timeout threshold
count_request c o now key reply in_time l =
    let ttl : ℕ = o.window_seconds + 2 in
    let (local_count, local) = bump_local_count now key ttl l.local in
    let l' : Limiter = record l { local = local } in
    let (n, l'') = increment_with_ttl c now reply l' in
    let (n', direct) = increment_with_ttl c now reply l in
    let synced = λ (count : ℕ). record l'' { local = sync_local_sample now key count ttl local } in
    if can_use_local_sampling o
    then (if leb local_count (threshold o)
        then (local_bucket, local_count, l'')
        else if should_use_soft_timeout o
        then (if in_time
            then (redis_threshold, n, synced n)
            else (redis_timeout_fail_open, local_count, synced local_count))
        else (redis_threshold, n, synced n))
    else (redis, n', direct)

-- `true` calls the next handler, `false` answers 429
unfoldable pub rate_limit :
    RedisConfig
    → RateLimitOptions
    → ℕ
    → String
    → Reply
    → (in_time : Bool) → Limiter
    → Bool × Limiter
unfolding count_request
rate_limit c o now key reply in_time l =
    let (_, count, l') = count_request c o now key reply in_time l in (leb count o.max_requests, l')
