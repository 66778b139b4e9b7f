-- ===== src/RateLimit/Tests.antt =====
-- Requests to the rate limiter, and the theorems on them.
use tallei_ai.Common.{delete_where, first_where, refl, arith, ◌≡◌, [], ◌∷◌, false, true}
use tallei_ai.RateLimit.{
  failed, counted, count_request, RateLimitOptions, Limiter, rate_limit, RedisConfig,
}
use tallei_ai.RateLimit.Laws.{rate_limit-unconnected, rate_limit-IsOver, IsOver}

abbrev options : RateLimitOptions
options = record { namespace = "mcp"; window_seconds = 60; max_requests = 2 }

abbrev online : RedisConfig
online = record { failure_cooldown_ms = 5_000; connected = true }

abbrev offline : RedisConfig
offline = record { failure_cooldown_ms = 5_000; connected = false }

abbrev busy : Limiter
busy = record {
  local = record { key = "k"; count = 7; exp = 90_000 } ∷ [];
  redis_disabled_until = 0;
}

turns_away : (rate_limit online options 100 "k" (counted 3) true busy).0 ≡ false
unfolding rate_limit count_request first_where delete_where
turns_away = refl

rate_limit-IsOver_example : IsOver online options 100 "k" (counted 3) true busy
rate_limit-IsOver_example =
    rate_limit-IsOver online options 100 "k" (counted 3) true busy (omega arith) turns_away

rate_limit-unconnected_example : (rate_limit offline options 100 "k" failed true busy).0 ≡ true
rate_limit-unconnected_example =
    rate_limit-unconnected offline options 100 "k" failed busy (omega arith) refl
