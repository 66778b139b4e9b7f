-- ===== src/Memory/RecallMemory.antt =====
-- The recall of memories through its caches: src/orchestration/memory/recall.usecase.ts, as
-- src/services/memory.ts builds it. The timings, the events and the shadow checks are left out.
use tallei_ai.Common.{
  List, Bool, Option, ℕ, Text, AuthContext, Plan, free, pro, power, codes, leb, ◌&&◌, not, true,
  false, min, max, none, some, if◌then◌else◌, [], Settled, resolved, rejected,
}
use tallei_ai.Memory.Cache.{
  CachedRecall, get_cached_recall, set_cached_recall, recall_cache_key, normalize_recall_query,
}
use tallei_ai.Recall.Results.{BucketRecallResult}

pub record RecallMemoryUseCaseInput : Type 0 where
  pub query : Text
  pub auth : AuthContext
  pub limit : Option ℕ
  pub types : List Text

pub data RecallFailure : Type 0 where
  quota_exceeded timed_out failed : RecallFailure

abbrev is_free : Plan → Bool
is_free free = true
is_free pro = false
is_free power = false

-- `countMonthlyEvents(auth.tenantId, "recall")` has been counted; `answer` is what the buckets say.
unfoldable pub bucket_recall_within_quota :
    {A : Type 0} (eval_mode : Bool)
    → AuthContext
    → (count : ℕ) → Settled RecallFailure A
    → Settled RecallFailure A
bucket_recall_within_quota eval_mode auth count answer =
    if not eval_mode && (is_free auth.plan && leb 200 count)
    then rejected quota_exceeded
    else answer

abbrev bounded_limit : Option ℕ → ℕ
bounded_limit none = 5
bounded_limit (some n) = min 20 (max 1 n)

unfoldable pub key_of : RecallMemoryUseCaseInput → Text
key_of i = recall_cache_key i.auth (normalize_recall_query i.query) (bounded_limit i.limit) i.types

-- What a recall gives back, the cache after it, and what it writes to Redis.
pub record Recalled (S : Type 0) : Type 0 where
  pub result : BucketRecallResult S
  pub cache : List (CachedRecall (BucketRecallResult S))
  pub written : Option (BucketRecallResult S)

module _ {S : Type 0} where
  abbrev pub empty_result : BucketRecallResult S
  empty_result = record {
    context_block = codes "--- No relevant memories found ---";
    memories = [];
    conflict_hints = [];
  }

  abbrev pub without_hints : BucketRecallResult S → BucketRecallResult S
  without_hints r = record r { conflict_hints = [] }

  abbrev pub answer_or_empty : Settled RecallFailure (BucketRecallResult S) → BucketRecallResult S
  answer_or_empty (resolved r) = r
  answer_or_empty (rejected e) = empty_result

  abbrev pub after_redis :
      (later : ℕ)
      → (key : Text) → Settled RecallFailure (BucketRecallResult S)
      → List (CachedRecall (BucketRecallResult S))
      → Option (BucketRecallResult S)
      → Recalled S
  after_redis later key buckets cache (some hit) = record {
    result = hit;
    cache = set_cached_recall later key hit cache;
    written = none;
  }
  after_redis later key buckets cache none = record {
    result = answer_or_empty buckets;
    cache = set_cached_recall later key (without_hints (answer_or_empty buckets)) cache;
    written = some (without_hints (answer_or_empty buckets));
  }

  abbrev pub after_local :
      (later : ℕ)
      → (key : Text) → (redis_hit : Option (BucketRecallResult S))
      → Settled RecallFailure (BucketRecallResult S)
      → Option (BucketRecallResult S) × List (CachedRecall (BucketRecallResult S))
      → Recalled S
  after_local later key redis_hit buckets (some hit, cache) = record {
    result = hit;
    cache = cache;
    written = none;
  }
  after_local later key redis_hit buckets (none, cache) =
      after_redis later key buckets cache redis_hit

  -- `now` is when the cache is read, `later` when it is written.
  unfoldable pub recall_memories :
      (now later : ℕ)
      → RecallMemoryUseCaseInput
      → (redis_hit : Option (BucketRecallResult S)) → Settled RecallFailure (BucketRecallResult S)
      → List (CachedRecall (BucketRecallResult S))
      → Recalled S
  recall_memories now later input redis_hit buckets cache =
      after_local later (key_of input) redis_hit buckets
        (get_cached_recall now (key_of input) cache)
