-- ===== src/Memory/Again.antt =====
-- What the cache does to the recalls that follow.
use tallei_ai.Common.{
  text_eq→eq, true, sym, ◌≢◌, some_eq, List, Option, ℕ, Text, leb, false, arith, none, some,
  if◌then◌else◌, [], ◌∷◌, Settled, refl, ◌≡◌, ◌<◌, ◌+◌, ◌∙◌, ap, first_where, text_eq, text_eq_refl,
  Bool-cases, inl, inr, length,
}
use tallei_ai.Memory.Cache.{
  live, CachedRecall, get_cached_recall, set_cached_recall, set_entry, keyed, recall_ttl_ms,
  recall_cache_max_size, without_oldest,
}
use tallei_ai.Memory.RecallMemory.{
  after_redis, after_local, RecallMemoryUseCaseInput, RecallFailure, recall_memories, key_of,
  without_hints,
}
use tallei_ai.Recall.Results.{BucketRecallResult}
use tallei_ai.Memory.Forgetting.{read_found, first_where-kept}

module _ {R : Type 0} where
  first_where-set_entry :
      (e : CachedRecall R) (xs : List (CachedRecall R))
      → first_where (keyed e.key) (set_entry e xs) ≡ some e
  unfolding first_where set_entry
  first_where-set_entry e [] = rw (text_eq_refl e.key) refl
  first_where-set_entry e (x ∷ xs) = elim (Bool-cases (text_eq x.key e.key)) [
    | inl t ↦ rw (t, text_eq_refl e.key) refl
    | inr n ↦ rw (n, n) (first_where-set_entry e xs)
  ]

  get_cached_recall-set_cached_recall :
      (at now : ℕ) (key : Text) (r : R) (cache : List (CachedRecall R))
      → now < at + recall_ttl_ms
      → (get_cached_recall now key (set_cached_recall at key r cache)).0 ≡ some r
  unfolding get_cached_recall set_cached_recall
  get_cached_recall-set_cached_recall at now key r cache h =
      let e : CachedRecall R = record { key = key; result = r; exp = at + recall_ttl_ms } in
      let fresh : leb e.exp now ≡ false = ground (arith, h) in
      rw
        (
          first_where-set_entry e
              (if leb recall_cache_max_size (length cache) then without_oldest cache else cache),
          fresh,
        )
        refl

-- What other recalls do to the cache while they leave the entry of a key alone: they read and set other
-- keys, and set them while the cache is not full.
pub data Others {R : Type 0} (key : Text) (cache : List (CachedRecall R))
    : List (CachedRecall R) → Type 0 where
  quiet : Others key cache cache
  reads :
      {now_cached : List (CachedRecall R)} (now : ℕ) (other : Text)
      → other ≢ key
      → Others key cache now_cached
      → Others key cache (get_cached_recall now other now_cached).1
  sets :
      {now_cached : List (CachedRecall R)} (now : ℕ) (other : Text) (r : R)
      → other ≢ key
      → length now_cached < 500
      → Others key cache now_cached
      → Others key cache (set_cached_recall now other r now_cached)

apart : (k other : Text) (t : Text) → other ≢ k → text_eq t k ≡ true → text_eq t other ≡ false
apart k other t ne hit = elim (Bool-cases (text_eq t other)) [
  | inl e ↦ absurd (ne (sym (text_eq→eq t other e) ∙ text_eq→eq t k hit))
  | inr n ↦ n
]

module _ {R : Type 0} (key : Text) where
  set_entry-others :
      (e : CachedRecall R) (xs : List (CachedRecall R))
      → e.key ≢ key
      → first_where (keyed key) (set_entry e xs) ≡ first_where (keyed key) xs
  unfolding first_where set_entry
  set_entry-others e [] ne = elim (Bool-cases (text_eq e.key key)) [
    | inl t ↦ absurd (ne (text_eq→eq e.key key t))
    | inr n ↦ rw n refl
  ]
  set_entry-others e (x ∷ xs) ne =
      let rest = set_entry-others e xs ne in
      let mine : text_eq e.key key ≡ false = elim (Bool-cases (text_eq e.key key)) [
        | inl t ↦ absurd (ne (text_eq→eq e.key key t))
        | inr n ↦ n
      ] in
      elim (Bool-cases (text_eq x.key key)) [
        | inl hit ↦ rw (apart key e.key x.key ne hit, hit) refl
        | inr miss ↦ elim (Bool-cases (text_eq x.key e.key)) [
          | inl t ↦ rw (t, mine, miss) refl
          | inr n ↦ rw (n, miss) rest
        ]
      ]

  read-others :
      (now : ℕ) (other : Text) (cache : List (CachedRecall R)) (found : Option (CachedRecall R))
      → other ≢ key
      → first_where (keyed key) (live now other cache found).1 ≡ first_where (keyed key) cache
  read-others now other cache none ne = refl
  read-others now other cache (some e) ne = elim (Bool-cases (leb e.exp now)) [
    | inl old ↦
        rw old
          (first_where-kept (keyed key) (keyed other) cache (λ x hit. apart key other x.key ne hit))
    | inr fresh ↦ rw fresh refl
  ]

  Others-first_where :
      {cache after : List (CachedRecall R)}
      → Others key cache after
      → first_where (keyed key) after ≡ first_where (keyed key) cache
  unfolding get_cached_recall set_cached_recall
  Others-first_where Others.quiet = refl
  Others-first_where (Others.reads {now_cached} now other ne o) =
      read-others now other now_cached _ ne ∙ Others-first_where o
  Others-first_where (Others.sets {now_cached} now other r ne room o) =
      let free : leb recall_cache_max_size (length now_cached) ≡ false = ground (arith, room) in
      rw free (set_entry-others _ now_cached ne ∙ Others-first_where o)

  Others-get_cached_recall :
      (now : ℕ) {cache after : List (CachedRecall R)}
      → Others key cache after
      → (get_cached_recall now key after).0 ≡ (get_cached_recall now key cache).0
  unfolding get_cached_recall
  Others-get_cached_recall now {cache} {after} o =
      ap (λ f. (live now key after f).0) (Others-first_where o) ∙ read_found now key after cache _

module _ {S : Type 0} where
  after_local-missed :
      (later : ℕ) (key : Text) (redis_hit : Option (BucketRecallResult S))
      (buckets : Settled RecallFailure (BucketRecallResult S))
      (read : Option (BucketRecallResult S) × List (CachedRecall (BucketRecallResult S)))
      → read.0 ≡ none
      → after_local later key redis_hit buckets read
        ≡ after_redis later key buckets read.1 redis_hit
  after_local-missed later key redis_hit buckets (none, cache) e = refl
  after_local-missed later key redis_hit buckets (some r, cache) e = cc

  after_local-hit :
      (later : ℕ) (key : Text) (redis_hit : Option (BucketRecallResult S))
      (buckets : Settled RecallFailure (BucketRecallResult S))
      (read : Option (BucketRecallResult S) × List (CachedRecall (BucketRecallResult S)))
      {r : BucketRecallResult S}
      → read.0 ≡ some r
      → (after_local later key redis_hit buckets read).result ≡ r
  after_local-hit later key redis_hit buckets (none, cache) e = cc
  after_local-hit later key redis_hit buckets (some q, cache) e = some_eq q e

  after_redis-cached :
      (later now : ℕ) (key : Text) (redis_hit : Option (BucketRecallResult S))
      (buckets : Settled RecallFailure (BucketRecallResult S))
      (cache : List (CachedRecall (BucketRecallResult S)))
      → now < later + recall_ttl_ms
      → (r : BucketRecallResult S) × ((get_cached_recall now key
            (after_redis later key buckets cache redis_hit).cache).0
          ≡ some r)
        × (without_hints r ≡ without_hints (after_redis later key buckets cache redis_hit).result)
  after_redis-cached later now key none buckets cache h =
      (_, get_cached_recall-set_cached_recall later now key _ cache h, refl)
  after_redis-cached later now key (some hit) buckets cache h =
      (hit, get_cached_recall-set_cached_recall later now key hit cache h, refl)

  -- After a recall that was not in the cache of the process, and for ten minutes, the next recall with the
  -- same key gives the same context and memories, whatever Redis and the buckets would answer by then;
  -- also where the first recall failed, and gave back no memories. In between, recalls with other keys
  -- may read the cache, and write to it while it has fewer than 500 entries.
  pub recall_memories_again :
      (at later now after : ℕ) (i : RecallMemoryUseCaseInput)
      (redis_hit redis_hit' : Option (BucketRecallResult S))
      (buckets buckets' : Settled RecallFailure (BucketRecallResult S))
      (cache cache' : List (CachedRecall (BucketRecallResult S)))
      → (get_cached_recall at (key_of i) cache).0 ≡ none
      → now < later + 600_000
      → Others (key_of i) (recall_memories at later i redis_hit buckets cache).cache cache'
      → without_hints (recall_memories now after i redis_hit' buckets' cache').result
        ≡ without_hints (recall_memories at later i redis_hit buckets cache).result
  unfolding recall_memories
  recall_memories_again at later now after i redis_hit redis_hit' buckets buckets' cache cache' miss
        h between =
      let first =
        after_local-missed later (key_of i) redis_hit buckets
          (get_cached_recall at (key_of i) cache) miss in
      let (r, found, same) =
        after_redis-cached later now (key_of i) redis_hit buckets
          (get_cached_recall at (key_of i) cache).1 h in
      let kept = Others-get_cached_recall (key_of i) now between in
      let hit = kept ∙ ap (λ x. (get_cached_recall now (key_of i) x.cache).0) first ∙ found in
      ap without_hints (after_local-hit after (key_of i) redis_hit' buckets' _ hit)
      ∙ same
      ∙ ap (λ x. without_hints x.result) (sym first)
