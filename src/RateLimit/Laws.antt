-- ===== src/RateLimit/Laws.antt =====
-- When the rate limiter turns a request away, and what it does without Redis.
use tallei_ai.Common.{
  inl, inr, Bool-cases, ◌+◌, refl, true, ◌⊎◌, false, arith, ◌<◌, ◌≡◌, ◌≤◌, Bool, leb, ℕ, String,
}
use tallei_ai.RateLimit.{
  should_use_soft_timeout, can_use_local_sampling, failed, bump_local_count, counted, count_request,
  Limiter, rate_limit, threshold, increment_with_ttl, Reply, RateLimitOptions, RedisConfig,
}

module _ (c : RedisConfig) (o : RateLimitOptions) (now : ℕ) (key : String) where
  -- Why a request may be turned away.
  abbrev pub IsOver : Reply → (in_time : Bool) → Limiter → Type 0
  IsOver reply in_time l =
      ((n : ℕ) × (reply ≡ counted n) × (o.max_requests < n))
      ⊎ (in_time ≡ false)
        × (o.max_requests < (bump_local_count now key (o.window_seconds + 2) l.local).0)

  increment_over :
      (reply : Reply) (l : Limiter)
      → 1 ≤ o.max_requests
      → o.max_requests < (increment_with_ttl c now reply l).0
      → (n : ℕ) × (reply ≡ counted n) × (o.max_requests < n)
  unfolding increment_with_ttl
  increment_over (counted n) l pos h = (n, refl, ground arith)
  increment_over failed l pos h = absurd (ground arith)

  threshold_le : 1 ≤ o.max_requests → threshold o ≤ o.max_requests
  unfolding threshold
  threshold_le pos = omega arith

  not_over : (n m : ℕ) → leb n m ≡ false → m < n
  not_over n m h = ground arith

  -- With a limit of at least one, a request is turned away only if Redis counts more requests than
  -- the limit, or if Redis is too slow to answer and this process alone counts more.
  pub rate_limit-IsOver :
      (reply : Reply) (in_time : Bool) (l : Limiter)
      → 1 ≤ o.max_requests
      → (rate_limit c o now key reply in_time l).0 ≡ false
      → IsOver reply in_time l
  unfolding rate_limit count_request
  rate_limit-IsOver reply in_time l pos h =
      let bump = bump_local_count now key (o.window_seconds + 2) l.local in
      let l' : Limiter = record l { local = bump.1 } in
      elim (Bool-cases (can_use_local_sampling o)) [
        | inr direct ↦ inl (increment_over reply l pos (not_over _ o.max_requests (rw direct at h)))
        | inl sampled ↦ elim (Bool-cases (leb bump.0 (threshold o))) [
          | inl few ↦ absurd (ground (arith, rw (sampled, few) at h, threshold_le pos))
          | inr many ↦ elim (Bool-cases (should_use_soft_timeout o)) [
            | inr hard ↦ inl (
                increment_over reply l' pos
                  (not_over _ o.max_requests (rw (sampled, many, hard) at h)))
            | inl soft ↦ elim (Bool-cases in_time) [
              | inl quick ↦ inl (
                  increment_over reply l' pos
                    (not_over _ o.max_requests (rw (sampled, many, soft, quick) at h)))
              | inr slow ↦
                  inr (slow, not_over bump.0 o.max_requests (rw (sampled, many, soft, slow) at h))
            ]
          ]
        ]
      ]

  -- While Redis is not connected, every request is let through, however many there were, in every
  -- namespace with a limit of at least one, unless the wait of 40 milliseconds runs out.
  pub rate_limit-unconnected :
      (reply : Reply) (l : Limiter)
      → 1 ≤ o.max_requests
      → c.connected ≡ false
      → (rate_limit c o now key reply true l).0 ≡ true
  unfolding rate_limit count_request increment_with_ttl
  rate_limit-unconnected reply l pos off = ground (arith, threshold_le pos)
