-- ===== src/Resilience/Retry/Bounds.antt =====
-- How often `retry` calls its operation, and how long it waits.
use tallei_ai.Common.{
  subst, max, min, ℕ, ◌+◌, ◌-◌, ◌*◌, ◌^◌, ◌≤◌, ◌<◌, ◌≡◌, refl, true, some, List, [], ◌∷◌, length,
  arith,
}
use tallei_ai.Resilience.Retry.{
  jittered, RetryPolicy, RetryAttemptContext, RetryJitter, no_jitter, equal, full, Runtime, Retried,
  retry, random_range, compute_base_delay_ms, compute_jittered_delay_ms,
}
use tallei_ai.Resilience.Retry.Induction.{retries, Keeps, retry_finished}

mul_mono : (b : ℕ) {k m : ℕ} → k < m → b * k ≤ b * m
mul_mono b h = grind arith

module _ {E A W : Type 0} (p : RetryPolicy E) (r : Runtime E A W) where
  abbrev Counted : ℕ → Retried E A W → Type 0
  Counted n d =
      n ≤ p.max_retries
      → (d.attempts + n ≤ p.max_retries + 1)
        × (length d.notified ≤ d.attempts)
        × (d.attempts ≤ length d.notified + 1)

  Counted-Keeps : Keeps p r Counted
  Counted-Keeps = record {
    at_abort = λ n w h. omega arith;
    at_value = λ n w w' a e h. omega arith;
    at_error = λ n w e g h. omega arith;
    at_wait = λ n w w' e t ab g h. ground arith;
    at_again = λ n w e d g ih h. ground (arith, ih);
  }

  -- `retry` ends, after at most `maxRetries + 1` calls of its operation, and it has told `onRetry`
  -- of each call but perhaps the last.
  pub retry_attempts :
      (w : W)
      → (d : Retried E A W) × (retry p r w ≡ some d)
        × (d.attempts ≤ p.max_retries + 1)
        × (length d.notified ≤ d.attempts)
        × (d.attempts ≤ length d.notified + 1)
  retry_attempts w =
      let (d, e, counted) = retry_finished p r Counted Counted-Keeps w in
      let (a, b, c) = counted (omega arith) in (d, e, omega arith, b, c)

  -- The window of a delay whose base is `base`.
  abbrev pub InWindow : RetryJitter → ℕ → ℕ → Type 0
  InWindow no_jitter base delay = delay ≡ base
  InWindow equal base delay = (base ≤ 2 * delay + 1) × (delay ≤ base)
  InWindow full base delay = delay ≤ base

  jittered-InWindow :
      ((w : W) → (r.random w).0 < random_range)
      → (j : RetryJitter) (base : ℕ) (w : W) → InWindow j base (jittered p r j base w).0
  unfolding jittered
  jittered-InWindow draws no_jitter base w = refl
  jittered-InWindow draws equal base w =
      let k = (r.random w).0 in
      let small : base * k ≤ base * random_range = mul_mono base (draws w) in omega arith
  jittered-InWindow draws full base w =
      let k = (r.random w).0 in
      let small : base * k ≤ base * random_range = mul_mono base (draws w) in omega arith

  -- What `onRetry` hears: attempts numbered from `n + 1` on, errors that the policy retries within
  -- its limit, and delays in the window of the capped exponential base.
  abbrev pub Scheduled : ℕ → List (RetryAttemptContext E) → Type 0
  Scheduled n [] = Unit
  Scheduled n (c ∷ cs) =
      (c.attempt ≡ n + 1)
      × (retries p r c.attempt c.error ≡ true)
      × InWindow p.jitter (min p.max_delay_ms (p.initial_delay_ms * 2 ^ n)) c.delay_ms
      × Scheduled (n + 1) cs

  window :
      ((w : W) → (r.random w).0 < random_range)
      → (n : ℕ) (w : W)
      → InWindow p.jitter
          (min p.max_delay_ms (p.initial_delay_ms * 2 ^ n))
          (compute_jittered_delay_ms p r (n + 1) w).0
  unfolding compute_jittered_delay_ms compute_base_delay_ms
  window draws n w =
      let e : max 0 (n + 1 - 1) ≡ n = omega arith in
      subst
        (λ m.
          InWindow p.jitter (min p.max_delay_ms (p.initial_delay_ms * 2 ^ m))
            (compute_jittered_delay_ms p r (n + 1) w).0)
        e (jittered-InWindow draws p.jitter _ w)

  Waits-Keeps :
      ((w : W) → (r.random w).0 < random_range) → Keeps p r (λ n d. Scheduled n d.notified)
  unfolding compute_jittered_delay_ms compute_base_delay_ms
  Waits-Keeps draws = record {
    at_abort = λ n w. tt;
    at_value = λ n w w' a e. tt;
    at_error = λ n w e g. tt;
    at_wait = λ n w w' e t ab g. (refl, g, window draws n w, tt);
    at_again = λ n w e d g ih. (refl, g, window draws n w, ih);
  }

  -- `retry` ends, and the waits that it announced are for attempts 1, 2, 3 and so on, each after an
  -- error that may be retried, and each of the base delay `min(maxDelayMs, initialDelayMs * 2^n)`
  -- after `n` earlier retries: exactly that without jitter, between half of it and all of it with
  -- equal jitter, at most that with full jitter; where `Math.random()` is below 1.
  pub retry_waits :
      ((w : W) → (r.random w).0 < random_range)
      → (w : W) → (d : Retried E A W) × (retry p r w ≡ some d) × Scheduled 0 d.notified
  retry_waits draws w = retry_finished p r (λ n d. Scheduled n d.notified) (Waits-Keeps draws) w
