-- ===== src/Resilience/Retry.antt =====
-- src/resilience/retry.ts. `W` is all that the loop and the operation can change or observe; the
-- runtime's part is a record of functions on it. `Math.random()` is a number below 2^53 that stands
-- for that many 2^53-ths, and the products are exact. The abort listeners only pass the abort on,
-- and are part of the runtime.
mod Induction
pub mod Bounds
pub mod Outcomes
use mathlib.Core.Option
use tallei_ai.Common.{
  ℕ, zero, suc, ◌+◌, ◌-◌, ◌*◌, ◌/◌, ◌^◌, min, max, Bool, true, false, ◌&&◌, Option, none, some,
  List, [], ◌∷◌, ◌++◌, leb, ◌==◌, if◌then◌else◌, Settled, resolved, rejected,
}

pub data RetryJitter : Type 0 where
  no_jitter equal full : RetryJitter

pub record RetryPolicy (E : Type 0) : Type 0 where
  pub max_retries : ℕ
  pub initial_delay_ms : ℕ
  pub max_delay_ms : ℕ
  pub jitter : RetryJitter
  pub should_retry : Option (E → Bool)

-- what `onRetry` is called with
pub record RetryAttemptContext (E : Type 0) : Type 0 where
  pub attempt : ℕ
  pub delay_ms : ℕ
  pub error : E

pub record Runtime (E A W : Type 0) : Type 0 where
  -- one call of the operation, with the number of the attempt
  pub operation : ℕ → W → Settled E A × W
  -- `Math.random()`
  pub random : W → ℕ × W
  -- `signal.aborted` of the caller's signal
  pub aborted : W → Bool
  -- the wait: `true` if the timer fires, `false` if the abort comes first
  pub wait : ℕ → W → Bool × W

-- What `retry` throws: what the operation threw, or one of the two abort errors.
pub data Thrown (E : Type 0) : Type 0 where
  from_operation : E → Thrown E
  operation_aborted : Thrown E
  wait_aborted : Thrown E

abbrev pub random_range : ℕ
random_range = 2 ^ 53

-- What a finished call of `retry` leaves behind: how it settled, how many calls of the operation it
-- made, what `onRetry` was called with, and the world.
pub record Retried (E A W : Type 0) : Type 0 where
  pub result : Settled (Thrown E) A
  pub attempts : ℕ
  pub notified : List (RetryAttemptContext E)
  pub world : W

module _ {E : Type 0} where
  unfoldable pub compute_base_delay_ms : RetryPolicy E → ℕ → ℕ
  compute_base_delay_ms p retry_index =
      min p.max_delay_ms (p.initial_delay_ms * 2 ^ max 0 (retry_index - 1))

  abbrev pub retriable : RetryPolicy E → E → Bool
  retriable p e = elim p.should_retry [ none ↦ true | some f ↦ f e ]

module _ {E A W : Type 0} (p : RetryPolicy E) (r : Runtime E A W) where
  jittered : RetryJitter → ℕ → W → ℕ × W
  jittered no_jitter base w = (base, w)
  jittered equal base w =
      let (k, w') = r.random w in (base * (random_range + k) / (2 * random_range), w')
  jittered full base w = let (k, w') = r.random w in (k * base / random_range, w')

  unfoldable pub compute_jittered_delay_ms : ℕ → W → ℕ × W
  unfolding compute_base_delay_ms jittered
  compute_jittered_delay_ms retry_index w =
      jittered p.jitter (compute_base_delay_ms p retry_index) w

  waited : Bool × W → Settled (Thrown E) (Unit {0}) × W
  waited (true, w) = (resolved tt, w)
  waited (false, w) = (rejected wait_aborted, w)

  unfoldable pub sleep : ℕ → W → Settled (Thrown E) (Unit {0}) × W
  unfolding waited
  sleep delay w =
      if delay == 0
      then (resolved tt, w)
      else if r.aborted w
      then (rejected operation_aborted, w)
      else waited (r.wait delay w)

  abbrev ends : Settled (Thrown E) A → ℕ → W → Retried E A W
  ends result attempts w = record { result = result; attempts = attempts; notified = []; world = w }

  abbrev note : RetryAttemptContext E → Retried E A W → Retried E A W
  note c d = record d { attempts = d.attempts + 1; notified = c ∷ d.notified }

  -- after the wait: the loop goes on, or the abort of the wait is thrown
  again :
      (W → Option (Retried E A W))
      → RetryAttemptContext E
      → Settled (Thrown E) (Unit {0}) × W
      → Option (Retried E A W)
  again next c (resolved _, w) = Option.map (note c) (next w)
  again next c (rejected t, w) = some (note c (ends (rejected t) 0 w))

  -- the `try` and its `catch`
  attempted : (ℕ → W → Option (Retried E A W)) → ℕ → Settled E A × W → Option (Retried E A W)
  unfolding again sleep
  attempted next attempt (resolved a, w) = some (ends (resolved a) 1 w)
  attempted next attempt (rejected e, w) =
      if leb attempt p.max_retries && retriable p e
      then (let (delay, w') = compute_jittered_delay_ms attempt w in
          again (next attempt) (record { attempt = attempt; delay_ms = delay; error = e })
            (sleep delay w'))
      else some (ends (rejected (from_operation e)) 1 w)

  -- one round of `while (true)`
  round : (ℕ → W → Option (Retried E A W)) → ℕ → W → Option (Retried E A W)
  unfolding attempted
  round next attempt w =
      if r.aborted w
      then some (ends (rejected operation_aborted) 0 w)
      else attempted next (attempt + 1) (r.operation (attempt + 1) w)

  -- `none` if the rounds run out
  unfoldable pub retry_rounds : ℕ → ℕ → W → Option (Retried E A W)
  unfolding round
  retry_rounds zero attempt w = none
  retry_rounds (suc rounds) attempt w = round (retry_rounds rounds) attempt w

  unfoldable pub retry : W → Option (Retried E A W)
  unfolding retry_rounds
  retry w = retry_rounds (p.max_retries + 1) 0 w
