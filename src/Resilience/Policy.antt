-- ===== src/Resilience/Policy.antt =====
-- src/resilience/timeout.ts and policy.ts: a timeout around each call, retries around those, and one
-- circuit breaker around all of it. Whether the timer's callback ran before the operation settled is
-- decided by the runtime, and comes back with the result. `composePolicy` gives `retry` no signal,
-- so that nothing aborts its waits.
pub mod Laws
use tallei_ai.Common.{
  ℕ, zero, suc, ◌-◌, Bool, true, false, Option, none, some, if◌then◌else◌, Settled, resolved,
  rejected,
}
use tallei_ai.Resilience.CircuitBreaker.{
  Breaker, Executed, returned, threw, circuit_open, outcome, execute,
}
use tallei_ai.Resilience.Retry.{
  RetryPolicy, Runtime, Thrown, from_operation, operation_aborted, retry,
}

-- `TimeoutError`, or what the operation threw.
pub data Timed (E : Type 0) : Type 0 where
  timeout_error : ℕ → Timed E
  untimed : E → Timed E

abbrev timed : {E A : Type 0} → ℕ → Bool → Settled E A → Settled (Timed E) A
timed ms fired (resolved a) = resolved a
timed ms true (rejected e) = rejected (timeout_error ms)
timed ms false (rejected e) = rejected (untimed e)

module _ {E A W : Type 0} where
  -- `timeoutMs <= 0` throws before the operation is called
  unfoldable pub with_timeout : (W → Settled E A × Bool × W) → ℕ → W → Settled (Timed E) A × W
  with_timeout operation zero w = (rejected (timeout_error 0), w)
  with_timeout operation (suc ms) w =
      let (s, fired, w') = operation w in (timed (suc ms) fired s, w')

-- What the composed policy reads of the runtime besides the operation.
pub record Clock (W : Type 0) : Type 0 where
  -- `Date.now()`
  pub now : W → ℕ
  -- `nowMs()`, the monotonic clock
  pub monotonic : W → ℕ
  pub random : W → ℕ × W
  -- a timer of that many milliseconds
  pub pass : ℕ → W → W

pub record ComposePolicyOptions (E : Type 0) : Type 0 where
  pub timeout_ms : Option ℕ
  pub retry_policy : Option (RetryPolicy (Timed E))

pub record Performed (E A W : Type 0) : Type 0 where
  pub result : Executed (Thrown (Timed E)) A
  pub breaker : Option (Breaker (Thrown (Timed E)))
  pub world : W
  -- what the metrics hooks hear
  pub succeeded : Bool
  pub duration_ms : ℕ

module _ {E A W : Type 0} (c : Clock W) (o : ComposePolicyOptions E)
    (operation : W → Settled E A × Bool × W) where
  unfoldable pub run_single : W → Settled (Timed E) A × W
  unfolding with_timeout
  run_single w = elim o.timeout_ms [
    | none ↦ (let (s, _, w') = operation w in (timed 0 false s, w'))
    | some ms ↦ with_timeout operation ms w
  ]

  abbrev pub runtime : Runtime (Timed E) A W
  runtime = record {
    operation = λ attempt w. run_single w;
    random = c.random;
    aborted = λ w. false;
    wait = λ delay w. (true, c.pass delay w);
  }

  abbrev once : Settled (Timed E) A × W → Settled (Thrown (Timed E)) A × W
  once (resolved a, w) = (resolved a, w)
  once (rejected e, w) = (rejected (from_operation e), w)

  -- `none` stands for rounds that run out.
  unfoldable pub run_with_retry : W → Settled (Thrown (Timed E)) A × W
  unfolding retry run_single
  run_with_retry w = elim o.retry_policy [
    | none ↦ once (run_single w)
    | some p ↦ elim (retry p runtime w) [
      | none ↦ (rejected operation_aborted, w)
      | some d ↦ (d.result, d.world)
    ]
  ]

  abbrev succeeds : Executed (Thrown (Timed E)) A → Bool
  succeeds (returned a) = true
  succeeds _ = false

  abbrev performed :
      W → Option (Breaker (Thrown (Timed E))) → Executed (Thrown (Timed E)) A → W → Performed E A W
  performed w b x w' = record {
    result = x;
    breaker = b;
    world = w';
    succeeded = succeeds x;
    duration_ms = c.monotonic w' - c.monotonic w;
  }

  -- `execute` of the composed policy
  unfoldable pub perform : Option (Breaker (Thrown (Timed E))) → W → Performed E A W
  perform none w = let (s, w') = run_with_retry w in performed w none (outcome s) w'
  perform (some b) w =
      let (x, b', w') = execute c.now run_with_retry b w in performed w (some b') x w'
