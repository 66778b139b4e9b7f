-- ===== src/Resilience/Tests.antt =====
-- Runs of the circuit breaker, of `retry`, and of a composed policy, and the theorems on them.
use tallei_ai.Common.{
  zero, none, refl, length, false, str_eq, [], not, suc, ◌≡◌, ◌^◌, ◌∷◌, arith, resolved, some, ◌+◌,
  true, rejected, Bool, ◌≤◌, ◌<◌, Settled, All, ℕ, String,
}
use tallei_ai.Resilience.Retry.{
  sleep, compute_base_delay_ms, full, compute_jittered_delay_ms, Thrown, retry_rounds, equal,
  Runtime, random_range, retry, RetryPolicy, Retried,
}
use tallei_ai.Resilience.CircuitBreaker.{
  open_, close, closed, circuit_open, update_state_by_time, admit, settle, CircuitBreakerOptions,
  trip, Breaker, create,
}
use tallei_ai.Resilience.Policy.{Timed, ComposePolicyOptions, Clock, perform}
use tallei_ai.Resilience.CircuitBreaker.Runs.{
  calls_recover, calls-trip, calls_fail_fast, Fails, call, Call, calls,
}
use tallei_ai.Resilience.CircuitBreaker.Machine.{
  admit-Machine, settle-Machine, lets_through, settle_view, elapse, view,
}
use tallei_ai.Resilience.Retry.Outcomes.{retry_sound, retry_reaches, Justified, FailsAgain}
use tallei_ai.Resilience.CircuitBreaker.Invariant.{Step, Reach, interleaving-IsValid, IsValid}
use tallei_ai.Resilience.Retry.Bounds.{retry_waits, retry_attempts, Scheduled}
use tallei_ai.Resilience.Policy.Laws.{perform_counts_once, Counted, perform_open}

abbrev options : CircuitBreakerOptions String
options = record {
  failure_threshold = 2;
  cool_off_ms = 1_000;
  half_open_success_threshold = 2;
  should_count_failure = some λ e. not (str_eq e "bad request");
}

abbrev fresh : Breaker String
fresh = create options

abbrev tripped_at_100 : Breaker String
tripped_at_100 = trip 100 fresh

abbrev ok : ℕ → ℕ → Call String ℕ
ok start end = record { started_at = start; settled_at = end; result = resolved 7 }

abbrev broken : ℕ → ℕ → Call String ℕ
broken start end = record { started_at = start; settled_at = end; result = rejected "timeout" }

trips : (calls (broken 1 2 ∷ broken 3 4 ∷ []) fresh).opened_at_ms ≡ some 4
unfolding calls call admit settle create trip update_state_by_time
trips = refl

-- Two calls are let through together; the second one fails after the first has.
interleaving-IsValid_example : IsValid (
    settle {A = ℕ} 9
      (rejected "timeout")
      (settle {A = ℕ} 8 (rejected "timeout") (admit 6 (admit 5 fresh).0).0))
interleaving-IsValid_example = interleaving-IsValid options (
    Reach.next
      (Reach.next
        (Reach.next (Reach.next Reach.here (Step.admitting fresh 5))
          (Step.admitting (admit 5 fresh).0 6))
        (Step.settling (admit 6 (admit 5 fresh).0).0 8 (rejected "timeout")))
      (Step.settling _ 9 (rejected "timeout")))

tripped-IsValid : IsValid tripped_at_100
unfolding trip create
tripped-IsValid = ground arith

admit-Machine_example :
    (view (admit 1_100 tripped_at_100).0 ≡ elapse 1_000 1_100 (view tripped_at_100))
    × ((admit 1_100 tripped_at_100).1 ≡ lets_through (elapse 1_000 1_100 (view tripped_at_100)))
unfolding create trip
admit-Machine_example = admit-Machine tripped_at_100 1_100 tripped-IsValid

settle-Machine_example :
    view (settle {A = ℕ} 1_200 (rejected "timeout") tripped_at_100)
    ≡ settle_view tripped_at_100 {A = ℕ} 1_200 (rejected "timeout")
settle-Machine_example = settle-Machine tripped_at_100 1_200 (rejected "timeout") tripped-IsValid

broken_counts : (b e : ℕ) → Fails fresh (broken b e)
unfolding create
broken_counts b e = ("timeout", refl, refl)

calls-trip_example :
    ((calls (broken 1 2 ∷ []) fresh).state ≡ closed)
    × (call (broken 3 4) (calls (broken 1 2 ∷ []) fresh) ≡ record fresh {
      state = open_;
      failure_count = 2;
      half_open_success_count = 0;
      opened_at_ms = some 4;
    })
unfolding create
calls-trip_example =
    calls-trip (broken 1 2 ∷ []) (broken 3 4) fresh refl (broken_counts 1 2, tt) (broken_counts 3 4)
      refl

calls_fail_fast_example :
    (calls (ok 500 501 ∷ ok 1_099 1_100 ∷ []) tripped_at_100 ≡ tripped_at_100)
    × All
        (λ c. admit c.started_at tripped_at_100 ≡ (tripped_at_100, false))
        (ok 500 501 ∷ ok 1_099 1_100 ∷ [])
unfolding create trip
calls_fail_fast_example =
    calls_fail_fast (ok 500 501 ∷ ok 1_099 1_100 ∷ []) tripped_at_100 100 refl refl
      (omega arith, (omega arith, tt))

calls_recover_example :
    calls (ok 1_100 1_101 ∷ ok 1_102 1_103 ∷ []) tripped_at_100 ≡ record tripped_at_100 {
      state = closed;
      failure_count = 0;
      half_open_success_count = 0;
      opened_at_ms = none;
    }
unfolding create trip close
calls_recover_example =
    calls_recover (ok 1_100 1_101) (ok 1_102 1_103 ∷ []) tripped_at_100 100 refl refl (omega arith)
      ((7, refl), ((7, refl), tt)) refl

abbrev two_retries : RetryPolicy String
two_retries = record {
  max_retries = 2;
  initial_delay_ms = 100;
  max_delay_ms = 150;
  jitter = equal;
  should_retry = some λ e. str_eq e "timeout";
}

abbrev third_time : ℕ → Settled String ℕ
third_time (suc (suc (suc zero))) = resolved 7
third_time _ = rejected "timeout"

-- The world is the clock, and `Math.random()` is always a half.
abbrev third_time_works : Runtime String ℕ ℕ
third_time_works = record {
  operation = λ attempt w. (third_time attempt, w + 10);
  random = λ w. (2 ^ 52, w);
  aborted = λ w. false;
  wait = λ delay w. (true, w + delay);
}

abbrev third_run : Retried String ℕ ℕ
third_run = record {
  result = resolved 7;
  attempts = 3;
  notified =
      record { attempt = 1; delay_ms = 75; error = "timeout" }
      ∷ record { attempt = 2; delay_ms = 112; error = "timeout" }
      ∷ [];
  world = 217;
}

third_run_runs : retry two_retries third_time_works 0 ≡ some third_run
unfolding retry retry_rounds compute_jittered_delay_ms compute_base_delay_ms sleep
third_run_runs = refl

retry_attempts_example :
    (d : Retried String ℕ ℕ) × (retry two_retries third_time_works 0 ≡ some d)
    × (d.attempts ≤ 3)
    × (length d.notified ≤ d.attempts)
    × (d.attempts ≤ length d.notified + 1)
retry_attempts_example = retry_attempts two_retries third_time_works 0

half_is_in_range : (w : ℕ) → (third_time_works.random w).0 < random_range
half_is_in_range w = omega arith

retry_waits_example :
    (d : Retried String ℕ ℕ) × (retry two_retries third_time_works 0 ≡ some d)
    × Scheduled two_retries third_time_works 0 d.notified
retry_waits_example = retry_waits two_retries third_time_works half_is_in_range 0

retry_sound_example :
    (d : Retried String ℕ ℕ) × (retry two_retries third_time_works 0 ≡ some d)
    × Justified two_retries third_time_works 0 d.attempts d.result d.world
retry_sound_example = retry_sound two_retries third_time_works 0

fails_twice :
    (j : ℕ) (w : ℕ)
    → 0 < j
    → j ≤ 2
    → FailsAgain two_retries third_time_works (third_time_works.operation j w).0
fails_twice zero w lo hi = refl
fails_twice (suc zero) w lo hi = refl
fails_twice (suc (suc zero)) w lo hi = refl
fails_twice (suc (suc (suc j))) w lo hi = absurd (omega (arith, hi))

retry_reaches_example :
    (d : Retried String ℕ ℕ) × (retry two_retries third_time_works 0 ≡ some d)
    × (d.result ≡ resolved 7)
    × (d.attempts ≡ 3)
retry_reaches_example =
    retry_reaches two_retries third_time_works (λ w. refl) (λ delay w. refl) 7 2 0 (omega arith)
      fails_twice (λ w. refl)

abbrev clock : Clock ℕ
clock = record {
  now = λ w. w;
  monotonic = λ w. w;
  random = λ w. (0, w);
  pass = λ delay w. w + delay;
}

abbrev timed_and_retried : ComposePolicyOptions String
timed_and_retried = record {
  timeout_ms = some 50;
  retry_policy = some (record {
    max_retries = 2;
    initial_delay_ms = 100;
    max_delay_ms = 150;
    jitter = full;
    should_retry = none;
  });
}

-- It hangs until the timer of 50 milliseconds aborts it.
abbrev hangs : ℕ → Settled String ℕ × Bool × ℕ
hangs w = (rejected "aborted", true, w + 50)

abbrev shut : Breaker (Thrown (Timed String))
shut = record {
  failure_threshold = 2;
  cool_off_ms = 1_000;
  half_open_success_threshold = 1;
  should_count_failure = λ e. true;
  state = closed;
  failure_count = 0;
  half_open_success_count = 0;
  opened_at_ms = none;
}

abbrev cooling : Breaker (Thrown (Timed String))
cooling = record shut { state = open_; failure_count = 2; opened_at_ms = some 100 }

perform_open_example :
    ((perform clock timed_and_retried hangs (some cooling) 900).result ≡ circuit_open)
    × ((perform clock timed_and_retried hangs (some cooling) 900).world ≡ 900)
    × ((perform clock timed_and_retried hangs (some cooling) 900).breaker ≡ some cooling)
    × ((perform clock timed_and_retried hangs (some cooling) 900).succeeded ≡ false)
perform_open_example =
    perform_open clock timed_and_retried hangs cooling 900 100 refl refl (omega arith)

perform_counts_once_example :
    (b' : Breaker (Thrown (Timed String))) × ((perform clock timed_and_retried hangs
        (some shut)
        0).breaker
      ≡ some b')
    × ((perform clock timed_and_retried hangs (some shut) 0).result
        ≡ (perform clock timed_and_retried hangs none 0).result)
    × ((perform clock timed_and_retried hangs (some shut) 0).world
        ≡ (perform clock timed_and_retried hangs none 0).world)
    × Counted shut.should_count_failure 0
        (perform clock timed_and_retried hangs (some shut) 0).result
        b'.failure_count
perform_counts_once_example = perform_counts_once clock timed_and_retried hangs shut 0 refl
