-- ===== src/Resilience/CircuitBreaker.antt =====
-- src/resilience/circuit-breaker.ts. A method that mutates `this` returns the new record, and each
-- reading of `Date.now()` is an argument, in milliseconds. `execute` awaits the operation between
-- its admission test and its accounting, so the two halves are steps of their own, `admit` and
-- `settle`, between which other calls may run. An error type is left to the caller, as in the
-- source; `should_count_failure` is the option of that name.
pub mod Invariant
pub mod Machine
pub mod Runs
use tallei_ai.Common.{
  rejected, resolved, Settled, ℕ, ◌+◌, max, Bool, true, false, not, Option, none, some, ltb, leb,
  if◌then◌else◌,
}

pub data CircuitBreakerState : Type 0 where
  closed open_ half_open : CircuitBreakerState

pub record CircuitBreakerOptions {ℓ} (E : Type ℓ) : Type ℓ where
  pub failure_threshold : ℕ
  pub cool_off_ms : ℕ
  pub half_open_success_threshold : ℕ
  pub should_count_failure : Option (E → Bool)

-- The private fields of `BasicCircuitBreaker`; its name only labels error messages.
pub record Breaker {ℓ} (E : Type ℓ) : Type ℓ where
  pub failure_threshold : ℕ
  pub cool_off_ms : ℕ
  pub half_open_success_threshold : ℕ
  pub should_count_failure : E → Bool
  pub state : CircuitBreakerState
  pub failure_count : ℕ
  pub half_open_success_count : ℕ
  pub opened_at_ms : Option ℕ

pub record CircuitBreakerSnapshot : Type 0 where
  pub state : CircuitBreakerState
  pub failure_count : ℕ
  pub half_open_success_count : ℕ
  pub opened_at_ms : Option ℕ
  pub next_probe_at_ms : Option ℕ

abbrev pub or_always {ℓ} : {E : Type ℓ} → Option (E → Bool) → E → Bool
or_always none e = true
or_always (some f) e = f e

is_open : CircuitBreakerState → Bool
is_open open_ = true
is_open _ = false

module _ {ℓ} {E : Type ℓ} where
  -- the constructor
  unfoldable pub create : CircuitBreakerOptions E → Breaker E
  create o = record {
    failure_threshold = max 1 o.failure_threshold;
    cool_off_ms = max 1 o.cool_off_ms;
    half_open_success_threshold = max 1 o.half_open_success_threshold;
    should_count_failure = or_always o.should_count_failure;
    state = closed;
    failure_count = 0;
    half_open_success_count = 0;
    opened_at_ms = none;
  }

  -- `now - opened < coolOff` on integers is `now < opened + coolOff`.
  cooled : Breaker E → ℕ → Option ℕ → Bool
  cooled b now none = false
  cooled b now (some opened) = not (ltb now (opened + b.cool_off_ms))

  unfoldable pub update_state_by_time : ℕ → Breaker E → Breaker E
  unfolding cooled is_open
  update_state_by_time now b =
      if is_open b.state
      then (if cooled b now b.opened_at_ms
          then record b { state = half_open; failure_count = 0; half_open_success_count = 0 }
          else b)
      else b

  -- the method `open`
  unfoldable pub trip : ℕ → Breaker E → Breaker E
  trip now b = record b { state = open_; opened_at_ms = some now; half_open_success_count = 0 }

  unfoldable pub close : Breaker E → Breaker E
  close b = record b {
    state = closed;
    failure_count = 0;
    half_open_success_count = 0;
    opened_at_ms = none;
  }

  on_success_in : CircuitBreakerState → Breaker E → Breaker E
  unfolding close
  on_success_in half_open b =
      let b' = record b { half_open_success_count = b.half_open_success_count + 1 } in
      if leb b'.half_open_success_threshold b'.half_open_success_count then close b' else b'
  on_success_in closed b = record b { failure_count = 0 }
  on_success_in open_ b = b

  unfoldable pub on_success : Breaker E → Breaker E
  unfolding on_success_in
  on_success b = on_success_in b.state b

  count_failure : ℕ → Breaker E → Breaker E
  unfolding trip
  count_failure now b =
      let b' = record b { failure_count = b.failure_count + 1 } in
      if leb b'.failure_threshold b'.failure_count then trip now b' else b'

  on_failure_in : CircuitBreakerState → ℕ → Breaker E → Breaker E
  unfolding trip count_failure
  on_failure_in half_open now b = trip now b
  on_failure_in closed now b = count_failure now b
  on_failure_in open_ now b = count_failure now b

  unfoldable pub on_failure : ℕ → E → Breaker E → Breaker E
  unfolding on_failure_in
  on_failure now e b = if b.should_count_failure e then on_failure_in b.state now b else b

  -- the first half of `execute`: `true` lets the operation run, `false` throws `CircuitOpenError`
  unfoldable pub admit : ℕ → Breaker E → Breaker E × Bool
  unfolding update_state_by_time
  admit now b = let b' = update_state_by_time now b in (b', not (is_open b'.state))

  -- the second half: the awaited operation returned or threw
  unfoldable pub settle {κ} : {A : Type κ} → ℕ → Settled E A → Breaker E → Breaker E
  unfolding on_success on_failure
  settle now (resolved a) b = on_success b
  settle now (rejected e) b = on_failure now e b

  abbrev next_probe : Breaker E → Option ℕ → Option ℕ
  next_probe b none = none
  next_probe b (some opened) = some (opened + b.cool_off_ms)

  unfoldable pub snapshot : ℕ → Breaker E → Breaker E × CircuitBreakerSnapshot
  unfolding update_state_by_time
  snapshot now b =
      let b' = update_state_by_time now b in
      (
        b',
        record {
          state = b'.state;
          failure_count = b'.failure_count;
          half_open_success_count = b'.half_open_success_count;
          opened_at_ms = b'.opened_at_ms;
          next_probe_at_ms = next_probe b' b'.opened_at_ms;
        },
      )

-- What `execute` gives its caller.
pub data Executed {ℓ κ} (E : Type ℓ) (A : Type κ) : Type (ℓ ⊔ κ) where
  returned : A → Executed E A
  threw : E → Executed E A
  circuit_open : Executed E A

abbrev pub outcome {ℓ κ} : {E : Type ℓ} {A : Type κ} → Settled E A → Executed E A
outcome (resolved a) = returned a
outcome (rejected e) = threw e

-- `execute` where no other call runs during the await. `W` is all that the operation may change,
-- the clock included, which `now` reads.
module _ {ℓ κ ν} {E : Type ℓ} {A : Type κ} {W : Type ν} where
  unfoldable pub execute :
      (W → ℕ) → (W → Settled E A × W) → Breaker E → W → Executed E A × Breaker E × W
  unfolding admit settle
  execute now op b w =
      let (b', admitted) = admit (now w) b in
      let called : Executed E A × Breaker E × W =
        (let (r, w') = op w in (outcome r, settle (now w') r b', w')) in
      if admitted then called else (circuit_open, b', w)
