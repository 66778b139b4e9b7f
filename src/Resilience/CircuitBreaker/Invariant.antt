-- ===== src/Resilience/CircuitBreaker/Invariant.antt =====
-- What holds of a circuit breaker between any two steps of any interleaving of its callers.
use tallei_ai.Common.{rejected, resolved, Settled, ℕ, ◌≤◌, ◌<◌, ◌≡◌, ◌≢◌, none, arith}
use tallei_ai.Resilience.CircuitBreaker.{
  closed, half_open, CircuitBreakerOptions, Breaker, create, update_state_by_time, on_success,
  on_failure, admit, settle, snapshot,
}

module _ {ℓ} {E : Type ℓ} where
  pub record IsValid (b : Breaker E) : Type 0 where
    pub threshold_pos : 1 ≤ b.failure_threshold
    pub probes_pos : 1 ≤ b.half_open_success_threshold
    pub cool_off_pos : 1 ≤ b.cool_off_ms
    pub closed_below : b.state ≡ closed → b.failure_count < b.failure_threshold
    pub closed_since : b.state ≡ closed → b.opened_at_ms ≡ none
    pub open_since : b.state ≢ closed → b.opened_at_ms ≢ none
    pub probing_clean : b.state ≡ half_open → b.failure_count ≡ 0
    pub probing_below :
        b.state ≡ half_open → b.half_open_success_count < b.half_open_success_threshold
    pub probes_only : b.state ≢ half_open → b.half_open_success_count ≡ 0

  pub create-IsValid : (o : CircuitBreakerOptions E) → IsValid (create o)
  unfolding create
  create-IsValid o = ground arith

  pub update_state_by_time-IsValid :
      (now : ℕ) (b : Breaker E) → IsValid b → IsValid (update_state_by_time now b)
  unfolding update_state_by_time
  update_state_by_time-IsValid now b h = ground arith

  pub on_success-IsValid : (b : Breaker E) → IsValid b → IsValid (on_success b)
  unfolding on_success
  on_success-IsValid b h = ground arith

  pub on_failure-IsValid :
      (now : ℕ) (e : E) (b : Breaker E) → IsValid b → IsValid (on_failure now e b)
  unfolding on_failure
  on_failure-IsValid now e b h = ground arith

  pub settle-IsValid {κ} :
      {A : Type κ} (now : ℕ) (r : Settled E A) (b : Breaker E)
      → IsValid b
      → IsValid (settle now r b)
  unfolding settle
  settle-IsValid now (resolved a) b h = on_success-IsValid b h
  settle-IsValid now (rejected e) b h = on_failure-IsValid now e b h

  -- One atomic step that a caller of the breaker can make, at any time and in any order.
  pub data Step (A : Type 0) : Breaker E → Breaker E → Type ℓ where
    admitting : (b : Breaker E) (now : ℕ) → Step A b (admit now b).0
    settling : (b : Breaker E) (now : ℕ) (r : Settled E A) → Step A b (settle now r b)
    reading : (b : Breaker E) (now : ℕ) → Step A b (snapshot now b).0

  pub data Reach (A : Type 0) (b : Breaker E) : Breaker E → Type ℓ where
    here : Reach A b b
    next : {c d : Breaker E} → Reach A b c → Step A c d → Reach A b d

  Step-IsValid : {A : Type 0} {b c : Breaker E} → Step A b c → IsValid b → IsValid c
  unfolding admit snapshot
  Step-IsValid (admitting b now) h = update_state_by_time-IsValid now b h
  Step-IsValid (settling b now r) h = settle-IsValid now r b h
  Step-IsValid (reading b now) h = update_state_by_time-IsValid now b h

  Reach-IsValid : {A : Type 0} {b c : Breaker E} → IsValid b → Reach A b c → IsValid c
  Reach-IsValid h here = h
  Reach-IsValid h (next r s) = Step-IsValid s (Reach-IsValid h r)

  -- From a newly made breaker, whatever its options, every interleaving of admissions, settled
  -- calls and snapshots, with any readings of the clock, leaves a valid breaker: a closed one is
  -- below its failure threshold and has no opening time, any other has one, and successes are
  -- counted only while half open, below their threshold.
  pub interleaving-IsValid :
      {A : Type 0} (o : CircuitBreakerOptions E) {b : Breaker E} → Reach A (create o) b → IsValid b
  interleaving-IsValid o r = Reach-IsValid (create-IsValid o) r
