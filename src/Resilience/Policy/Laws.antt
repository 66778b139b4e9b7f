-- ===== src/Resilience/Policy/Laws.antt =====
-- The order of the layers: the breaker sees a whole series of retries as one call.
use tallei_ai.Common.{
  inr, inl, none, Bool-cases, true, ◌⊎◌, refl, rejected, resolved, ℕ, ◌+◌, ◌<◌, ◌≡◌, Bool, false,
  some, arith, Settled,
}
use tallei_ai.Resilience.CircuitBreaker.{
  threw, execute, returned, outcome, Executed, settle, closed, Breaker, open_, circuit_open,
}
use tallei_ai.Resilience.Retry.{Thrown}
use tallei_ai.Resilience.Policy.{run_with_retry, Timed, Clock, ComposePolicyOptions, perform}

module _ {E A W : Type 0} (now : W → ℕ) (op : W → Settled E A × W) (b : Breaker E) (w : W) where
  execute_closed :
      b.state ≡ closed
      → execute now op b w ≡ (outcome (op w).0, settle (now (op w).1) (op w).0 b, (op w).1)
  unfolding execute
  execute_closed s = ground arith

  execute_refused :
      (t : ℕ)
      → b.state ≡ open_
      → b.opened_at_ms ≡ some t
      → now w < t + b.cool_off_ms
      → execute now op b w ≡ (circuit_open, b, w)
  unfolding execute
  execute_refused t s opened early = ground arith

-- The failure count after a call through a closed breaker that had counted `n` failures in a row.
abbrev pub Counted : {E A : Type 0} → (E → Bool) → ℕ → Executed E A → ℕ → Type 0
Counted counts n (returned a) m = m ≡ 0
Counted counts n (threw e) m = ((counts e ≡ true) × (m ≡ n + 1)) ⊎ ((counts e ≡ false) × (m ≡ n))
Counted counts n circuit_open m = ⊥

settle_closed :
    {E A : Type 0} (t : ℕ) (s : Settled E A) (b : Breaker E)
    → b.state ≡ closed
    → Counted b.should_count_failure b.failure_count (outcome s) (settle t s b).failure_count
unfolding settle
settle_closed t (resolved a) b h = ground arith
settle_closed t (rejected e) b h = elim (Bool-cases (b.should_count_failure e)) [
  | inl t ↦ inl (t, ground (arith, t))
  | inr n ↦ inr (n, ground (arith, n))
]

module _ {E A W : Type 0} (c : Clock W) (o : ComposePolicyOptions E)
    (operation : W → Settled E A × Bool × W) (b : Breaker (Thrown (Timed E))) (w : W) where
  -- While the breaker is cooling off, the policy fails at once: the operation does not run, so the
  -- world is as it was, and so is the breaker; the failure is reported to the metrics.
  pub perform_open :
      (t : ℕ)
      → b.state ≡ open_
      → b.opened_at_ms ≡ some t
      → c.now w < t + b.cool_off_ms
      → ((perform c o operation (some b) w).result ≡ circuit_open)
        × ((perform c o operation (some b) w).world ≡ w)
        × ((perform c o operation (some b) w).breaker ≡ some b)
        × ((perform c o operation (some b) w).succeeded ≡ false)
  unfolding perform
  perform_open t s opened early =
      rw (execute_refused c.now (run_with_retry c o operation) b w t s opened early)
        (refl, refl, refl, refl)

  -- A policy whose breaker is closed returns or throws what the same policy without a breaker does, and
  -- leaves the same world. Whatever the number of attempts, the breaker's failure count is then zero
  -- after a value, one more after an error that counts, and the same after one that does not.
  pub perform_counts_once :
      b.state ≡ closed
      → (b' : Breaker (Thrown (Timed E))) × ((perform c o operation (some b) w).breaker ≡ some b')
        × ((perform c o operation (some b) w).result ≡ (perform c o operation none w).result)
        × ((perform c o operation (some b) w).world ≡ (perform c o operation none w).world)
        × Counted b.should_count_failure b.failure_count
            (perform c o operation (some b) w).result
            b'.failure_count
  unfolding perform
  perform_counts_once s =
      let (r, w') = run_with_retry c o operation w in
      rw (execute_closed c.now (run_with_retry c o operation) b w s)
        (settle (c.now w') r b, refl, refl, refl, settle_closed (c.now w') r b s)
