-- ===== src/Resilience/Retry/Induction.antt =====
-- The induction over the rounds of `retry`, for every postcondition.
use mathlib.Core.Option
use tallei_ai.Common.{
  ℕ, zero, suc, ◌+◌, ◌<◌, ◌≡◌, refl, ap, Bool, true, false, ◌&&◌, inl, inr, Option, some, arith,
  leb, Bool-cases, Settled, resolved, rejected,
}
use tallei_ai.Resilience.Retry.{
  RetryPolicy, RetryAttemptContext, Runtime, Thrown, from_operation, operation_aborted, Retried,
  retriable, compute_jittered_delay_ms, sleep, ends, note, again, attempted, retry_rounds, retry,
}

module _ {E : Type 0} where
  abbrev pub IsAbort : Thrown E → Type 0
  IsAbort (from_operation e) = ⊥
  IsAbort _ = Unit

  abbrev pub OnlyAborts : Settled (Thrown E) (Unit {0}) → Type 0
  OnlyAborts (resolved _) = Unit
  OnlyAborts (rejected t) = IsAbort t

module _ {E A W : Type 0} (p : RetryPolicy E) (r : Runtime E A W) where
  abbrev pub retries : ℕ → E → Bool
  retries attempt e = leb attempt p.max_retries && retriable p e

  -- What `onRetry` hears of a failure with `e` at an attempt that ended in the world `w`.
  abbrev pub context : ℕ → E → W → RetryAttemptContext E
  context attempt e w = record {
    attempt = attempt;
    delay_ms = (compute_jittered_delay_ms p r attempt w).0;
    error = e;
  }

  pub sleep-OnlyAborts : (delay : ℕ) (w : W) → OnlyAborts (sleep p r delay w).0
  unfolding sleep
  sleep-OnlyAborts delay w = ground arith

  -- A postcondition of the run that has made `attempt` calls: it holds at each end, and goes from
  -- the rest of a run to the run with one more round before it.
  pub record Keeps (P : ℕ → Retried E A W → Type 0) : Type 0 where
    pub at_abort : (n : ℕ) (w : W) → P n (ends p r (rejected operation_aborted) 0 w)
    pub at_value :
        (n : ℕ) (w w' : W) (a : A)
        → r.operation (n + 1) w ≡ (resolved a, w')
        → P n (ends p r (resolved a) 1 w')
    pub at_error :
        (n : ℕ) (w : W) (e : E)
        → retries (n + 1) e ≡ false
        → P n (ends p r (rejected (from_operation e)) 1 w)
    pub at_wait :
        (n : ℕ) (w w' : W) (e : E) (t : Thrown E)
        → IsAbort t
        → retries (n + 1) e ≡ true
        → P n (note p r (context (n + 1) e w) (ends p r (rejected t) 0 w'))
    pub at_again :
        (n : ℕ) (w : W) (e : E) (d : Retried E A W)
        → retries (n + 1) e ≡ true
        → P (n + 1) d
        → P n (note p r (context (n + 1) e w) d)

  module _ (P : ℕ → Retried E A W → Type 0) (k : Keeps P) where
    abbrev Finished : ℕ → Option (Retried E A W) → Type 0
    Finished n o = (d : Retried E A W) × (o ≡ some d) × P n d

    again-Finished :
        (n : ℕ) (w : W) (e : E) (next : W → Option (Retried E A W))
        → retries (n + 1) e ≡ true
        → ((w' : W) → Finished (n + 1) (next w'))
        → (s : Settled (Thrown E) (Unit {0}) × W) → OnlyAborts s.0
        → Finished n (again p r next (context (n + 1) e w) s)
    unfolding again
    again-Finished n w e next h ih (resolved _, w') _ =
        let (d, eq, good) = ih w' in
        (
          note p r (context (n + 1) e w) d,
          ap (Option.map (note p r (context (n + 1) e w))) eq,
          k.at_again n w e d h good,
        )
    again-Finished n w e next h ih (rejected t, w') aborts =
        (_, refl, k.at_wait n w w' e t aborts h)

    attempted-Finished :
        (n : ℕ) (w : W) (next : ℕ → W → Option (Retried E A W))
        → ((e : E) (w' : W) → retries (n + 1) e ≡ true → Finished (n + 1) (next (n + 1) w'))
        → (s : Settled E A × W) → r.operation (n + 1) w ≡ s
        → Finished n (attempted p r next (n + 1) s)
    unfolding attempted
    attempted-Finished n w next ih (resolved a, w') eq = (_, refl, k.at_value n w w' a eq)
    attempted-Finished n w next ih (rejected e, w') eq = elim (Bool-cases (retries (n + 1) e)) [
      | inl yes_ ↦ rw yes_ (
          again-Finished n w' e (next (n + 1)) yes_ (λ w''. ih e w'' yes_) _ (sleep-OnlyAborts _ _))
      | inr no_ ↦ rw no_ (_, refl, k.at_error n w' e no_)
    ]

    rounds-Finished :
        (rounds n : ℕ) (w : W)
        → n + rounds ≡ p.max_retries + 1
        → 0 < rounds
        → Finished n (retry_rounds p r rounds n w)
    unfolding retry_rounds
    rounds-Finished zero n w h pos = elim pos [ ]
    rounds-Finished (suc rounds) n w h pos = elim (Bool-cases (r.aborted w)) [
      | inl stop ↦ rw stop (_, refl, k.at_abort n w)
      | inr go ↦ rw go (
          attempted-Finished n w (retry_rounds p r rounds)
            (λ e w' g. rounds-Finished rounds (n + 1) w' (omega arith) (ground arith)) _ refl)
    ]

    -- `retry` ends, and its end satisfies the postcondition.
    pub retry_finished : (w : W) → (d : Retried E A W) × (retry p r w ≡ some d) × P 0 d
    unfolding retry
    retry_finished w = rounds-Finished (p.max_retries + 1) 0 w (omega arith) (omega arith)
