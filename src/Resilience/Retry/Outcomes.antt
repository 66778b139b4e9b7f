-- ===== src/Resilience/Retry/Outcomes.antt =====
-- How `retry` settles.
use mathlib.Core.Option
use tallei_ai.Common.{
  inr, inl, Bool-cases, Option, le→leb, ℕ, zero, suc, ◌+◌, ◌≤◌, ◌<◌, ◌≡◌, ◌⊎◌, refl, ap, true,
  false, some, arith, Settled, resolved, rejected,
}
use tallei_ai.Resilience.Retry.{
  compute_jittered_delay_ms, RetryAttemptContext, RetryPolicy, Runtime, Thrown, from_operation,
  Retried, retriable, ends, note, retry_rounds, retry, round, attempted, again, sleep,
}
use tallei_ai.Resilience.Retry.Induction.{sleep-OnlyAborts, OnlyAborts, IsAbort, retries, context}

abbrev value_or : {E A : Type 0} → A → Settled E A → A
value_or d (resolved a) = a
value_or d (rejected e) = d

module _ {E A W : Type 0} (p : RetryPolicy E) (r : Runtime E A W) where
  -- The run that starts in the world `start` comes to its call number `n + 1` in the world `w`.
  pub data Reached (start : W) : ℕ → W → Type 0 where
    begins : Reached start 0 start
    retries_in :
        {n : ℕ} {w w' : W} (e : E) (after : W)
        → Reached start n w
        → r.operation (n + 1) w ≡ (rejected e, after)
        → n < p.max_retries
        → retriable p e ≡ true
        → sleep p r
            (compute_jittered_delay_ms p r (n + 1) after).0
            (compute_jittered_delay_ms p r (n + 1) after).1
          ≡ (resolved tt, w')
        → Reached start (n + 1) w'

  -- The run makes its call number `last`, which settles as `s` and leaves the world `after`.
  abbrev pub LastCall : (start : W) → (last : ℕ) → Settled E A → (after : W) → Type 0
  LastCall start last s after =
      (n : ℕ) × (w : W) × (last ≡ n + 1) × Reached start n w × (r.operation (n + 1) w ≡ (s, after))

  -- Why a run may settle as it does, if it made `last` calls and leaves the world `after`.
  abbrev pub Justified : (start : W) → (last : ℕ) → Settled (Thrown E) A → (after : W) → Type 0
  Justified start last (resolved a) after = LastCall start last (resolved a) after
  Justified start last (rejected (from_operation e)) after =
      LastCall start last (rejected e) after
      × ((last ≡ p.max_retries + 1) ⊎ (retriable p e ≡ false))
  Justified start last (rejected _) after = Unit

  aborted_Justified :
      (start : W) (last : ℕ) (t : Thrown E) (after : W)
      → IsAbort t
      → Justified start last (rejected t) after
  aborted_Justified start last (from_operation e) after h = absurd h
  aborted_Justified start last _ after h = tt

  abbrev Sound : (start : W) → ℕ → Option (Retried E A W) → Type 0
  Sound start n o =
      (d : Retried E A W) × (o ≡ some d) × Justified start (d.attempts + n) d.result d.world

  gives_up :
      (n : ℕ) (e : E)
      → retries p r (n + 1) e ≡ false
      → n ≤ p.max_retries
      → (1 + n ≡ p.max_retries + 1) ⊎ (retriable p e ≡ false)
  gives_up n e g h = ground arith

  goes_on :
      (n : ℕ) (e : E) → retries p r (n + 1) e ≡ true → (n < p.max_retries) × (retriable p e ≡ true)
  goes_on n e g = ground arith

  again-Sound :
      (start : W) (n : ℕ) (c : RetryAttemptContext E) (next : W → Option (Retried E A W))
      (s : Settled (Thrown E) (Unit {0}) × W)
      → OnlyAborts s.0
      → ((w : W) → s ≡ (resolved tt, w) → Sound start (n + 1) (next w))
      → Sound start n (again p r next c s)
  unfolding again
  again-Sound start n c next (resolved tt, w) aborts ih =
      let (d, eq, good) = ih w refl in
      let e : d.attempts + 1 + n ≡ d.attempts + (n + 1) = omega arith in
      (note p r c d, ap (Option.map (note p r c)) eq, rw e good)
  again-Sound start n c next (rejected t, w) aborts ih =
      (_, refl, aborted_Justified start _ t w aborts)

  attempted-Sound :
      (start : W) (n : ℕ) (w : W) (next : ℕ → W → Option (Retried E A W))
      → Reached start n w
      → n ≤ p.max_retries
      → ((w' : W)
          → Reached start (n + 1) w'
          → n < p.max_retries
          → Sound start (n + 1) (next (n + 1) w'))
      → (s : Settled E A × W) → r.operation (n + 1) w ≡ s
      → Sound start n (attempted p r next (n + 1) s)
  unfolding attempted
  attempted-Sound start n w next here most ih (resolved a, after) eq =
      (_, refl, (n, w, omega arith, here, eq))
  attempted-Sound start n w next here most ih (rejected e, after) eq =
      elim (Bool-cases (retries p r (n + 1) e)) [
        | inl yes_ ↦
            let (left, can) = goes_on n e yes_ in
            rw yes_ (
              again-Sound start n _ (next (n + 1)) _ (sleep-OnlyAborts p r _ _)
                (λ w' slept. ih w' (retries_in e after here eq left can slept) left))
        | inr no_ ↦ rw no_ (_, refl, ((n, w, omega arith, here, eq), gives_up n e no_ most))
      ]

  rounds-Sound :
      (start : W) (rounds n : ℕ) (w : W)
      → Reached start n w
      → n + rounds ≡ p.max_retries + 1
      → 0 < rounds
      → Sound start n (retry_rounds p r rounds n w)
  unfolding retry_rounds round
  rounds-Sound start zero n w here h pos = elim pos [ ]
  rounds-Sound start (suc rounds) n w here h pos = elim (Bool-cases (r.aborted w)) [
    | inl stop ↦ rw stop (_, refl, tt)
    | inr go ↦ rw go (
        attempted-Sound start n w (retry_rounds p r rounds) here (omega arith)
          (λ w' there lt.
            rounds-Sound start rounds (n + 1) w' there (omega arith) (omega (arith, lt, h)))
          _ refl)
  ]

  -- `retry` ends. If it returns, the last call that the run made returned that value, and left the
  -- world in which `retry` returns. If it throws an error of the operation, the last call that the run
  -- made threw it, and that call was the last allowed or the policy refuses to retry the error.
  pub retry_sound :
      (w : W)
      → (d : Retried E A W) × (retry p r w ≡ some d) × Justified w d.attempts d.result d.world
  unfolding retry
  retry_sound w =
      let (d, e, sound) =
        rounds-Sound w (p.max_retries + 1) 0 w Reached.begins (omega arith) (omega arith) in
      let eq : d.attempts + 0 ≡ d.attempts = omega arith in (d, e, rw eq at sound)

  -- The operation fails at an attempt with an error that the policy retries.
  abbrev pub FailsAgain : Settled E A → Type 0
  FailsAgain (resolved a) = ⊥
  FailsAgain (rejected e) = retriable p e ≡ true

  module _ (running : (w : W) → r.aborted w ≡ false)
      (waits : (delay : ℕ) (w : W) → (r.wait delay w).0 ≡ true) where
    sleep_resolves : (delay : ℕ) (w : W) → (w' : W) × (sleep p r delay w ≡ (resolved tt, w'))
    unfolding sleep
    sleep_resolves zero w = (w, refl)
    sleep_resolves (suc d) w = ((r.wait (suc d) w).1, ground (arith, running w, waits (suc d) w))

    abbrev Reaches : (a : A) (m n rounds : ℕ) (w : W) → Type 0
    Reaches a m n rounds w =
        (d : Retried E A W) × (retry_rounds p r rounds n w ≡ some d)
        × (d.result ≡ resolved a)
        × (d.attempts ≡ m + 1)

    attempted_value :
        (next : ℕ → W → Option (Retried E A W)) (k : ℕ) (a : A) (s : Settled E A × W)
        → s.0 ≡ resolved a
        → attempted p r next k s ≡ some (ends p r (resolved a) 1 s.1)
    unfolding attempted
    attempted_value next k a (resolved b, w) h =
        ap (λ v. some (ends p r (resolved v) 1 w)) (ap (value_or a) h)
    attempted_value next k a (rejected e, w) h = cc

    attempted_again :
        (next : ℕ → W → Option (Retried E A W)) (k : ℕ) (s : Settled E A × W)
        → FailsAgain s.0
        → k ≤ p.max_retries
        → (c : RetryAttemptContext E) × (w : W) × (attempted p r next k s
            ≡ Option.map (note p r c) (next k w))
    unfolding attempted again
    attempted_again next k (resolved a, w) h le = absurd h
    attempted_again next k (rejected e, w) h le =
        let (w', slept) =
          sleep_resolves (compute_jittered_delay_ms p r k w).0
            (compute_jittered_delay_ms p r k w).1 in
        let go : retries p r k e ≡ true = rw (le→leb k p.max_retries le, h) in
        (context p r k e w, w', rw (go, slept))

    reaches :
        (a : A) (m n rounds : ℕ) (w : W)
        → n + m ≤ p.max_retries
        → ((j : ℕ) (w : W) → n < j → j ≤ n + m → FailsAgain (r.operation j w).0)
        → ((w : W) → (r.operation (n + m + 1) w).0 ≡ resolved a)
        → m < rounds
        → Reaches a m n rounds w
    unfolding retry_rounds round
    reaches a m n zero w le fails works lt = elim lt [ ]
    reaches a zero n (suc rounds) w le fails works lt =
        let e : n + 0 + 1 ≡ n + 1 = omega arith in
        rw (running w) (
          _,
          attempted_value (retry_rounds p r rounds) (n + 1) a (r.operation (n + 1) w)
              (rw e at (works w)),
          refl,
          refl,
        )
    reaches a (suc m) n (suc rounds) w le fails works lt =
        let (c, w', step) =
          attempted_again (retry_rounds p r rounds) (n + 1) (r.operation (n + 1) w)
            (fails (n + 1) w (omega arith) (omega arith)) (omega arith) in
        let e : n + 1 + m + 1 ≡ n + suc m + 1 = omega arith in
        let (d, eq, value, count) =
          reaches a m (n + 1) rounds w' (omega arith)
            (λ j v lo hi. fails j v (omega arith) (omega arith)) (λ v. rw e (works v))
            (omega arith) in
        rw (running w, step, eq) (_, refl, value, omega arith)

    -- If the caller never aborts, and the operation fails with retriable errors at the attempts up to
    -- `k`, where `k` is within `maxRetries`, and returns `a` at the next one, then `retry` returns
    -- `a` after exactly `k + 1` calls.
    pub retry_reaches :
        (a : A) (k : ℕ) (w : W)
        → k ≤ p.max_retries
        → ((j : ℕ) (w : W) → 0 < j → j ≤ k → FailsAgain (r.operation j w).0)
        → ((w : W) → (r.operation (k + 1) w).0 ≡ resolved a)
        → (d : Retried E A W) × (retry p r w ≡ some d)
          × (d.result ≡ resolved a)
          × (d.attempts ≡ k + 1)
    unfolding retry
    retry_reaches a k w le fails works =
        reaches a k 0 (p.max_retries + 1) w (omega arith) (λ j v lo hi. fails j v lo (omega arith))
          (λ v. let e : 0 + k + 1 ≡ k + 1 = omega arith in rw e (works v)) (omega arith)
