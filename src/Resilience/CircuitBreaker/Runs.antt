-- ===== src/Resilience/CircuitBreaker/Runs.antt =====
-- What the callers of a breaker see over a run of calls, one after the other.
use tallei_ai.Common.{
  none, rejected, resolved, Settled, false, ap, ◌∙◌, ℕ, ◌+◌, ◌≤◌, ◌<◌, ◌≡◌, refl, true, some, List,
  [], ◌∷◌, length, All, arith, if◌then◌else◌,
}
use tallei_ai.Resilience.CircuitBreaker.{
  close, half_open, open_, trip, closed, Breaker, admit, settle,
}

pub record Call (E A : Type 0) : Type 0 where
  pub started_at : ℕ
  pub settled_at : ℕ
  pub result : Settled E A

abbrev probing : {E : Type 0} → Breaker E → Breaker E
probing b = record b { state = half_open; failure_count = 0; half_open_success_count = 0 }

module _ {E A : Type 0} where
  -- One call of `execute`, with the result that its operation has if it is called.
  unfoldable pub call : Call E A → Breaker E → Breaker E
  unfolding admit settle
  call c b =
      let (b', admitted) = admit c.started_at b in
      if admitted then settle c.settled_at c.result b' else b'

  unfoldable pub calls : List (Call E A) → Breaker E → Breaker E
  calls [] b = b
  calls (c ∷ cs) b = calls cs (call c b)

  abbrev pub Resolves : Call E A → Type 0
  Resolves c = (a : A) × (c.result ≡ resolved a)

  abbrev pub Fails : Breaker E → Call E A → Type 0
  Fails b c = (e : E) × (c.result ≡ rejected e) × (b.should_count_failure e ≡ true)

  call-failing :
      (c : Call E A) (b : Breaker E)
      → b.state ≡ closed
      → Fails b c
      → b.failure_count + 1 < b.failure_threshold
      → call c b ≡ record b { failure_count = b.failure_count + 1 }
  unfolding call
  call-failing c b s (e, r, k) h = ground arith

  failures_add :
      (cs : List (Call E A)) (b : Breaker E)
      → b.state ≡ closed
      → All (Fails b) cs
      → b.failure_count + length cs < b.failure_threshold
      → calls cs b ≡ record b { failure_count = b.failure_count + length cs }
  unfolding calls
  failures_add [] b s fs h = ap (λ n. record b { failure_count = n }) (omega arith)
  failures_add (c ∷ cs) b s (f, fs) h =
      let b' : Breaker E = record b { failure_count = b.failure_count + 1 } in
      rw (call-failing c b s f (omega arith)) (
        failures_add cs b' s fs (omega arith)
        ∙ ap (λ n. record b { failure_count = n }) (omega arith))

  call-tripping :
      (c : Call E A) (b : Breaker E)
      → b.state ≡ closed
      → Fails b c
      → b.failure_count + 1 ≡ b.failure_threshold
      → call c b ≡ record b {
        state = open_;
        failure_count = b.failure_threshold;
        half_open_success_count = 0;
        opened_at_ms = some c.settled_at;
      }
  unfolding call trip
  call-tripping c b s (e, r, k) h = ground arith

  -- A closed breaker stays closed while the failures in a row, each of which counts, are fewer than
  -- the threshold. The one that reaches it leaves the breaker open since the time when it settled,
  -- with as many failures as the threshold and no successes.
  pub calls-trip :
      (cs : List (Call E A)) (d : Call E A) (b : Breaker E)
      → b.state ≡ closed
      → All (Fails b) cs
      → Fails b d
      → b.failure_count + length cs + 1 ≡ b.failure_threshold
      → ((calls cs b).state ≡ closed)
        × (call d (calls cs b) ≡ record b {
          state = open_;
          failure_count = b.failure_threshold;
          half_open_success_count = 0;
          opened_at_ms = some d.settled_at;
        })
  calls-trip cs d b s fs f h =
      let b' : Breaker E = record b { failure_count = b.failure_count + length cs } in
      rw (failures_add cs b s fs (omega arith)) (s, call-tripping d b' s f h)

  refuses :
      (c : Call E A) (b : Breaker E) (t : ℕ)
      → b.state ≡ open_
      → b.opened_at_ms ≡ some t
      → c.started_at < t + b.cool_off_ms
      → admit c.started_at b ≡ (b, false)
  unfolding admit
  refuses c b t s o h = ground arith

  call-refused : (c : Call E A) (b : Breaker E) → admit c.started_at b ≡ (b, false) → call c b ≡ b
  unfolding call
  call-refused c b h = ground arith

  -- While the cool-off runs, a tripped breaker turns every call away and does not change.
  pub calls_fail_fast :
      (cs : List (Call E A)) (b : Breaker E) (t : ℕ)
      → b.state ≡ open_
      → b.opened_at_ms ≡ some t
      → All (λ c. c.started_at < t + b.cool_off_ms) cs
      → (calls cs b ≡ b) × All (λ c. admit c.started_at b ≡ (b, false)) cs
  unfolding calls
  calls_fail_fast [] b t s o h = (refl, tt)
  calls_fail_fast (c ∷ cs) b t s o (h, hs) =
      let turned_away : admit c.started_at b ≡ (b, false) = refuses c b t s o h in
      let rest = calls_fail_fast cs b t s o hs in
      (rw (call-refused c b turned_away) rest.0, (turned_away, rest.1))

  call-probing :
      (c : Call E A) (b : Breaker E)
      → b.state ≡ half_open
      → Resolves c
      → b.half_open_success_count + 1 < b.half_open_success_threshold
      → call c b ≡ record b { half_open_success_count = b.half_open_success_count + 1 }
  unfolding call
  call-probing c b s (a, r) h = ground arith

  call-closing :
      (c : Call E A) (b : Breaker E)
      → b.state ≡ half_open
      → Resolves c
      → b.half_open_success_count + 1 ≡ b.half_open_success_threshold
      → call c b ≡ record b {
        state = closed;
        failure_count = 0;
        half_open_success_count = 0;
        opened_at_ms = none;
      }
  unfolding call close
  call-closing c b s (a, r) h = ground arith

  probing_closes :
      (c : Call E A) (cs : List (Call E A)) (b : Breaker E)
      → b.state ≡ half_open
      → All Resolves (c ∷ cs)
      → b.half_open_success_count + length (c ∷ cs) ≡ b.half_open_success_threshold
      → calls (c ∷ cs) b ≡ record b {
        state = closed;
        failure_count = 0;
        half_open_success_count = 0;
        opened_at_ms = none;
      }
  unfolding calls
  probing_closes c [] b s (r, _) h = call-closing c b s r (omega arith)
  probing_closes c (d ∷ cs) b s (r, rs) h =
      let b' : Breaker E = record b { half_open_success_count = b.half_open_success_count + 1 } in
      rw (call-probing c b s r (omega arith)) (probing_closes d cs b' s rs (omega arith))

  call-cooled :
      (c : Call E A) (b : Breaker E) (t : ℕ)
      → b.state ≡ open_
      → b.opened_at_ms ≡ some t
      → t + b.cool_off_ms ≤ c.started_at
      → call c b ≡ call c (probing b)
  unfolding call
  call-cooled c b t s o h = ground arith

  -- Once the cool-off is over, as many successes in a row as the half-open threshold asks for close
  -- a tripped breaker: it then has no failures, no successes and no opening time.
  pub calls_recover :
      (c : Call E A) (cs : List (Call E A)) (b : Breaker E) (t : ℕ)
      → b.state ≡ open_
      → b.opened_at_ms ≡ some t
      → t + b.cool_off_ms ≤ c.started_at
      → All Resolves (c ∷ cs)
      → length (c ∷ cs) ≡ b.half_open_success_threshold
      → calls (c ∷ cs) b ≡ record b {
        state = closed;
        failure_count = 0;
        half_open_success_count = 0;
        opened_at_ms = none;
      }
  unfolding calls
  calls_recover c cs b t s o late rs n =
      rw (call-cooled c b t s o late) (probing_closes c cs (probing b) refl rs (omega arith))
