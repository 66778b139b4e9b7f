-- ===== src/Resilience/Policies.antt =====
-- src/resilience/policies.ts: the tables of timeouts, retries and circuits, in milliseconds.
use tallei_ai.Common.{
  inr, inl, refl, Bool-cases, arith, ◌+◌, ◌≤◌, ◌-◌, ◌^◌, ◌*◌, [], ◌≡◌, ◌∷◌, All, ◌<◌, List, ℕ,
  Option, none, some, String, str_eq, if◌then◌else◌,
}
use tallei_ai.Resilience.Retry.{RetryPolicy, equal}

pub record CircuitPolicyConfig : Type 0 where
  pub failure_threshold : ℕ
  pub cool_off_ms : ℕ
  pub half_open_success_threshold : ℕ

pub record NamedPolicyConfig (E : Type 0) : Type 0 where
  pub timeout_ms : ℕ
  pub retry : Option (RetryPolicy E)
  pub circuit : CircuitPolicyConfig

pub record ResiliencePolicies (E : Type 0) : Type 0 where
  pub chat_policy : NamedPolicyConfig E
  pub embed_policy : NamedPolicyConfig E
  pub rerank_policy : NamedPolicyConfig E
  pub summarize_policy : NamedPolicyConfig E
  pub fact_extract_policy : NamedPolicyConfig E
  pub graph_extract_policy : NamedPolicyConfig E
  pub vector_search_policy : NamedPolicyConfig E
  pub vector_upsert_policy : NamedPolicyConfig E

module _ (E : Type 0) where
  -- every retry of the tables has equal jitter, and no `shouldRetry`
  abbrev retry_policy : (max_retries initial_delay_ms max_delay_ms : ℕ) → Option (RetryPolicy E)
  retry_policy n initial most = some (record {
    max_retries = n;
    initial_delay_ms = initial;
    max_delay_ms = most;
    jitter = equal;
    should_retry = none;
  })

  abbrev circuit : (failures cool_off_ms successes : ℕ) → CircuitPolicyConfig
  circuit failures cool successes = record {
    failure_threshold = failures;
    cool_off_ms = cool;
    half_open_success_threshold = successes;
  }

  abbrev named : ℕ → Option (RetryPolicy E) → CircuitPolicyConfig → NamedPolicyConfig E
  named t r c = record { timeout_ms = t; retry = r; circuit = c }

  abbrev pub production_resilience_policies : ResiliencePolicies E
  production_resilience_policies = record {
    chat_policy = named 10_000 (retry_policy 2 500 2_000) (circuit 5 30_000 2);
    embed_policy = named 5_000 (retry_policy 3 300 1_500) (circuit 8 20_000 2);
    rerank_policy = named 8_000 (retry_policy 1 300 1_000) (circuit 3 60_000 1);
    summarize_policy = named 15_000 (retry_policy 1 500 1_500) (circuit 3 60_000 1);
    fact_extract_policy = named 10_000 (retry_policy 1 500 1_500) (circuit 3 60_000 1);
    graph_extract_policy = named 30_000 (retry_policy 2 2_000 10_000) (circuit 5 120_000 2);
    vector_search_policy = named 8_000 (retry_policy 2 300 1_500) (circuit 6 30_000 2);
    vector_upsert_policy = named 10_000 (retry_policy 3 500 2_000) (circuit 6 30_000 2);
  }

  abbrev with_timeout_ms : ℕ → NamedPolicyConfig E → NamedPolicyConfig E
  with_timeout_ms t c = record c { timeout_ms = t }

  abbrev pub development_resilience_policies : ResiliencePolicies E
  development_resilience_policies =
      let base = production_resilience_policies in
      record base {
        chat_policy = with_timeout_ms 15_000 base.chat_policy;
        embed_policy = with_timeout_ms 8_000 base.embed_policy;
        summarize_policy = with_timeout_ms 20_000 base.summarize_policy;
        graph_extract_policy = with_timeout_ms 40_000 base.graph_extract_policy;
      }

  unfoldable pub resolve_resilience_policies : String → ResiliencePolicies E
  resolve_resilience_policies environment =
      if str_eq environment "production"
      then production_resilience_policies
      else development_resilience_policies

abbrev pub entries : {E : Type 0} → ResiliencePolicies E → List (NamedPolicyConfig E)
entries t =
    t.chat_policy ∷ t.embed_policy ∷ t.rerank_policy ∷ t.summarize_policy ∷ t.fact_extract_policy
    ∷ t.graph_extract_policy ∷ t.vector_search_policy ∷ t.vector_upsert_policy ∷ []

-- A policy times out, needs failures to trip and successes to close, retries, and has a cap on the
-- delays that its own retries never reach beyond.
abbrev pub IsCoherent : {E : Type 0} → NamedPolicyConfig E → Type 0
IsCoherent {E} c =
    (0 < c.timeout_ms)
    × (0 < c.circuit.failure_threshold)
    × (0 < c.circuit.cool_off_ms)
    × (0 < c.circuit.half_open_success_threshold)
    × (r : RetryPolicy E) × (c.retry ≡ some r)
    × (0 < r.max_retries)
    × (r.initial_delay_ms * 2 ^ (r.max_retries - 1) ≤ r.max_delay_ms)
    × ((r.max_retries + 1) * c.timeout_ms + r.max_retries * r.max_delay_ms ≤ 140_000)

abbrev Numbers : (t n initial most failures cool successes : ℕ) → Type 0
Numbers t n initial most failures cool successes =
    (0 < t)
    × (0 < failures)
    × (0 < cool)
    × (0 < successes)
    × (0 < n)
    × (initial * 2 ^ (n - 1) ≤ most)
    × ((n + 1) * t + n * most ≤ 140_000)

module _ (E : Type 0) where
  entry :
      (t n initial most failures cool successes : ℕ)
      → Numbers t n initial most failures cool successes
      → IsCoherent (named E t (retry_policy E n initial most) (circuit E failures cool successes))
  entry t n initial most failures cool successes (a, b, c, d, e, f, g) =
      (a, b, c, d, _, refl, e, f, g)

  production-IsCoherent : All IsCoherent (entries (production_resilience_policies E))
  production-IsCoherent = (
    entry 10_000 2 500 2_000 5 30_000 2 (omega arith),
    (
      entry 5_000 3 300 1_500 8 20_000 2 (omega arith),
      (
        entry 8_000 1 300 1_000 3 60_000 1 (omega arith),
        (
          entry 15_000 1 500 1_500 3 60_000 1 (omega arith),
          (
            entry 10_000 1 500 1_500 3 60_000 1 (omega arith),
            (
              entry 30_000 2 2_000 10_000 5 120_000 2 (omega arith),
              (
                entry 8_000 2 300 1_500 6 30_000 2 (omega arith),
                (entry 10_000 3 500 2_000 6 30_000 2 (omega arith), tt),
              ),
            ),
          ),
        ),
      ),
    ),
  )

  development-IsCoherent : All IsCoherent (entries (development_resilience_policies E))
  development-IsCoherent = (
    entry 15_000 2 500 2_000 5 30_000 2 (omega arith),
    (
      entry 8_000 3 300 1_500 8 20_000 2 (omega arith),
      (
        entry 8_000 1 300 1_000 3 60_000 1 (omega arith),
        (
          entry 20_000 1 500 1_500 3 60_000 1 (omega arith),
          (
            entry 10_000 1 500 1_500 3 60_000 1 (omega arith),
            (
              entry 40_000 2 2_000 10_000 5 120_000 2 (omega arith),
              (
                entry 8_000 2 300 1_500 6 30_000 2 (omega arith),
                (entry 10_000 3 500 2_000 6 30_000 2 (omega arith), tt),
              ),
            ),
          ),
        ),
      ),
    ),
  )

  -- In every environment each of the eight policies has a positive timeout, thresholds and cool-off,
  -- retries at least once, has an exponential delay that its cap never cuts, and takes at most 140
  -- seconds over its attempts and the waits between them.
  pub policies-IsCoherent :
      (environment : String) → All IsCoherent (entries (resolve_resilience_policies E environment))
  unfolding resolve_resilience_policies
  policies-IsCoherent environment = elim (Bool-cases (str_eq environment "production")) [
    | inl production ↦ rw production production-IsCoherent
    | inr other ↦ rw other development-IsCoherent
  ]
