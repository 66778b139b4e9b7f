-- ===== src/Ingest/Retries.antt =====
-- What a failed attempt leaves in the table, and when the next one is due.
use mathlib.Core.List.{Memᴰ}
use tallei_ai.Common.{
  update_where-mem, ℕ, ◌+◌, ◌-◌, ◌*◌, ◌/◌, ◌^◌, ◌≤◌, ◌<◌, ◌≡◌, refl, min, max, arith, true, false,
  some, none, String, List, ◌⊎◌, inl, inr, Bool-cases,
}
use tallei_ai.Ingest.{
  IngestConfig, compute_upload_ingest_retry_delay_ms, is_retryable_upload_ingest_error,
  should_retry, Job, pending, failed, same_job, set_job_retry_or_failed,
}

mul_room : (b : ℕ) {k m : ℕ} → k < m → b * k + b ≤ b * m
mul_room b {k} {m} h = let e : b * k + b ≡ b * (k + 1) = omega arith in rw e (grind arith)

jitter_lt : (k room : ℕ) → k < 2 ^ 53 → 0 < room → k * room / 2 ^ 53 < room
jitter_lt k room h pos =
    let small : room * k + room ≤ room * 2 ^ 53 = mul_room room h in omega arith

-- The delay that is due after `n` attempts, without its jitter.
abbrev pub capped : IngestConfig → ℕ → ℕ
capped c n = min c.retry_max_ms (c.retry_base_ms * 2 ^ (max 1 n - 1))

abbrev pub IsDelay : IngestConfig → ℕ → ℕ → Type 0
IsDelay c n delay = (capped c n ≤ delay) × (10 * delay ≤ 13 * capped c n)

waits-IsDelay :
    (c : IngestConfig) (n random : ℕ)
    → random < 2 ^ 53
    → IsDelay c n (compute_upload_ingest_retry_delay_ms c n random)
unfolding compute_upload_ingest_retry_delay_ms
waits-IsDelay c n k h =
    let less = jitter_lt k (max 1 (capped c n * 3 / 10)) h (omega arith) in omega arith

-- What a failure does to the row of the job.
abbrev pub Rescheduled : IngestConfig → ℕ → String → (n most : ℕ) → Job → Job → Type 0
Rescheduled c now error n most r r' =
    (r'.ref ≡ r.ref)
    × (r'.attempt_count ≡ r.attempt_count)
    × (r'.error ≡ some error)
    × ((is_retryable_upload_ingest_error error ≡ true)
          × (n < most)
          × (r'.status ≡ pending)
          × (r'.completed_at ≡ none)
          × ((delay : ℕ) × (r'.next_attempt_at ≡ now + delay)
              × (capped c n ≤ delay)
              × (10 * delay ≤ 13 * capped c n))
        ⊎ ((is_retryable_upload_ingest_error error ≡ false) ⊎ (most ≤ n))
          × (r'.status ≡ failed)
          × (r'.completed_at ≡ some now))

should_retry_true :
    (error : String) (n most : ℕ)
    → should_retry error n most ≡ true
    → (is_retryable_upload_ingest_error error ≡ true) × (n < most)
unfolding should_retry
should_retry_true error n most h = ground arith

should_retry_false :
    (error : String) (n most : ℕ)
    → should_retry error n most ≡ false
    → (is_retryable_upload_ingest_error error ≡ false) ⊎ (most ≤ n)
unfolding should_retry
should_retry_false error n most h = ground arith

-- After a failed attempt `n` of at most `most`, a row of the table is an untouched row of other jobs
-- or the job's row: if the error may be retried and attempts are left, that is pending again, due
-- after the capped exponential delay and at most 30% more; otherwise it is failed, and complete.
pub retry_or_failed_rows :
    (c : IngestConfig) (now random : ℕ) (j : Job) (error : String) (n most : ℕ) (jobs : List Job)
    {r' : Job}
    → random < 2 ^ 53
    → Memᴰ r' (set_job_retry_or_failed c now random j error n most jobs)
    → (Memᴰ r' jobs × (same_job j r' ≡ false))
      ⊎ ((r : Job) × Memᴰ r jobs × (same_job j r ≡ true) × Rescheduled c now error n most r r')
unfolding set_job_retry_or_failed
retry_or_failed_rows c now random j error n most jobs h m =
    elim (update_where-mem (same_job j) _ jobs m) [
      | inl other ↦ inl other
      | inr (r, listed, same, e) ↦ elim (Bool-cases (should_retry error n most)) [
        | inl again ↦
            let (retryable, left) = should_retry_true error n most again in
            let due = waits-IsDelay c n random h in
            inr (
              r,
              listed,
              same,
              rw (e, again)
                  (refl, refl, refl, inl (retryable, left, refl, refl, (_, refl, due.0, due.1))),
            )
        | inr over ↦ inr (
          r,
          listed,
          same,
          rw (e, over) (refl, refl, refl, inr (should_retry_false error n most over, refl, refl)),
        )
      ]
    ]
