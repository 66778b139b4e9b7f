-- ===== src/Ingest/Fates.antt =====
-- What one loop of a poll does to each job.
use mathlib.Core.List.{◌∷◌}
use tallei_ai.Common.{
  ◌+◌, ◌⊎◌, true, ◌≡◌, if◌then◌else◌, ◌<◌, ℕ, update_where, Bool, List, some, [], resolved,
  rejected,
}
use tallei_ai.Ingest.{
  with_link, same_job, process_claimed_job, Ingested, IngestConfig, Job, pending, done, failed,
}
use tallei_ai.Ingest.Queue.{MayClaim}
use tallei_ai.Ingest.Claims.{taken}

-- The rows of two tables, place by place
abbrev pub Each : (Job → Job → Type 0) → List Job → List Job → Type 0
Each P [] [] = Unit
Each P (x ∷ xs) (y ∷ ys) = P x y × Each P xs ys
Each P [] (y ∷ ys) = ⊥
Each P (x ∷ xs) [] = ⊥

abbrev or_same : (Job → Bool) → (Job → Job) → Job → Job
or_same p f x = if p x then f x else x

-- How a claimed job ends: its document is noted, or the error, and in this case it has failed or waits.
abbrev pub Landed : (now : ℕ) → Ingested → Job → Type 0
Landed now (resolved document_id) r = (r.status ≡ done) × (r.document_id ≡ document_id)
Landed now (rejected message) r =
    (r.error ≡ some message)
    × ((r.status ≡ failed) ⊎ ((r.status ≡ pending) × (now < r.next_attempt_at)))

module _ (c : IngestConfig) (base : 0 < c.retry_base_ms) (most : 0 < c.retry_max_ms)
    (now random : ℕ) (ingest : Job → Ingested) where
  abbrev pub Treated : Job → Job → Type 0
  Treated r r' =
      MayClaim true now r
      × (r'.ref ≡ r.ref)
      × (r'.attempt_count ≡ r.attempt_count + 1)
      × Landed now (with_link r.download_link (ingest (taken true now r))) r'

  -- A job that was due is treated, and any other is left.
  abbrev pub Fate : Job → Job → Type 0
  Fate r r' = (¬ MayClaim true now r) × (r' ≡ r) ⊎ Treated r r'

  abbrev SoFar : Job → Job → Type 0
  SoFar r r' = (r' ≡ r) ⊎ Treated r r'

  abbrev Lands : Job → Ingested → List Job → Type 0
  Lands j o jobs =
      (g : Job → Job) × (process_claimed_job c true now random j o jobs
        ≡ update_where (same_job j) g jobs)
      × ((y : Job) → (g y).ref ≡ y.ref)
      × ((y : Job) → (g y).attempt_count ≡ y.attempt_count)
      × ((y : Job) → Landed now (with_link j.download_link o) (g y))
