-- ===== src/Ingest/Tests.antt =====
-- Runs of the queue of uploaded files, and the theorems on them.
use tallei_ai.Common.{
  ◌≢◌, resolved, rejected, All, select_where, update_where, ◌⊎◌, ◌∷◌, ◌^◌, false, starts, refl,
  none, includes, arith, [], true, some, mentions, ◌≡◌, List, ℕ, String,
}
use tallei_ai.Ingest.{
  same_job, claimed, claimable, compute_upload_ingest_retry_delay_ms, sooner, reset_processing,
  enqueue_uploaded_file_ingest, should_retry, pending, processing, next_job, UploadedFileRef,
  claim_next_pending_job, IngestConfig, is_retryable_upload_ingest_error, set_job_retry_or_failed,
  ingest_config, Job,
}
use tallei_ai.Ingest.Workers.{in_flight, run-IsExclusive, Step, IsExclusive, Reach, Queue}
use tallei_ai.Ingest.Claims.{claim_next_pending_job-IsClaim, IsClaim}
use tallei_ai.Ingest.Stranded.{reset_strands, put_back}
use tallei_ai.Ingest.Rows.{Life, Lives, restarts-IsSound, IsConsistent, IsSound}
use mathlib.Core.List.{Memᴰ}
use tallei_ai.Ingest.Retries.{retry_or_failed_rows, Rescheduled}
use tallei_ai.Ingest.Batches.{
  enqueue_uploaded_files_ingest-IsFiled, enqueue_uploaded_files_ingest, IsFiled, Insertion,
}

abbrev config : IngestConfig
config = record { max_attempts = 2; retry_base_ms = 250; retry_max_ms = 1_000 }

config_is_clamped : ingest_config 2 10 1_000 ≡ config
unfolding ingest_config
config_is_clamped = refl

not_retried : is_retryable_upload_ingest_error "Unsupported file type" ≡ false
unfolding is_retryable_upload_ingest_error mentions includes starts
not_retried = refl

retried : is_retryable_upload_ingest_error "fetch failed" ≡ true
unfolding is_retryable_upload_ingest_error mentions includes starts
retried = refl

abbrev job : String → ℕ → Job
job ref at = record {
  ref = ref;
  tenant_id = "t";
  user_id = "u";
  openai_file_id = "file";
  download_link = some "https://files.example/1";
  filename = "a.pdf";
  title = none;
  mime_type = none;
  conversation_id = none;
  status = pending;
  document_id = none;
  error = none;
  attempt_count = 0;
  max_attempts = 2;
  next_attempt_at = at;
  last_attempt_at = none;
  created_at = at;
  completed_at = none;
}

abbrev two_jobs : List Job
two_jobs = job "ing_b" 20 ∷ job "ing_a" 10 ∷ []

claims_the_older : claim_next_pending_job true 30 two_jobs ≡ (
  some (claimed true 30 (job "ing_a" 10)),
  job "ing_b" 20 ∷ claimed true 30 (job "ing_a" 10) ∷ [],
)
unfolding claim_next_pending_job next_job sooner claimable claimed select_where update_where
claims_the_older = refl

claim_next_pending_job-IsClaim_example :
    IsClaim true 30 two_jobs
      (claim_next_pending_job true 30 two_jobs).0
      (claim_next_pending_job true 30 two_jobs).1
claim_next_pending_job-IsClaim_example = claim_next_pending_job-IsClaim true 30 two_jobs

abbrev running : Job
running = record (job "ing_a" 10) {
  status = processing;
  attempt_count = 1;
  last_attempt_at = some 30;
}

abbrev waiting_again : Job
waiting_again = record running {
  status = pending;
  error = some "fetch failed";
  next_attempt_at = 327;
}

retries_later :
    set_job_retry_or_failed config 40 (2 ^ 52) running "fetch failed" 1 2 (running ∷ [])
    ≡ waiting_again ∷ []
unfolding set_job_retry_or_failed should_retry compute_upload_ingest_retry_delay_ms
    is_retryable_upload_ingest_error mentions includes starts update_where
retries_later = refl

retry_or_failed_rows_example :
    (Memᴰ waiting_again (running ∷ []) × (same_job running waiting_again ≡ false))
    ⊎ ((r : Job) × Memᴰ r (running ∷ [])
        × (same_job running r ≡ true)
        × Rescheduled config 40 "fetch failed" 1 2 r waiting_again)
retry_or_failed_rows_example =
    retry_or_failed_rows config 40 (2 ^ 52) running "fetch failed" 1 2 (running ∷ []) (omega arith)
      (rw retries_later (Memᴰ.head refl))

abbrev file : UploadedFileRef
file = record {
  id = "file";
  name = some "a.pdf";
  mime_type = none;
  download_link = "https://files.example/1";
}

abbrev empty : Queue
empty = record { jobs = []; flying = [] }

abbrev enqueued : Queue
enqueued = record {
  jobs = enqueue_uploaded_file_ingest config 10 "ing_a" "t" "u" "a.pdf" file none none [];
  flying = [];
}

abbrev at_work : Queue
at_work = record {
  jobs = (claim_next_pending_job true 30 enqueued.jobs).1;
  flying = in_flight (claim_next_pending_job true 30 enqueued.jobs).0 [];
}

goes_to_work : Reach config empty at_work
goes_to_work =
    Reach.next (Reach.next Reach.here (Step.enqueue 10 "ing_a" "t" "u" "a.pdf" file none none tt))
      (Step.claim 30)

run-IsExclusive_example : IsExclusive at_work
run-IsExclusive_example = run-IsExclusive config goes_to_work

abbrev restarted : Queue
restarted = record at_work { jobs = reset_processing at_work.jobs }

restarts-IsSound_example : IsSound restarted
restarts-IsSound_example = restarts-IsSound config (omega arith) (
    Lives.then_
      (Lives.then_
        (Lives.then_ Lives.born
          (Life.work (Step.enqueue 10 "ing_a" "t" "u" "a.pdf" file none none tt)))
        (Life.work (Step.claim 30)))
      Life.restart)

abbrev last_attempt : Job
last_attempt = record running { attempt_count = 2 }

last_attempt-IsConsistent : IsConsistent last_attempt
last_attempt-IsConsistent = ground arith

abbrev lost : Queue
lost = record { jobs = last_attempt ∷ []; flying = [] }

lost-IsSound : IsSound lost
lost-IsSound = record { keys = (tt, tt); rows = (last_attempt-IsConsistent, tt) }

abbrev claimed_again : Queue
claimed_again = record {
  jobs = (claim_next_pending_job true 9_999 (reset_processing lost.jobs)).1;
  flying = in_flight (claim_next_pending_job true 9_999 (reset_processing lost.jobs)).0 [];
}

reset_strands_example :
    Memᴰ (put_back last_attempt) claimed_again.jobs
    × All (λ f. f.ref ≢ "ing_a") claimed_again.flying
reset_strands_example =
    reset_strands config {q = lost} {s = claimed_again} last_attempt (omega arith) lost-IsSound
      (Memᴰ.head refl) refl refl tt (Lives.then_ Lives.born (Life.work (Step.claim 9_999)))

abbrev two_files : List Insertion
two_files =
    record { file = file; result = rejected "connection lost" }
    ∷ record { file = file; result = resolved ("ing_c", "a.pdf") }
    ∷ []

enqueue_uploaded_files_ingest-IsFiled_example :
    IsFiled config 50 "t" "u" none none two_files two_jobs
      (enqueue_uploaded_files_ingest config 50 "t" "u" none none two_files two_jobs)
enqueue_uploaded_files_ingest-IsFiled_example =
    enqueue_uploaded_files_ingest-IsFiled config 50 "t" "u" none none two_files two_jobs
