-- ===== src/Ingest.antt =====
-- src/services/uploaded-file-ingest-jobs.ts: the queue of uploaded files that wait to become
-- documents. The table is the list of its rows, times are milliseconds, and each SQL statement is
-- one function on the table. `columns` is what `hasRetryColumns` answers. Where several rows come
-- first in an `ORDER BY`, the first in the list is taken.
pub mod Retries
pub mod Queue
pub mod Claims
pub mod Workers
pub mod Rows
pub mod Stranded
pub mod Polling
pub mod Fates
pub mod Batches
mod Tests
use tallei_ai.Common.{
  ℕ, suc, ◌+◌, ◌-◌, ◌*◌, ◌/◌, ◌%◌, ◌^◌, min, max, String, str_eq, Bool, true, false, not, ◌&&◌,
  ◌||◌, Option, none, some, List, [], ◌∷◌, ◌++◌, map, ltb, leb, ◌==◌, if◌then◌else◌, Settled,
  resolved, rejected, update_where, select_where, first_where, mentions,
}

pub data JobDbStatus : Type 0 where
  pending processing done failed : JobDbStatus

pub record Job : Type 0 where
  pub ref : String
  pub tenant_id : String
  pub user_id : String
  pub openai_file_id : String
  pub download_link : Option String
  pub filename : String
  pub title : Option String
  pub mime_type : Option String
  pub conversation_id : Option String
  pub status : JobDbStatus
  pub document_id : Option String
  pub error : Option String
  pub attempt_count : ℕ
  pub max_attempts : ℕ
  pub next_attempt_at : ℕ
  pub last_attempt_at : Option ℕ
  pub created_at : ℕ
  pub completed_at : Option ℕ

-- the module's constants, as far as they are read here, after their `Math.max`
pub record IngestConfig : Type 0 where
  pub max_attempts : ℕ
  pub retry_base_ms : ℕ
  pub retry_max_ms : ℕ

unfoldable pub ingest_config : (max_attempts retry_base_ms retry_max_ms : ℕ) → IngestConfig
ingest_config attempts base most =
    let base' : ℕ = max 250 base in
    record { max_attempts = max 1 attempts; retry_base_ms = base'; retry_max_ms = max base' most }

-- `Math.random()` is `random` of 2^53 parts; the product with 0.3 is exact.
unfoldable pub compute_upload_ingest_retry_delay_ms : IngestConfig → ℕ → ℕ → ℕ
compute_upload_ingest_retry_delay_ms c attempt_count random =
    let attempt : ℕ = max 1 attempt_count in
    let exponential : ℕ = c.retry_base_ms * 2 ^ (attempt - 1) in
    let capped : ℕ = min c.retry_max_ms exponential in
    let jitter : ℕ = random * max 1 (capped * 3 / 10) / 2 ^ 53 in capped + jitter

unfoldable pub is_retryable_upload_ingest_error : String → Bool
is_retryable_upload_ingest_error message = not (
    mentions "unsupported" message
    || mentions "not supported" message
    || mentions "legacy .doc" message
    || mentions "empty content" message
    || mentions "missing download_link" message)

is_pending : JobDbStatus → Bool
is_pending pending = true
is_pending _ = false

-- the key of the updates that finish a job
abbrev pub same_job : Job → Job → Bool
same_job j r = str_eq r.tenant_id j.tenant_id && str_eq r.user_id j.user_id && str_eq r.ref j.ref

-- `documentId` is the row that the first statement finds, if any.
unfoldable pub set_job_done : ℕ → Job → Option String → List Job → List Job
set_job_done now j document_id = update_where (same_job j) λ r. record r {
  status = done;
  document_id = document_id;
  error = none;
  next_attempt_at = now;
  completed_at = some now;
}

unfoldable pub should_retry : String → (attempt_count max_attempts : ℕ) → Bool
should_retry error attempt_count max_attempts =
    is_retryable_upload_ingest_error error && ltb attempt_count max_attempts

unfoldable pub set_job_retry_or_failed :
    IngestConfig
    → (now random : ℕ) → Job
    → (error : String) → (attempt_count max_attempts : ℕ) → List Job
    → List Job
set_job_retry_or_failed c now random j error attempt_count max_attempts =
    let retry = should_retry error attempt_count max_attempts in
    let delay : ℕ =
      (if retry then compute_upload_ingest_retry_delay_ms c attempt_count random else 0) in
    update_where (same_job j) λ r. record r {
      status = if retry then pending else failed;
      error = some error;
      next_attempt_at = if retry then now + delay else now;
      completed_at = if retry then none else some now;
    }

-- the `UPDATE` of a failure where the retry columns are missing
unfoldable pub set_job_failed : ℕ → Job → String → List Job → List Job
set_job_failed now j error =
    update_where (same_job j)
      λ r. record r { status = failed; error = some error; completed_at = some now }

unfoldable pub claimable : (columns : Bool) → ℕ → Job → Bool
unfolding is_pending
claimable true now r =
    is_pending r.status && (leb r.next_attempt_at now && ltb r.attempt_count r.max_attempts)
claimable false now r = is_pending r.status

-- `ORDER BY next_attempt_at ASC, created_at ASC`, or `created_at ASC`
unfoldable pub sooner : (columns : Bool) → Job → Job → Bool
sooner true a b =
    ltb a.next_attempt_at b.next_attempt_at
    || (a.next_attempt_at == b.next_attempt_at) && ltb a.created_at b.created_at
sooner false a b = ltb a.created_at b.created_at

pick : (columns : Bool) → Job → List Job → Job
pick columns best [] = best
pick columns best (r ∷ rs) = pick columns (if sooner columns r best then r else best) rs

soonest : (columns : Bool) → List Job → Option Job
unfolding pick
soonest columns [] = none
soonest columns (r ∷ rs) = some (pick columns r rs)

unfoldable pub next_job : (columns : Bool) → ℕ → List Job → Option Job
unfolding soonest
next_job columns now jobs = soonest columns (select_where (claimable columns now) jobs)

unfoldable pub claimed : (columns : Bool) → ℕ → Job → Job
claimed true now r = record r {
  status = processing;
  error = none;
  last_attempt_at = some now;
  attempt_count = r.attempt_count + 1;
}
claimed false now r = record r { status = processing; error = none }

take_job : (columns : Bool) → ℕ → List Job → Option Job → Option Job × List Job
take_job columns now jobs none = (none, jobs)
take_job columns now jobs (some j) = (
  some (claimed columns now j),
  update_where (λ r. str_eq r.ref j.ref) (claimed columns now) jobs,
)

-- the claimed row, as `RETURNING` gives it, and the table
unfoldable pub claim_next_pending_job : (columns : Bool) → ℕ → List Job → Option Job × List Job
unfolding take_job
claim_next_pending_job columns now jobs = take_job columns now jobs (next_job columns now jobs)

-- How the ingestion of a claimed file went: the id of the document that its handle names, if that
-- is found, or the message of the error.
abbrev pub Ingested : Type 0
Ingested = Settled String (Option String)

-- `!job.download_link`: an empty link is missing too
abbrev pub with_link : Option String → Ingested → Ingested
with_link none outcome = rejected "Missing download_link for uploaded file ingest job"
with_link (some link) outcome =
    if str_eq link ""
    then rejected "Missing download_link for uploaded file ingest job"
    else outcome

-- `outcome` is what the ingestion gives if it is called.
unfoldable pub process_claimed_job :
    IngestConfig → (columns : Bool) → (now random : ℕ) → Job → Ingested → List Job → List Job
process_claimed_job c columns now random j outcome jobs = elim (with_link j.download_link outcome) [
  | resolved document_id ↦ set_job_done now j document_id jobs
  | rejected message ↦
      if columns
      then set_job_retry_or_failed c now random j message j.attempt_count j.max_attempts jobs
      else set_job_failed now j message jobs
]

pub record UploadedFileRef : Type 0 where
  pub id : String
  pub name : Option String
  pub mime_type : Option String
  pub download_link : String

-- The row of `enqueueUploadedFileIngest`: `ref` is the handle made from a random UUID, `filename` and
-- `conversation_id` are the trimmed ones.
unfoldable pub enqueue_uploaded_file_ingest :
    IngestConfig
    → ℕ
    → (ref tenant_id user_id filename : String) → UploadedFileRef
    → Option String
    → Option String
    → List Job
    → List Job
enqueue_uploaded_file_ingest c now ref tenant user filename file title conversation jobs =
    jobs
    ++ record {
      ref = ref;
      tenant_id = tenant;
      user_id = user;
      openai_file_id = file.id;
      download_link = some file.download_link;
      filename = filename;
      title = title;
      mime_type = file.mime_type;
      conversation_id = conversation;
      status = pending;
      document_id = none;
      error = none;
      attempt_count = 0;
      max_attempts = c.max_attempts;
      next_attempt_at = now;
      last_attempt_at = none;
      created_at = now;
      completed_at = none;
    }
      ∷ []

unprocessed : JobDbStatus → JobDbStatus
unprocessed processing = pending
unprocessed s = s

-- The migrations, which every start of the server runs (infrastructure/db/index.ts), put the jobs
-- that were being processed back into the queue.
unfoldable pub reset_processing : List Job → List Job
unfolding unprocessed
reset_processing [] = []
reset_processing (r ∷ rs) =
    record r {
      status = unprocessed r.status;
      max_attempts = if ltb r.max_attempts 1 then 1 else r.max_attempts;
    }
    ∷ reset_processing rs
