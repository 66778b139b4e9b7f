-- ===== src/Ingest/Batches.antt =====
-- The enqueueing of several files at once (`enqueueUploadedFilesIngest`). Each file comes with what its
-- insertion gives: the new handle and the name of the row, or the message of the error.
use tallei_ai.Common.{
  inl, inr, ◌⊎◌, ◌∙◌, refl, [], ap, rejected, ◌≡◌, ◌∷◌, resolved, some, none, ◌++◌, Settled, List,
  Option, ℕ, String,
}
use tallei_ai.Ingest.{pending, enqueue_uploaded_file_ingest, Job, UploadedFileRef, IngestConfig}

pub record UploadedFileIngestJobPending : Type 0 where
  pub ref : String
  pub filename : String
  pub conversation_id : Option String

pub record UploadedFileIngestJobError : Type 0 where
  pub file_id : String
  pub filename : String
  pub error : String

pub record Insertion : Type 0 where
  pub file : UploadedFileRef
  pub result : Settled String (String × String)

pub record Enqueued : Type 0 where
  pub enqueued : List UploadedFileIngestJobPending
  pub errors : List UploadedFileIngestJobError
  pub jobs : List Job

abbrev name_or_id : UploadedFileRef → String
name_or_id f = elim f.name [ none ↦ f.id | some n ↦ n ]

module _ (c : IngestConfig) (now : ℕ) (tenant user : String)
    (title conversation : Option String) where
  abbrev enqueue_one :
      (List Job → Enqueued)
      → UploadedFileRef
      → Settled String (String × String)
      → List Job
      → Enqueued
  enqueue_one rest f (resolved (ref, filename)) jobs =
      let later =
        rest
          (enqueue_uploaded_file_ingest c now ref tenant user filename f title conversation jobs) in
      record later {
        enqueued =
            record { ref = ref; filename = filename; conversation_id = conversation }
            ∷ later.enqueued;
      }
  enqueue_one rest f (rejected message) jobs =
      let later = rest jobs in
      record later {
        errors = record { file_id = f.id; filename = name_or_id f; error = message } ∷ later.errors;
      }

  unfoldable pub enqueue_uploaded_files_ingest : List Insertion → List Job → Enqueued
  enqueue_uploaded_files_ingest [] jobs = record { enqueued = []; errors = []; jobs = jobs }
  enqueue_uploaded_files_ingest (x ∷ xs) jobs =
      enqueue_one (enqueue_uploaded_files_ingest xs) x.file x.result jobs

  -- The row of a file that is waiting for its first attempt
  pub record IsRowOf (f : UploadedFileRef) (ref filename : String) (r : Job) : Type 0 where
    pub handle : r.ref ≡ ref
    pub owner : (r.tenant_id ≡ tenant) × (r.user_id ≡ user)
    pub file :
        (r.openai_file_id ≡ f.id)
        × (r.download_link ≡ some f.download_link)
        × (r.mime_type ≡ f.mime_type)
    pub names : (r.filename ≡ filename) × (r.title ≡ title) × (r.conversation_id ≡ conversation)
    pub waits : (r.status ≡ pending) × (r.next_attempt_at ≡ now) × (r.created_at ≡ now)
    pub attempts : (r.attempt_count ≡ 0) × (r.max_attempts ≡ c.max_attempts)
    pub nothing_yet : (r.document_id ≡ none) × (r.error ≡ none) × (r.completed_at ≡ none)

  -- Each file in its place: among the pending ones with its row, or among the errors with its message
  pub data Filed
      : List Insertion
        → List UploadedFileIngestJobPending
        → List UploadedFileIngestJobError
        → List Job
        → Type 0 where
    no_file : Filed [] [] [] []
    waiting :
        {xs : List Insertion} {ps : List UploadedFileIngestJobPending}
        {es : List UploadedFileIngestJobError} {rs : List Job} (f : UploadedFileRef)
        (ref filename : String) (r : Job)
        → IsRowOf f ref filename r
        → Filed xs ps es rs
        → Filed
            (record { file = f; result = resolved (ref, filename) } ∷ xs)
            (record { ref = ref; filename = filename; conversation_id = conversation } ∷ ps)
            es
            (r ∷ rs)
    in_error :
        {xs : List Insertion} {ps : List UploadedFileIngestJobPending}
        {es : List UploadedFileIngestJobError} {rs : List Job} (f : UploadedFileRef)
        (name message : String)
        → ((f.name ≡ some name) ⊎ ((f.name ≡ none) × (name ≡ f.id)))
        → Filed xs ps es rs
        → Filed
            (record { file = f; result = rejected message } ∷ xs)
            ps
            (record { file_id = f.id; filename = name; error = message } ∷ es)
            rs

  abbrev pub IsFiled : List Insertion → List Job → Enqueued → Type 0
  IsFiled files jobs e =
      (rows : List Job) × (e.jobs ≡ jobs ++ rows) × Filed files e.enqueued e.errors rows

  named :
      (f : UploadedFileRef)
      → (o : Option String) → f.name ≡ o
      → (f.name ≡ some (elim o [ none ↦ f.id | some n ↦ n ]))
        ⊎ ((f.name ≡ none) × (elim o [ none ↦ f.id | some n ↦ n ] ≡ f.id))
  named f none e = inr (e, refl)
  named f (some n) e = inl e

  append_assoc : (xs ys zs : List Job) → (xs ++ ys) ++ zs ≡ xs ++ (ys ++ zs)
  append_assoc [] ys zs = refl
  append_assoc (x ∷ xs) ys zs = ap (λ s. x ∷ s) (append_assoc xs ys zs)

  append_nil : (xs : List Job) → xs ≡ xs ++ []
  append_nil [] = refl
  append_nil (x ∷ xs) = ap (λ s. x ∷ s) (append_nil xs)

  enqueue_one-IsFiled :
      (rest : List Job → Enqueued) (xs : List Insertion) (f : UploadedFileRef)
      (result : Settled String (String × String)) (jobs : List Job)
      → ((more : List Job) → IsFiled xs more (rest more))
      → IsFiled (record { file = f; result = result } ∷ xs) jobs (enqueue_one rest f result jobs)
  unfolding enqueue_uploaded_file_ingest
  enqueue_one-IsFiled rest xs f (rejected message) jobs ih =
      let (rows, table, filed) = ih jobs in
      (rows, table, in_error f (name_or_id f) message (named f f.name refl) filed)
  enqueue_one-IsFiled rest xs f (resolved (ref, filename)) jobs ih =
      let (rows, table, filed) =
        ih
          (enqueue_uploaded_file_ingest c now ref tenant user filename f title conversation jobs) in
      (
        _,
        table ∙ append_assoc jobs _ rows,
        waiting f ref filename _
            (record {
              handle = refl;
              owner = (refl, refl);
              file = (refl, refl, refl);
              names = (refl, refl, refl);
              waits = (refl, refl, refl);
              attempts = (refl, refl);
              nothing_yet = (refl, refl, refl);
            })
            filed,
      )

  -- Each file is either enqueued or among the errors, in the order of the files, and one failure does
  -- not stop the others. The table keeps its rows, and has after them one row for each enqueued file, of
  -- the tenant, the user and the file, pending and due at once, with no attempt made. An error names its
  -- file, by its name or else by its id, and has the message of its failure.
  pub enqueue_uploaded_files_ingest-IsFiled :
      (files : List Insertion) (jobs : List Job)
      → IsFiled files jobs (enqueue_uploaded_files_ingest files jobs)
  unfolding enqueue_uploaded_files_ingest
  enqueue_uploaded_files_ingest-IsFiled [] jobs = ([], append_nil jobs, no_file)
  enqueue_uploaded_files_ingest-IsFiled (x ∷ xs) jobs =
      enqueue_one-IsFiled (enqueue_uploaded_files_ingest xs) xs x.file x.result jobs
        (enqueue_uploaded_files_ingest-IsFiled xs)
