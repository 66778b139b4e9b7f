-- ===== src/Ingest/Workers.antt =====
-- Several workers on one table: enqueueing, claiming, finishing, and the loss of a worker, in any
-- order and at any times.
use mathlib.Core.List.{Memᴰ}
use mathlib.Core.List.Memᴰ
use tallei_ai.Common.{
  ℕ, ◌≡◌, ◌≢◌, refl, sym, ◌∙◌, String, str_eq, str_eq_iff, Bool, true, Option, none, some, List, [],
  ◌∷◌, ◌++◌, arith, All, All-map, Distinct, update_where, mem-update_where_miss,
  mem-update_where_hit, update_where-Distinct, distinct_unique, append-Distinct, Without,
  Without-All, Without-Distinct, resolved, rejected, inl, inr, Bool-cases,
}
use tallei_ai.Ingest.{
  IngestConfig, Job, pending, processing, same_job, Ingested, UploadedFileRef, claimed, claimable,
  claim_next_pending_job, process_claimed_job, with_link, set_job_done, set_job_retry_or_failed,
  enqueue_uploaded_file_ingest,
}
use tallei_ai.Ingest.Queue.{ClaimSpec, claim_next_pending_job_lem}

pub record Queue : Type 0 where
  pub jobs : List Job
  -- the claimed jobs that some worker has not finished, as it holds them
  pub flying : List Job

abbrev pub in_flight : Option Job → List Job → List Job
in_flight none flying = flying
in_flight (some j) flying = j ∷ flying

module _ (c : IngestConfig) where
  pub data Step (q : Queue) : Queue → Type 0 where
    enqueue :
        (now : ℕ) (ref tenant user filename : String) (file : UploadedFileRef)
        (title conversation : Option String)
        → All (λ r. r.ref ≢ ref) q.jobs
        → Step q (record q {
          jobs =
              enqueue_uploaded_file_ingest c now ref tenant user filename file title conversation
                q.jobs;
        })
    claim :
        (now : ℕ)
        → Step q (record {
          jobs = (claim_next_pending_job true now q.jobs).1;
          flying = in_flight (claim_next_pending_job true now q.jobs).0 q.flying;
        })
    finish :
        (now random : ℕ) (j : Job) (outcome : Ingested) (rest : List Job)
        → Without j q.flying rest
        → Step q (record {
          jobs = process_claimed_job c true now random j outcome q.jobs;
          flying = rest;
        })
    lose :
        (j : Job) (rest : List Job) → Without j q.flying rest → Step q (record q { flying = rest })

  pub data Reach (q : Queue) : Queue → Type 0 where
    here : Reach q q
    next : {r s : Queue} → Reach q r → Step r s → Reach q s

-- The row of the table that the worker of a claimed job works on.
abbrev IsWorked : List Job → Job → Type 0
IsWorked jobs f = (r : Job) × Memᴰ r jobs × (r.ref ≡ f.ref) × (r.status ≡ processing)

pub record IsExclusive (q : Queue) : Type 0 where
  pub keys : Distinct (λ (j : Job). j.ref) q.jobs
  pub once : Distinct (λ (j : Job). j.ref) q.flying
  pub worked : All (IsWorked q.jobs) q.flying

empty-IsExclusive : IsExclusive (record { jobs = []; flying = [] })
empty-IsExclusive = record { keys = tt; once = tt; worked = tt }

-- An update of one key leaves the rows of the workers with other keys alone.
IsWorked-update :
    (p : Job → Bool) (f : Job → Job) (k : String) (jobs : List Job)
    → ((r : Job) → p r ≡ true → r.ref ≡ k)
    → (j : Job) → j.ref ≢ k
    → IsWorked jobs j
    → IsWorked (update_where p f jobs) j
IsWorked-update p f k jobs at_key j other (r, m, same, busy) = elim (Bool-cases (p r)) [
  | inl hit ↦ absurd (other (sym same ∙ at_key r hit))
  | inr miss ↦ (r, mem-update_where_miss p f jobs m miss, same, busy)
]

All-IsWorked-update :
    (p : Job → Bool) (f : Job → Job) (k : String) (jobs flying : List Job)
    → ((r : Job) → p r ≡ true → r.ref ≡ k)
    → All (λ j. j.ref ≢ k) flying
    → All (IsWorked jobs) flying
    → All (IsWorked (update_where p f jobs)) flying
All-IsWorked-update p f k jobs [] at_key away h = tt
All-IsWorked-update p f k jobs (j ∷ js) at_key (ne, away) (h, hs) =
    (IsWorked-update p f k jobs at_key j ne h, All-IsWorked-update p f k jobs js at_key away hs)

pub ref_of_same_job : (j r : Job) → same_job j r ≡ true → r.ref ≡ j.ref
ref_of_same_job j r h = ground (arith, str_eq_iff r.ref j.ref)

-- What a worker does to the table at the end is an update of the rows of its job.
abbrev pub Updates : Job → List Job → List Job → Type 0
Updates j jobs after =
    (f : Job → Job) × ((r : Job) → (f r).ref ≡ r.ref) × (after ≡ update_where (same_job j) f jobs)

pub process-Updates :
    (c : IngestConfig) (now random : ℕ) (j : Job) (outcome : Ingested) (jobs : List Job)
    → Updates j jobs (process_claimed_job c true now random j outcome jobs)
unfolding process_claimed_job set_job_done set_job_retry_or_failed
process-Updates c now random j outcome jobs =
    elim (with_link j.download_link outcome)
      as (λ o. Updates j jobs (elim o [
        | resolved document_id ↦ set_job_done now j document_id jobs
        | rejected message ↦
            set_job_retry_or_failed c now random j message j.attempt_count j.max_attempts jobs
      ])) [ resolved d ↦ (_, λ r. refl, refl) | rejected m ↦ (_, λ r. refl, refl) ]

claimable-pending : (now : ℕ) (r : Job) → claimable true now r ≡ true → r.status ≡ pending
unfolding claimable
claimable-pending now r h = ground arith

not_worked :
    (now : ℕ) (jobs : List Job) (r : Job)
    → Distinct (λ (j : Job). j.ref) jobs
    → Memᴰ r jobs
    → claimable true now r ≡ true
    → (f : Job) → IsWorked jobs f
    → f.ref ≢ r.ref
not_worked now jobs r keys m can f (r', m', same, busy) e =
    let one : r' ≡ r = distinct_unique (λ (j : Job). j.ref) jobs keys m' m (same ∙ e) in
    let idle : r.status ≡ pending = claimable-pending now r can in
    let working : r.status ≡ processing = rw one at busy in cc

pub ref-claimed : (now : ℕ) (r : Job) → (claimed true now r).ref ≡ r.ref
unfolding claimed
ref-claimed now r = refl

status-claimed : (now : ℕ) (r : Job) → (claimed true now r).status ≡ processing
unfolding claimed
status-claimed now r = refl

claim-IsExclusive :
    (now : ℕ) (q : Queue) (o : Option Job) (after : List Job)
    → IsExclusive q
    → ClaimSpec true now q.jobs o after
    → IsExclusive (record { jobs = after; flying = in_flight o q.flying })
claim-IsExclusive now q none after h (same, _) =
    rw same (record { keys = h.keys; once = h.once; worked = h.worked })
claim-IsExclusive now q (some j) after h (r, m, can, e, _, updated) =
    let key = λ (j : Job). j.ref in
    let p = λ (s : Job). str_eq s.ref r.ref in
    let away =
      All-map (IsWorked q.jobs) (λ f. f.ref ≢ r.ref) q.flying (not_worked now q.jobs r h.keys m can)
        h.worked in
    let at_key = λ (s : Job) (t : str_eq s.ref r.ref ≡ true). (str_eq_iff s.ref r.ref).0 t in
    rw (updated, e)
      (record {
        keys = update_where-Distinct key p (claimed true now) q.jobs (ref-claimed now) h.keys;
        once = (rw (ref-claimed now r) away, h.once);
        worked = (
          (
            claimed true now r,
            mem-update_where_hit p (claimed true now) q.jobs m ((str_eq_iff r.ref r.ref).1 refl),
            refl,
            status-claimed now r,
          ),
          All-IsWorked-update p (claimed true now) r.ref q.jobs q.flying at_key away h.worked,
        );
      })

finish-IsExclusive :
    (c : IngestConfig) (now random : ℕ) (j : Job) (outcome : Ingested) (q : Queue) (rest : List Job)
    → Without j q.flying rest
    → IsExclusive q
    → IsExclusive
        (record { jobs = process_claimed_job c true now random j outcome q.jobs; flying = rest })
finish-IsExclusive c now random j outcome q rest w h =
    let key = λ (j : Job). j.ref in
    let (f, keeps, updated) = process-Updates c now random j outcome q.jobs in
    let (away, once) = Without-Distinct key w h.once in
    rw updated (record {
      keys = update_where-Distinct key (same_job j) f q.jobs keeps h.keys;
      once = once;
      worked =
          All-IsWorked-update (same_job j) f j.ref q.jobs rest (ref_of_same_job j) away
            (Without-All (IsWorked q.jobs) w h.worked).1;
    })

IsWorked-append : (jobs new : List Job) (j : Job) → IsWorked jobs j → IsWorked (jobs ++ new) j
IsWorked-append jobs new j (r, m, same, busy) = (r, Memᴰ.append_left new m, same, busy)

Step-IsExclusive : (c : IngestConfig) {q s : Queue} → Step c q s → IsExclusive q → IsExclusive s
unfolding enqueue_uploaded_file_ingest
Step-IsExclusive c {q} (enqueue now ref tenant user filename file title conversation fresh) h =
    record {
      keys = append-Distinct (λ (j : Job). j.ref) q.jobs _ h.keys fresh;
      once = h.once;
      worked = All-map _ _ q.flying (IsWorked-append q.jobs _) h.worked;
    }
Step-IsExclusive c {q} (claim now) h =
    claim-IsExclusive now q _ _ h (claim_next_pending_job_lem true now q.jobs)
Step-IsExclusive c {q} (finish now random j outcome rest w) h =
    finish-IsExclusive c now random j outcome q rest w h
Step-IsExclusive c {q} (lose j rest w) h = record {
  keys = h.keys;
  once = (Without-Distinct (λ (j : Job). j.ref) w h.once).1;
  worked = (Without-All (IsWorked q.jobs) w h.worked).1;
}

Reach-IsExclusive : (c : IngestConfig) {q s : Queue} → IsExclusive q → Reach c q s → IsExclusive s
Reach-IsExclusive c h here = h
Reach-IsExclusive c h (next r st) = Step-IsExclusive c st (Reach-IsExclusive c h r)

-- Between two starts of the server, whatever the workers do and whenever, no two of them hold the
-- same job, the handles of the table stay distinct, and the job that a worker holds stays marked as
-- being processed, so that no other claim takes it.
pub run-IsExclusive :
    (c : IngestConfig) {s : Queue} → Reach c (record { jobs = []; flying = [] }) s → IsExclusive s
run-IsExclusive c r = Reach-IsExclusive c empty-IsExclusive r
