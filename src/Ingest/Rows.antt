-- ===== src/Ingest/Rows.antt =====
-- What holds of every row of the table, also across restarts of the server.
use mathlib.Core.List.{Memᴰ}
use tallei_ai.Common.{
  Distinct, distinct_unique, update_where-Distinct, append-Distinct, All-update_where_mem,
  str_eq_iff, ℕ, ◌≤◌, ◌≡◌, ◌≢◌, String, str_eq, true, Option, none, some, List, [], ◌∷◌, arith, All,
  All-append, All-update_where, resolved, rejected,
}
use tallei_ai.Ingest.{
  IngestConfig, Job, pending, processing, done, failed, same_job, Ingested, claimed, claimable,
  process_claimed_job, with_link, set_job_done, set_job_retry_or_failed,
  enqueue_uploaded_file_ingest, reset_processing,
}
use tallei_ai.Ingest.Queue.{claim_next_pending_job_lem, ClaimSpec}
use tallei_ai.Ingest.Workers.{ref-claimed, Queue, Step, process-Updates}

pub record IsConsistent (r : Job) : Type 0 where
  pub some_attempts : 1 ≤ r.max_attempts
  pub bounded : r.attempt_count ≤ r.max_attempts
  pub waiting : r.status ≡ pending → r.completed_at ≡ none
  pub busy : r.status ≡ processing → (r.completed_at ≡ none) × (1 ≤ r.attempt_count)
  pub over : r.status ≡ done → (r.completed_at ≢ none) × (r.error ≡ none)
  pub dead : r.status ≡ failed → (r.completed_at ≢ none) × (r.error ≢ none)

-- A start of the server, of this instance or another: its migrations run, and workers that other
-- instances have go on.
pub data Life (c : IngestConfig) (q : Queue) : Queue → Type 0 where
  work : {s : Queue} → Step c q s → Life c q s
  restart : Life c q (record q { jobs = reset_processing q.jobs })

pub data Lives (c : IngestConfig) (q : Queue) : Queue → Type 0 where
  born : Lives c q q
  then_ : {r s : Queue} → Lives c q r → Life c r s → Lives c q s

pub record IsSound (q : Queue) : Type 0 where
  pub keys : Distinct (λ (j : Job). j.ref) q.jobs
  pub rows : All IsConsistent q.jobs

claimed-IsConsistent :
    (now : ℕ) (r : Job)
    → claimable true now r ≡ true
    → IsConsistent r
    → IsConsistent (claimed true now r)
unfolding claimable claimed
claimed-IsConsistent now r can h = ground arith

claim-IsSound :
    (now : ℕ) (q : Queue) (o : Option Job) (after flying : List Job)
    → IsSound q
    → ClaimSpec true now q.jobs o after
    → IsSound (record { jobs = after; flying = flying })
claim-IsSound now q none after flying h (same, _) =
    rw same (record { keys = h.keys; rows = h.rows })
claim-IsSound now q (some j) after flying h (r, m, can, _, _, updated) =
    let key = λ (j : Job). j.ref in
    let p = λ (s : Job). str_eq s.ref r.ref in
    let step =
      λ (x : Job) (mx : Memᴰ x q.jobs) (ok : IsConsistent x) (t : str_eq x.ref r.ref ≡ true).
        (let one : x ≡ r = distinct_unique key q.jobs h.keys mx m ((str_eq_iff x.ref r.ref).0 t) in
          let can' : claimable true now x ≡ true = rw one can in
          claimed-IsConsistent now x can' ok) in
    rw updated (record {
      keys = update_where-Distinct key p (claimed true now) q.jobs (ref-claimed now) h.keys;
      rows = All-update_where_mem IsConsistent p (claimed true now) q.jobs step h.rows;
    })

done-rows :
    (now : ℕ) (j : Job) (d : Option String) (jobs : List Job)
    → All IsConsistent jobs
    → All IsConsistent (set_job_done now j d jobs)
unfolding set_job_done
done-rows now j d jobs h =
    All-update_where IsConsistent (same_job j) _ jobs (λ r ok _. ground arith) h

retry-rows :
    (c : IngestConfig) (now random : ℕ) (j : Job) (e : String) (n most : ℕ) (jobs : List Job)
    → All IsConsistent jobs
    → All IsConsistent (set_job_retry_or_failed c now random j e n most jobs)
unfolding set_job_retry_or_failed
retry-rows c now random j e n most jobs h =
    All-update_where IsConsistent (same_job j) _ jobs (λ r ok _. ground arith) h

process-rows :
    (c : IngestConfig) (now random : ℕ) (j : Job) (outcome : Ingested) (jobs : List Job)
    → All IsConsistent jobs
    → All IsConsistent (process_claimed_job c true now random j outcome jobs)
unfolding process_claimed_job
process-rows c now random j outcome jobs h =
    elim (with_link j.download_link outcome)
      as (λ o. All IsConsistent (elim o [
        | resolved document_id ↦ set_job_done now j document_id jobs
        | rejected message ↦
            set_job_retry_or_failed c now random j message j.attempt_count j.max_attempts jobs
      ])) [
        | resolved d ↦ done-rows now j d jobs h
        | rejected m ↦ retry-rows c now random j m j.attempt_count j.max_attempts jobs h
      ]

reset-keys :
    (k : String) (jobs : List Job)
    → All (λ r. r.ref ≢ k) jobs
    → All (λ r. r.ref ≢ k) (reset_processing jobs)
unfolding reset_processing
reset-keys k [] h = tt
reset-keys k (r ∷ rs) (h, hs) = (h, reset-keys k rs hs)

reset-Distinct :
    (jobs : List Job)
    → Distinct (λ (j : Job). j.ref) jobs
    → Distinct (λ (j : Job). j.ref) (reset_processing jobs)
unfolding reset_processing
reset-Distinct [] h = tt
reset-Distinct (r ∷ rs) (h, hs) = (reset-keys r.ref rs h, reset-Distinct rs hs)

reset-rows : (jobs : List Job) → All IsConsistent jobs → All IsConsistent (reset_processing jobs)
unfolding reset_processing
reset-rows [] h = tt
reset-rows (r ∷ rs) (h, hs) = (ground arith, reset-rows rs hs)

module _ (c : IngestConfig) (positive : 1 ≤ c.max_attempts) where
  Step-IsSound : {q s : Queue} → Step c q s → IsSound q → IsSound s
  unfolding enqueue_uploaded_file_ingest
  Step-IsSound {q} (Step.enqueue now ref tenant user filename file title conversation fresh) h =
      record {
        keys = append-Distinct (λ (j : Job). j.ref) q.jobs _ h.keys fresh;
        rows = All-append IsConsistent q.jobs _ h.rows (ground arith, tt);
      }
  Step-IsSound {q} (Step.claim now) h =
      claim-IsSound now q _ _ _ h (claim_next_pending_job_lem true now q.jobs)
  Step-IsSound {q} (Step.finish now random j outcome rest w) h =
      let (f, keeps, updated) = process-Updates c now random j outcome q.jobs in
      record {
        keys =
            rw updated
              (update_where-Distinct (λ (j : Job). j.ref) (same_job j) f q.jobs keeps h.keys);
        rows = process-rows c now random j outcome q.jobs h.rows;
      }
  Step-IsSound (Step.lose j rest w) h = record { keys = h.keys; rows = h.rows }

  pub Life-IsSound : {q s : Queue} → Life c q s → IsSound q → IsSound s
  Life-IsSound (work st) h = Step-IsSound st h
  Life-IsSound {q} restart h = record {
    keys = reset-Distinct q.jobs h.keys;
    rows = reset-rows q.jobs h.rows;
  }

  Lives-IsSound : {q s : Queue} → IsSound q → Lives c q s → IsSound s
  Lives-IsSound h born = h
  Lives-IsSound h (then_ l st) = Life-IsSound st (Lives-IsSound h l)

  -- Whatever the workers do, and across starts of the server, every row has made at most its maximum
  -- of attempts, a waiting or processed job is not complete, a done job is complete without an error,
  -- and a failed one is complete with an error.
  pub restarts-IsSound : {s : Queue} → Lives c (record { jobs = []; flying = [] }) s → IsSound s
  restarts-IsSound l = Lives-IsSound (record { keys = tt; rows = tt }) l
