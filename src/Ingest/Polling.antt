-- ===== src/Ingest/Polling.antt =====
-- One loop of a poll of the queue (`pollUploadIngestQueueOnce`), with nothing in between, where the
-- whole loop reads one time.
use mathlib.Core.List.{[], List, Memᴰ}
use mathlib.Core.List.Memᴰ
use tallei_ai.Common.{
  ◌-◌, str_eq_iff, rejected, str_eq, resolved, max, ◌^◌, ◌*◌, length, inr, inl, zero, none,
  Bool-cases, All, arith, some, refl, ◌∷◌, ◌≤◌, update_where, suc, Option, true, false, ◌<◌, ◌≡◌,
  select_where, Bool, ℕ, String,
}
use tallei_ai.Ingest.{
  should_retry, same_job, with_link, set_job_retry_or_failed, set_job_done, claim_next_pending_job,
  process_claimed_job, compute_upload_ingest_retry_delay_ms, Ingested, claimed, Job, IngestConfig,
  claimable,
}
use tallei_ai.Ingest.Queue.{claim_next_pending_job_lem, ClaimSpec}

module _ (c : IngestConfig) (now random : ℕ) (ingest : Job → Ingested) where
  unfoldable pub poll_after : (List Job → List Job) → Option Job × List Job → List Job
  poll_after next (none, jobs) = jobs
  poll_after next (some j, jobs) = next (process_claimed_job c true now random j (ingest j) jobs)

  -- at most `batch` jobs, and until there is none
  unfoldable pub poll_loop : (batch : ℕ) → List Job → List Job
  unfolding poll_after
  poll_loop zero jobs = jobs
  poll_loop (suc batch) jobs = poll_after (poll_loop batch) (claim_next_pending_job true now jobs)

module _ {A : Type 0} (q p : A → Bool) (f : A → A) (never : (x : A) → q (f x) ≡ false) where
  select_where_le :
      (xs : List A) → length (select_where q (update_where p f xs)) ≤ length (select_where q xs)
  unfolding select_where update_where
  select_where_le [] = omega arith
  select_where_le (x ∷ xs) =
      let rest = select_where_le xs in
      elim (Bool-cases (p x)) [
        | inl t ↦ elim (Bool-cases (q x)) [
          | inl u ↦ rw (t, never x, u) (omega (arith, rest))
          | inr u ↦ rw (t, never x, u) rest
        ]
        | inr n ↦ elim (Bool-cases (q x)) [
          | inl u ↦ rw (n, u) (omega (arith, rest))
          | inr u ↦ rw (n, u) rest
        ]
      ]

  select_where_lt :
      (xs : List A) {y : A}
      → Memᴰ y xs
      → p y ≡ true
      → q y ≡ true
      → length (select_where q (update_where p f xs)) < length (select_where q xs)
  unfolding select_where update_where
  select_where_lt [] m t u = absurd (Memᴰ.not-nil m)
  select_where_lt (x ∷ xs) (Memᴰ.head e) t u =
      let t' : p x ≡ true = rw e at t in
      let u' : q x ≡ true = rw e at u in rw (t', never x, u') (omega (arith, select_where_le xs))
  select_where_lt (x ∷ xs) (Memᴰ.tail m) t u =
      let rest = select_where_lt xs m t u in
      elim (Bool-cases (p x)) [
        | inl t' ↦ elim (Bool-cases (q x)) [
          | inl u' ↦ rw (t', never x, u') (omega (arith, rest))
          | inr u' ↦ rw (t', never x, u') rest
        ]
        | inr n ↦ elim (Bool-cases (q x)) [
          | inl u' ↦ rw (n, u') (omega (arith, rest))
          | inr u' ↦ rw (n, u') rest
        ]
      ]

nothing_left :
    {A : Type 0} (q : A → Bool) (xs : List A)
    → length (select_where q xs) ≤ 0
    → All (λ x. q x ≡ false) xs
unfolding select_where
nothing_left q [] h = tt
nothing_left q (x ∷ xs) h = elim (Bool-cases (q x)) [
  | inl t ↦ let bad : length (x ∷ select_where q xs) ≤ 0 = rw t at h in absurd (omega (arith, bad))
  | inr n ↦ (n, nothing_left q xs (rw n at h))
]

claimed-busy : (now : ℕ) (r : Job) → claimable true now (claimed true now r) ≡ false
unfolding claimable claimed
claimed-busy now r = refl

pow_pos : (k : ℕ) → 0 < 2 ^ k
pow_pos zero = omega arith
pow_pos (suc k) = omega (arith, pow_pos k)

product_pos : (a b : ℕ) → 0 < a → 0 < b → 0 < a * b
product_pos a b h k = grind arith

module _ (c : IngestConfig) (base : 0 < c.retry_base_ms) (most : 0 < c.retry_max_ms)
    (now random : ℕ) where
  pub delay_pos : (n : ℕ) → 0 < compute_upload_ingest_retry_delay_ms c n random
  unfolding compute_upload_ingest_retry_delay_ms
  delay_pos n =
      let exponential =
        product_pos c.retry_base_ms (2 ^ (max 1 n - 1)) base (pow_pos (max 1 n - 1)) in
      omega (arith, exponential, most)

  done_le :
      (j : Job) (d : Option String) (jobs : List Job)
      → length (select_where (claimable true now) (set_job_done now j d jobs))
        ≤ length (select_where (claimable true now) jobs)
  unfolding set_job_done claimable
  done_le j d jobs = select_where_le (claimable true now) (same_job j) _ (λ r. refl) jobs

  retry_le :
      (j : Job) (e : String) (n m : ℕ) (jobs : List Job)
      → length
          (select_where (claimable true now) (set_job_retry_or_failed c now random j e n m jobs))
        ≤ length (select_where (claimable true now) jobs)
  unfolding set_job_retry_or_failed claimable
  retry_le j e n m jobs =
      select_where_le (claimable true now) (same_job j) _
        (λ r. elim (Bool-cases (should_retry e n m)) [
          | inl again ↦ rw again (ground (arith, delay_pos n))
          | inr over ↦ rw over refl
        ])
        jobs

  process_le :
      (j : Job) (outcome : Ingested) (jobs : List Job)
      → length
          (select_where (claimable true now) (process_claimed_job c true now random j outcome jobs))
        ≤ length (select_where (claimable true now) jobs)
  unfolding process_claimed_job
  process_le j outcome jobs =
      elim (with_link j.download_link outcome)
        as (λ o.
          length (
            select_where (claimable true now) (elim o [
              | resolved document_id ↦ set_job_done now j document_id jobs
              | rejected message ↦
                  set_job_retry_or_failed c now random j message j.attempt_count j.max_attempts jobs
            ]))
          ≤ length (select_where (claimable true now) jobs)) [
            | resolved d ↦ done_le j d jobs
            | rejected m ↦ retry_le j m j.attempt_count j.max_attempts jobs
          ]

  poll_after_drains :
      (ingest : Job → Ingested) (batch : ℕ) (jobs : List Job) (o : Option Job) (after : List Job)
      → ((rest : List Job)
          → length (select_where (claimable true now) rest) ≤ batch
          → All (λ r. claimable true now r ≡ false) (poll_loop c now random ingest batch rest))
      → ClaimSpec true now jobs o after
      → length (select_where (claimable true now) jobs) ≤ suc batch
      → All
          (λ r. claimable true now r ≡ false)
          (poll_after c now random ingest (poll_loop c now random ingest batch) (o, after))
  unfolding poll_after
  poll_after_drains ingest batch jobs none after ih (same, none_left) h = rw same none_left
  poll_after_drains ingest batch jobs (some j) after ih (r, m, can, _, _, updated) h =
      let fewer =
        select_where_lt (claimable true now) (λ s. str_eq s.ref r.ref) (claimed true now)
          (claimed-busy now) jobs m ((str_eq_iff r.ref r.ref).1 refl) can in
      ih (process_claimed_job c true now random j (ingest j) after) (
        rw updated (
          omega (
            arith,
            fewer,
            process_le j (ingest j)
                (update_where (λ s. str_eq s.ref r.ref) (claimed true now) jobs),
          )))

  -- With a batch that is large enough, no row is one to claim after a loop.
  pub poll_loop_drains :
      (ingest : Job → Ingested) (batch : ℕ) (jobs : List Job)
      → length (select_where (claimable true now) jobs) ≤ batch
      → All (λ r. claimable true now r ≡ false) (poll_loop c now random ingest batch jobs)
  unfolding poll_loop
  poll_loop_drains ingest zero jobs h = nothing_left (claimable true now) jobs h
  poll_loop_drains ingest (suc batch) jobs h =
      poll_after_drains ingest batch jobs _ _ (poll_loop_drains ingest batch)
        (claim_next_pending_job_lem true now jobs) h
