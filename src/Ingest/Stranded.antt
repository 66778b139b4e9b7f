-- ===== src/Ingest/Stranded.antt =====
-- The jobs that a start of the server leaves behind.
use mathlib.Core.List.Memᴰ
use mathlib.Core.List.{Memᴰ}
use tallei_ai.Common.{
  none, some, false, str_eq_iff, Bool, ◌∙◌, ap, str_eq, ◌<◌, mem-update_where_miss, distinct_unique,
  Without-All, some, true, refl, All-Memᴰ, arith, [], subst, Option, ◌≢◌, inr, ltb, if◌then◌else◌,
  All, inl, sym, ◌∷◌, ◌⊎◌, ℕ, ◌≤◌, ◌≡◌, List,
}
use tallei_ai.Ingest.{
  same_job, enqueue_uploaded_file_ingest, claimed, IngestConfig, processing, pending,
  reset_processing, Job,
}
use tallei_ai.Ingest.Workers.{ref_of_same_job, ref-claimed, process-Updates, in_flight, Step, Queue}
use tallei_ai.Ingest.Rows.{IsConsistent, Life-IsSound, Lives, Life, IsSound}
use tallei_ai.Ingest.Queue.{claim_next_pending_job_lem, ClaimSpec}

-- The row `r` as the restart leaves it
abbrev pub put_back : Job → Job
put_back r = record r { status = pending }

pub missed : (b : Bool) → ¬ (b ≡ true) → b ≡ false
missed true h = absurd (h refl)
missed false h = refl

one_if_none : (n : ℕ) → 1 ≤ n → (if ltb n 1 then 1 else n) ≡ n
one_if_none n h = ground arith

reset-mem :
    (r r' : Job) (jobs : List Job)
    → ((x : Job) → x ≡ r → (xs : List Job) → Memᴰ r' (reset_processing (x ∷ xs)))
    → Memᴰ r jobs
    → Memᴰ r' (reset_processing jobs)
unfolding reset_processing
reset-mem r r' [] here m = absurd (Memᴰ.not-nil m)
reset-mem r r' (x ∷ xs) here (Memᴰ.head e) = here x (sym e) xs
reset-mem r r' (x ∷ xs) here (Memᴰ.tail m) = Memᴰ.tail (reset-mem r r' xs here m)

reset-busy :
    (r : Job) (jobs : List Job)
    → Memᴰ r jobs
    → (r.status ≡ processing) ⊎ (r.status ≡ pending)
    → 1 ≤ r.max_attempts
    → Memᴰ (put_back r) (reset_processing jobs)
unfolding reset_processing
reset-busy r jobs m unfinished some_attempts =
    reset-mem r (put_back r) jobs
      (λ x e xs. rw e (
        Memᴰ.head (elim unfinished [
          | inl busy ↦ rw (busy, one_if_none r.max_attempts some_attempts) refl
          | inr idle ↦ rw (idle, one_if_none r.max_attempts some_attempts) refl
        ])))
      m

module _ (c : IngestConfig) (positive : 1 ≤ c.max_attempts) (r : Job) (waiting : r.status ≡ pending)
    (some_attempts : 1 ≤ r.max_attempts) (last : r.attempt_count ≡ r.max_attempts) where
  -- The row is in the table, and no worker holds it.
  abbrev Forgotten : Queue → Type 0
  Forgotten q = Memᴰ r q.jobs × All (λ f. f.ref ≢ r.ref) q.flying

  Forgotten-claim :
      (now : ℕ) (q : Queue) (o : Option Job) (after : List Job)
      → IsSound q
      → ClaimSpec true now q.jobs o after
      → Forgotten q
      → Forgotten (record { jobs = after; flying = in_flight o q.flying })
  Forgotten-claim now q none after sound (same, _) (m, away) = rw same (m, away)
  Forgotten-claim now q (some j) after sound (x, mx, _, e, ((_, _, left), _), updated) (m, away) =
      let other : x.ref ≢ r.ref = λ same.
        (let one : x ≡ r = distinct_unique (λ (j : Job). j.ref) q.jobs sound.keys mx m same in
          let left' : r.attempt_count < r.max_attempts = rw one at left in
          absurd (omega (arith, left', last))) in
      rw updated (
        mem-update_where_miss (λ (s : Job). str_eq s.ref x.ref) (claimed true now) q.jobs m
            (missed (str_eq r.ref x.ref) (λ t. other (sym ((str_eq_iff r.ref x.ref).0 t)))),
        ((λ same. other (sym (ap (λ (j : Job). j.ref) e ∙ ref-claimed now x) ∙ same)), away),
      )

  Forgotten-Step : {q s : Queue} → Step c q s → IsSound q → Forgotten q → Forgotten s
  unfolding enqueue_uploaded_file_ingest
  Forgotten-Step (Step.enqueue now ref tenant user filename file title conversation fresh) sound
        (m, away) =
      (Memᴰ.append_left _ m, away)
  Forgotten-Step {q} (Step.claim now) sound forgotten =
      Forgotten-claim now q _ _ sound (claim_next_pending_job_lem true now q.jobs) forgotten
  Forgotten-Step {q} (Step.finish now random j outcome rest w) sound (m, away) =
      let (f, keeps, updated) = process-Updates c now random j outcome q.jobs in
      let (not_mine, others) = Without-All (λ g. g.ref ≢ r.ref) w away in
      (
        rw updated (
            mem-update_where_miss (same_job j) f q.jobs m
              (missed (same_job j r) (λ t. not_mine (sym (ref_of_same_job j r t))))),
        others,
      )
  Forgotten-Step (Step.lose j rest w) sound (m, away) =
      (m, (Without-All (λ f. f.ref ≢ r.ref) w away).1)

  Forgotten-Life : {q s : Queue} → Life c q s → IsSound q → Forgotten q → Forgotten s
  Forgotten-Life (Life.work st) sound h = Forgotten-Step st sound h
  Forgotten-Life {q} Life.restart sound (m, away) =
      let same : put_back r ≡ r = ap (λ st. record r { status = st }) (sym waiting) in
      (
        subst (λ x. Memᴰ x (reset_processing q.jobs)) same
            (reset-busy r q.jobs m (inr waiting) some_attempts),
        away,
      )

  Forgotten-Lives : {q s : Queue} → Lives c q s → IsSound q → Forgotten q → IsSound s × Forgotten s
  Forgotten-Lives Lives.born sound h = (sound, h)
  Forgotten-Lives (Lives.then_ l st) sound h =
      let (sound', h') = Forgotten-Lives l sound h in
      (Life-IsSound c positive st sound', Forgotten-Life st sound' h')

-- A restart strands every job that was being processed in its last attempt, and that no worker of
-- another instance holds: from then on, whatever the workers do and however often the server starts,
-- the row stays in the table as the restart left it, pending, and no worker holds the job.
pub reset_strands :
    (c : IngestConfig) {q s : Queue} (r : Job)
    → 1 ≤ c.max_attempts
    → IsSound q
    → Memᴰ r q.jobs
    → r.status ≡ processing
    → r.attempt_count ≡ r.max_attempts
    → All (λ f. f.ref ≢ r.ref) q.flying
    → Lives c (record q { jobs = reset_processing q.jobs }) s
    → Memᴰ (put_back r) s.jobs × All (λ f. f.ref ≢ r.ref) s.flying
reset_strands c {q} r positive sound m busy last away lives =
    let ok = All-Memᴰ IsConsistent q.jobs sound.rows m in
    (Forgotten-Lives c positive (put_back r) refl ok.some_attempts last lives
      (Life-IsSound c positive {q = q} Life.restart sound)
      (reset-busy r q.jobs m (inl busy) ok.some_attempts, away)).1
