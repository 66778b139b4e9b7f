-- ===== src/Ingest/Claims.antt =====
-- The claim of a job, described without the conditions of the code.
use mathlib.Core.List.{◌∷◌, Memᴰ}
use tallei_ai.Common.{
  [], mem-select_where, inr, All-Memᴰ, str_eq_iff, ◌+◌, ◌∙◌, inl, Bool-cases, some, refl, All-map,
  All, none, ◌≤◌, arith, str_eq, Option, ◌≢◌, false, ◌⊎◌, true, ◌≡◌, ◌<◌, ℕ, update_where, Bool,
  List,
}
use tallei_ai.Ingest.{claim_next_pending_job, processing, claimed, sooner, claimable, Job}
use tallei_ai.Ingest.Queue.{ClaimSpec, MayClaim, claim_next_pending_job_lem}

pub claimable_if :
    (columns : Bool) (now : ℕ) (r : Job) → MayClaim columns now r → claimable columns now r ≡ true
unfolding claimable
claimable_if true now r (p, due, left) = ground (arith, p)
claimable_if false now r p = ground (arith, p)

-- The place of a row in the queue: the earlier due first, then the older, or just the older
abbrev pub NoLater : (columns : Bool) → Job → Job → Type 0
NoLater true r s =
    (r.next_attempt_at < s.next_attempt_at)
    ⊎ ((r.next_attempt_at ≡ s.next_attempt_at) × (r.created_at ≤ s.created_at))
NoLater false r s = r.created_at ≤ s.created_at

not_sooner-NoLater : (columns : Bool) (r s : Job) → sooner columns s r ≡ false → NoLater columns r s
unfolding sooner
not_sooner-NoLater true r s e = ground arith
not_sooner-NoLater false r s e = ground arith

-- A row once it is taken
abbrev pub taken : (columns : Bool) → (now : ℕ) → Job → Job
taken true now r = record r {
  status = processing;
  error = none;
  last_attempt_at = some now;
  attempt_count = r.attempt_count + 1;
}
taken false now r = record r { status = processing; error = none }

pub claimed-taken :
    (columns : Bool) (now : ℕ) (r : Job) → claimed columns now r ≡ taken columns now r
unfolding claimed
claimed-taken true now r = refl
claimed-taken false now r = refl

-- One row of the table before and after the claim of the row `r`
abbrev pub IsRowAfter : (columns : Bool) → (now : ℕ) → Job → Job → Job → Type 0
IsRowAfter columns now r s s' =
    ((s.ref ≡ r.ref) → s' ≡ taken columns now s) × ((s.ref ≢ r.ref) → s' ≡ s)

-- The same of all rows, in their order
abbrev pub IsTableAfter : (columns : Bool) → (now : ℕ) → Job → List Job → List Job → Type 0
IsTableAfter columns now r [] [] = Unit
IsTableAfter columns now r (s ∷ ss) (s' ∷ ss') =
    IsRowAfter columns now r s s' × IsTableAfter columns now r ss ss'
IsTableAfter columns now r [] (s ∷ ss) = ⊥
IsTableAfter columns now r (s ∷ ss) [] = ⊥

abbrev pub IsClaim : (columns : Bool) → (now : ℕ) → List Job → Option Job → List Job → Type 0
IsClaim columns now jobs none after = (after ≡ jobs) × All (λ r. ¬ MayClaim columns now r) jobs
IsClaim columns now jobs (some j) after =
    (r : Job) × Memᴰ r jobs
    × (MayClaim columns now r × (j ≡ taken columns now r))
    × ((s : Job) → Memᴰ s jobs → MayClaim columns now s → NoLater columns r s)
    × IsTableAfter columns now r jobs after

table_after :
    (columns : Bool) (now : ℕ) (r : Job) (jobs : List Job)
    → IsTableAfter columns now r jobs
        (update_where (λ s. str_eq s.ref r.ref) (claimed columns now) jobs)
unfolding update_where
table_after columns now r [] = tt
table_after columns now r (s ∷ ss) =
    let rest = table_after columns now r ss in
    elim (Bool-cases (str_eq s.ref r.ref)) [
      | inl t ↦
          let same : s.ref ≡ r.ref = (str_eq_iff s.ref r.ref).0 t in
          rw t (((λ _. claimed-taken columns now s), (λ ne. absurd (ne same))), rest)
      | inr n ↦ rw n (
        (
          (λ e. let t : str_eq s.ref r.ref ≡ true = (str_eq_iff s.ref r.ref).1 e in cc),
          (λ _. refl),
        ),
        rest,
      )
    ]

ClaimSpec-IsClaim :
    (columns : Bool) (now : ℕ) (jobs : List Job) (o : Option Job) (after : List Job)
    → ClaimSpec columns now jobs o after
    → IsClaim columns now jobs o after
ClaimSpec-IsClaim columns now jobs none after (same, h) = (
  same,
  All-map (λ r. claimable columns now r ≡ false) (λ r. ¬ MayClaim columns now r) jobs
      (λ r e may. let t = claimable_if columns now r may in cc) h,
)
ClaimSpec-IsClaim columns now jobs (some j) after (r, m, can, e, (may, least), updated) = (
  r,
  m,
  (may, e ∙ claimed-taken columns now r),
  (λ s ms others. not_sooner-NoLater columns r s (
      All-Memᴰ (λ x. sooner columns x r ≡ false) _ least
        (mem-select_where (claimable columns now) jobs ms (claimable_if columns now s others)))),
  rw updated (table_after columns now r jobs),
)

-- A claim that returns a job has taken a row of the table that is pending, due and has attempts left
-- (only pending without the retry columns). Every other such row is due later, or at the same time and
-- not older (only not older without the columns). The job is this row as being processed, without an
-- error, with one attempt more, made now (without the columns, the attempts stay); in the table the rows
-- with its handle are changed like this, and all others are left. A claim that returns none leaves the
-- table alone, and no row is one to take.
pub claim_next_pending_job-IsClaim :
    (columns : Bool) (now : ℕ) (jobs : List Job)
    → IsClaim columns now jobs
        (claim_next_pending_job columns now jobs).0
        (claim_next_pending_job columns now jobs).1
claim_next_pending_job-IsClaim columns now jobs =
    ClaimSpec-IsClaim columns now jobs _ _ (claim_next_pending_job_lem columns now jobs)
