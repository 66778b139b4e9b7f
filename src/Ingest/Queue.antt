-- ===== src/Ingest/Queue.antt =====
-- Which job a claim takes.
use mathlib.Core.List.Memᴰ
use mathlib.Core.List.{Memᴰ}
use tallei_ai.Common.{
  ◌<◌, ◌≤◌, subst, str_eq, update_where, ℕ, ◌≡◌, refl, ◌⊎◌, inl, inr, Bool, true, false, Option,
  none, some, List, [], ◌∷◌, arith, Bool-cases, All, select_where, if◌then◌else◌, some_eq,
}
use tallei_ai.Ingest.{
  pending, take_job, Job, claimable, sooner, pick, soonest, next_job, claimed,
  claim_next_pending_job,
}

mem_if :
    {A : Type 0} (b : Bool) (x y : A) (rest : List A)
    → Memᴰ x (if b then y ∷ rest else rest)
    → ((x ≡ y) × (b ≡ true)) ⊎ Memᴰ x rest
mem_if true x y rest (Memᴰ.head e) = inl (e, refl)
mem_if true x y rest (Memᴰ.tail m) = inr m
mem_if false x y rest m = inr m

module _ {A : Type 0} (p : A → Bool) where
  select_where-mem : (x : A) (xs : List A) → Memᴰ x (select_where p xs) → Memᴰ x xs × (p x ≡ true)
  unfolding select_where
  select_where-mem x [] m = absurd (Memᴰ.not-nil m)
  select_where-mem x (y ∷ ys) m = elim (mem_if (p y) x y (select_where p ys) m) [
    | inl (e, t) ↦ (Memᴰ.head e, rw e t)
    | inr later ↦ let (here, holds) = select_where-mem x ys later in (Memᴰ.tail here, holds)
  ]

  select_where-empty : (xs : List A) → select_where p xs ≡ [] → All (λ x. p x ≡ false) xs
  unfolding select_where
  select_where-empty [] e = tt
  select_where-empty (y ∷ ys) e = elim (Bool-cases (p y)) [
    | inl t ↦ let bad : y ∷ select_where p ys ≡ [] = rw t at e in cc
    | inr f ↦ (f, select_where-empty ys (rw f at e))
  ]

-- What has to hold of a row for a claim to take it.
abbrev pub MayClaim : (columns : Bool) → ℕ → Job → Type 0
MayClaim true now r =
    (r.status ≡ pending) × (r.next_attempt_at ≤ now) × (r.attempt_count < r.max_attempts)
MayClaim false now r = r.status ≡ pending

claimable-MayClaim :
    (columns : Bool) (now : ℕ) (r : Job) → claimable columns now r ≡ true → MayClaim columns now r
unfolding claimable
claimable-MayClaim true now r h = ground arith
claimable-MayClaim false now r h = ground arith

module _ (columns : Bool) where
  sooner_irrefl : (a : Job) → sooner columns a a ≡ false
  unfolding sooner
  sooner_irrefl a = elim columns as (λ c. sooner c a a ≡ false) [
    | true ↦ ground arith
    | false ↦ ground arith
  ]

  sooner_before :
      (a b c : Job)
      → sooner columns a b ≡ true
      → sooner columns a c ≡ false
      → sooner columns b c ≡ false
  unfolding sooner
  sooner_before a b c h k = ground arith

  sooner_neg_trans :
      (a b c : Job)
      → sooner columns a b ≡ false
      → sooner columns b c ≡ false
      → sooner columns a c ≡ false
  unfolding sooner
  sooner_neg_trans a b c h k = ground arith

  abbrev pub Least : Job → List Job → Type 0
  Least x jobs = All (λ s. sooner columns s x ≡ false) jobs

  pick-Least : (best : Job) (rs : List Job) → Least (pick columns best rs) (best ∷ rs)
  unfolding pick
  pick-Least best [] = (sooner_irrefl best, tt)
  pick-Least best (r ∷ rs) = elim (Bool-cases (sooner columns r best)) [
    | inl t ↦
        let (h, hs) = pick-Least r rs in
        let eq : pick columns r rs ≡ pick columns best (r ∷ rs) = rw t in
        subst (λ x. Least x (best ∷ r ∷ rs)) eq (sooner_before r best _ t h, (h, hs))
    | inr f ↦
        let (h, hs) = pick-Least best rs in
        let eq : pick columns best rs ≡ pick columns best (r ∷ rs) = rw f in
        subst (λ x. Least x (best ∷ r ∷ rs)) eq (h, (sooner_neg_trans r best _ f h, hs))
  ]

  pick-mem : (best : Job) (rs : List Job) → Memᴰ (pick columns best rs) (best ∷ rs)
  unfolding pick
  pick-mem best [] = Memᴰ.head refl
  pick-mem best (r ∷ rs) = elim (Bool-cases (sooner columns r best)) [
    | inl t ↦ rw t (Memᴰ.tail (pick-mem r rs))
    | inr f ↦ rw f (skip (pick-mem best rs))
  ]
    where
      skip : {x : Job} → Memᴰ x (best ∷ rs) → Memᴰ x (best ∷ r ∷ rs)
      skip (Memᴰ.head e) = Memᴰ.head e
      skip (Memᴰ.tail m) = Memᴰ.tail (Memᴰ.tail m)

  -- A row that is taken from a list: it is in the list, and no other comes sooner.
  abbrev IsSoonest : Job → List Job → Type 0
  IsSoonest r jobs = Memᴰ r jobs × Least r jobs

  soonest_lem : (jobs : List Job) (r : Job) → soonest columns jobs ≡ some r → IsSoonest r jobs
  unfolding soonest
  soonest_lem [] r e = cc
  soonest_lem (j ∷ js) r e =
      subst (λ x. IsSoonest x (j ∷ js)) (some_eq (pick columns j js) e)
        (pick-mem j js, pick-Least j js)

  soonest-none : (jobs : List Job) → soonest columns jobs ≡ none → jobs ≡ []
  unfolding soonest
  soonest-none [] e = refl
  soonest-none (j ∷ js) e = cc

  abbrev pub ClaimSpec : ℕ → List Job → Option Job → List Job → Type 0
  ClaimSpec now jobs none after = (after ≡ jobs) × All (λ r. claimable columns now r ≡ false) jobs
  ClaimSpec now jobs (some j) after =
      (r : Job) × Memᴰ r jobs
      × (claimable columns now r ≡ true)
      × (j ≡ claimed columns now r)
      × (MayClaim columns now r × Least r (select_where (claimable columns now) jobs))
      × (after ≡ update_where (λ s. str_eq s.ref r.ref) (claimed columns now) jobs)

  take_job_lem :
      (now : ℕ) (jobs : List Job) (o : Option Job)
      → next_job columns now jobs ≡ o
      → ClaimSpec now jobs (take_job columns now jobs o).0 (take_job columns now jobs o).1
  unfolding take_job next_job
  take_job_lem now jobs none e = (
    refl,
    select_where-empty (claimable columns now) jobs
        (soonest-none (select_where (claimable columns now) jobs) e),
  )
  take_job_lem now jobs (some r) e =
      let (m, least) = soonest_lem (select_where (claimable columns now) jobs) r e in
      let (listed, can) = select_where-mem (claimable columns now) r jobs m in
      (r, listed, can, refl, (claimable-MayClaim columns now r can, least), refl)

  -- A claim that returns a job has taken a row of the table that is pending, due and has attempts left
  -- (only pending without the retry columns), with no such row before it in the order of the queue,
  -- and returns it as the update left it. A claim that returns none leaves the table alone, and no
  -- row could be claimed.
  pub claim_next_pending_job_lem :
      (now : ℕ) (jobs : List Job)
      → ClaimSpec now jobs
          (claim_next_pending_job columns now jobs).0
          (claim_next_pending_job columns now jobs).1
  unfolding claim_next_pending_job
  claim_next_pending_job_lem now jobs = take_job_lem now jobs (next_job columns now jobs) refl
