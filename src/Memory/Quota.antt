-- ===== src/Memory/Quota.antt =====
-- Saves over the quota.
use tallei_ai.Common.{
  String, List, Option, ℕ, Text, AuthContext, Plan, free, pro, power, ltb, str_eq_iff, &&_split,
  true, false, none, some, if◌then◌else◌, [], ◌∷◌, ◌++◌, Settled, resolved, rejected, ◌≡◌, ◌≢◌, ◌<◌,
  refl, ap, ap₂, ◌∙◌, Bool-cases, inl, inr, All, All-map, select_where, update_where, ltb→lt, arith,
}
use tallei_ai.Memory.{MemoryRecordRow}
use tallei_ai.Memory.Repository.{
  create, or_else, active, own, scoped, deleted_row, soft_delete_scoped,
}
use tallei_ai.Memory.Save.{
  SaveMemoryUseCaseInput, SaveAnswers, SaveError, SaveMemoryResult, StoredSummary,
}
use tallei_ai.Memory.SaveMemory.{
  new_record, save_memory, save_unless_known, save_unless_similar, save_new, over_quota, is_free,
}
use tallei_ai.Memory.Saves.{
  new_row, create-new_row, select_where-append, update_where-append, update_where_none, and_false,
}

is_free→free : (p : Plan) → is_free p ≡ true → p ≡ free
is_free→free free e = refl
is_free→free pro e = cc
is_free→free power e = cc

some_count : (q : Option ℕ) → ltb 50 (or_else q 0) ≡ true → (n : ℕ) × (q ≡ some n) × (50 < n)
some_count none e = absurd (omega (arith, ltb→lt 50 0 e))
some_count (some n) e = (n, refl, ltb→lt 50 n e)

append-nil : (xs : List MemoryRecordRow) → xs ++ [] ≡ xs
append-nil [] = refl
append-nil (x ∷ xs) = ap (λ ys. x ∷ ys) (append-nil xs)

module _ (encrypt hash : Text → String) (i : SaveMemoryUseCaseInput) (a : SaveAnswers)
    (rows : List MemoryRecordRow) (new : All (λ r. r.id ≢ a.memory_id) rows) where
  -- What every user finds in a table
  abbrev pub SameListings : List MemoryRecordRow → Type 0
  SameListings table =
      (auth : AuthContext) → select_where (active auth) table ≡ select_where (active auth) rows

  abbrev pub IsRefused : Settled SaveError SaveMemoryResult × List MemoryRecordRow → Type 0
  IsRefused saved =
      (i.auth.plan ≡ free) × ((n : ℕ) × (a.quota ≡ some n) × (50 < n)) × SameListings saved.1

  others : All (λ r. own i.auth a.memory_id r ≡ false) rows
  others =
      All-map (λ r. r.id ≢ a.memory_id) _ rows
        (λ r ne. elim (Bool-cases (own i.auth a.memory_id r)) [
          | inl t ↦ absurd (ne ((str_eq_iff r.id a.memory_id).0 (&&_split _ _ t).0))
          | inr n ↦ n
        ])
        new

  deleted-new_row :
      (s : StoredSummary)
      → (soft_delete_scoped i.auth a.memory_id a.now
          (rows ++ new_row encrypt hash i a s rows ∷ [])).1
        ≡ rows ++ deleted_row a.now (new_row encrypt hash i a s rows) ∷ []
  unfolding soft_delete_scoped update_where
  deleted-new_row s =
      let mine : own i.auth a.memory_id (new_row encrypt hash i a s rows) ≡ true =
        rw
          (
            (str_eq_iff a.memory_id a.memory_id).1 refl,
            (str_eq_iff i.auth.tenant_id i.auth.tenant_id).1 refl,
            (str_eq_iff i.auth.user_id i.auth.user_id).1 refl,
          )
          refl in
      let row = new_row encrypt hash i a s rows in
      update_where-append (own i.auth a.memory_id) (deleted_row a.now) rows (row ∷ [])
      ∙ ap₂ (λ xs b. xs ++ (if b then deleted_row a.now row else row) ∷ [])
          (update_where_none (own i.auth a.memory_id) (deleted_row a.now) rows others) mine

  no_refusal : {r : SaveMemoryResult} {e : SaveError} {A : Type 0} → resolved r ≡ rejected e → A
  no_refusal same = cc

  over : over_quota i.auth a.quota ≡ true → i.auth.plan ≡ free
  unfolding over_quota
  over t = is_free→free i.auth.plan (&&_split _ _ t).0

  counted : over_quota i.auth a.quota ≡ true → (n : ℕ) × (a.quota ≡ some n) × (50 < n)
  unfolding over_quota
  counted t = some_count a.quota (&&_split _ _ t).1

  same_listings :
      (s : StoredSummary)
      → SameListings
          (soft_delete_scoped i.auth a.memory_id a.now
            (create i.auth a.now (new_record encrypt hash i a s) rows)).1
  unfolding select_where
  same_listings s auth =
      let row = new_row encrypt hash i a s rows in
      ap (λ xs. select_where (active auth) (soft_delete_scoped i.auth a.memory_id a.now xs).1)
        (create-new_row encrypt hash i a s rows)
      ∙ ap (select_where (active auth)) (deleted-new_row s)
      ∙ select_where-append (active auth) rows (deleted_row a.now row ∷ [])
      ∙ ap (λ b. select_where (active auth) rows ++ (if b then deleted_row a.now row ∷ [] else []))
          (and_false (scoped auth row) true)
      ∙ append-nil (select_where (active auth) rows)

  new-IsRefused :
      (s : StoredSummary) (e : SaveError)
      → (save_new encrypt hash i a s rows).0 ≡ rejected e
      → IsRefused (save_new encrypt hash i a s rows)
  unfolding save_new
  new-IsRefused s e refused = elim (Bool-cases (over_quota i.auth a.quota)) [
    | inl t ↦ rw t (over t, counted t, same_listings s)
    | inr n ↦ no_refusal (rw n at refused)
  ]

  similar-IsRefused :
      (s : StoredSummary) (found : Option MemoryRecordRow) (e : SaveError)
      → (save_unless_similar encrypt hash i a s rows found).0 ≡ rejected e
      → IsRefused (save_unless_similar encrypt hash i a s rows found)
  similar-IsRefused s none e refused = new-IsRefused s e refused
  similar-IsRefused s (some r) e refused = no_refusal refused

  known-IsRefused :
      (found : Option MemoryRecordRow) (e : SaveError)
      → (save_unless_known encrypt hash i a rows found).0 ≡ rejected e
      → IsRefused (save_unless_known encrypt hash i a rows found)
  known-IsRefused none e refused = similar-IsRefused _ _ e refused
  known-IsRefused (some r) e refused = no_refusal refused

  -- A save with a new id that is refused was one of a free plan whose count was over 50, and it leaves
  -- no trace in what any user finds: the memory that was stored for it is deleted again, and all others
  -- are as they were.
  pub save_memory-IsRefused :
      (e : SaveError)
      → (save_memory encrypt hash i a rows).0 ≡ rejected e
      → IsRefused (save_memory encrypt hash i a rows)
  unfolding save_memory
  save_memory-IsRefused e refused = known-IsRefused _ e refused
