-- ===== src/Memory/Duplicates.antt =====
-- Saving the same text twice.
use tallei_ai.Common.{
  false, String, List, Option, Text, trim, none, some, if◌then◌else◌, Settled, resolved, rejected,
  ◌≡◌, refl, sym, ap, ap₂, ◌∙◌, Bool-cases, inl, inr, some_eq,
}
use tallei_ai.Memory.{MemoryRecordRow}
use tallei_ai.Memory.Repository.{create, find_active_by_content_hash}
use tallei_ai.Memory.Save.{
  SaveMemoryUseCaseInput, SaveAnswers, SaveError, SaveMemoryResult, StoredSummary,
}
use tallei_ai.Memory.SaveMemory.{
  answer, save_memory, save_unless_known, save_unless_similar, save_new, supersede, over_quota,
  new_record,
}
use tallei_ai.Memory.Saves.{find-none, create-new_row, supersede-found}

-- The id of a new memory
abbrev pub stored_id : Settled SaveError SaveMemoryResult → Option String
stored_id (resolved r) = if r.deduped then none else some r.memory_id
stored_id (rejected e) = none

-- The id of a memory that was there
abbrev pub found_id : Settled SaveError SaveMemoryResult → Option String
found_id (resolved r) = if r.deduped then some r.memory_id else none
found_id (rejected e) = none

module _ (encrypt hash : Text → String) where
  -- A new memory, with the summary that was decided on for it.
  abbrev pub StoredAs :
      SaveMemoryUseCaseInput
      → SaveAnswers
      → StoredSummary
      → List MemoryRecordRow
      → Settled SaveError SaveMemoryResult × List MemoryRecordRow
      → String
      → Type 0
  StoredAs i a s rows saved id =
      (a.memory_id ≡ id)
      × (saved ≡ (
        resolved (answer encrypt hash a.memory_id s false),
        supersede encrypt hash i a s (create i.auth a.now (new_record encrypt hash i a s) rows),
      ))

  new_stored :
      (i : SaveMemoryUseCaseInput) (a : SaveAnswers) (s : StoredSummary)
      (rows : List MemoryRecordRow) {id : String}
      → stored_id (save_new encrypt hash i a s rows).0 ≡ some id
      → StoredAs i a s rows (save_new encrypt hash i a s rows) id
  unfolding save_new
  new_stored i a s rows {id} e = elim (Bool-cases (over_quota i.auth a.quota)) [
    | inl t ↦ let bad : none ≡ some id = rw t at e in cc
    | inr n ↦
        let there : some a.memory_id ≡ some id = rw n at e in rw n (some_eq a.memory_id there, refl)
  ]

  unless_similar :
      (i : SaveMemoryUseCaseInput) (a : SaveAnswers) (s : StoredSummary)
      (rows : List MemoryRecordRow) (found : Option MemoryRecordRow) {id : String}
      → stored_id (save_unless_similar encrypt hash i a s rows found).0 ≡ some id
      → StoredAs i a s rows (save_unless_similar encrypt hash i a s rows found) id
  unless_similar i a s rows none e = new_stored i a s rows e
  unless_similar i a s rows (some r) e = cc

  pub unless_known :
      (i : SaveMemoryUseCaseInput) (a : SaveAnswers) (rows : List MemoryRecordRow)
      (found : Option MemoryRecordRow) {id : String}
      → stored_id (save_unless_known encrypt hash i a rows found).0 ≡ some id
      → (found ≡ none)
        × ((s : StoredSummary) × StoredAs i a s rows
              (save_unless_known encrypt hash i a rows found)
              id)
  unless_known i a rows none e = (refl, (_, unless_similar i a _ rows _ e))
  unless_known i a rows (some r) e = cc

  known :
      (i : SaveMemoryUseCaseInput) (a : SaveAnswers) (rows : List MemoryRecordRow)
      (found : Option MemoryRecordRow) {r : MemoryRecordRow}
      → found ≡ some r
      → found_id (save_unless_known encrypt hash i a rows found).0 ≡ some r.id
  known i a rows none e = cc
  known i a rows (some x) e = ap (λ y. some y.id) (some_eq x e)

  -- Where a save has stored a new memory, saving the same text again, up to its ends, for the same
  -- user, stores none: it finds the one that was stored, whatever the services answer and even if the
  -- memory has another kind, category or platform this time.
  pub save_memory_again :
      (i i' : SaveMemoryUseCaseInput) (a a' : SaveAnswers) (rows : List MemoryRecordRow)
      (id : String)
      → stored_id (save_memory encrypt hash i a rows).0 ≡ some id
      → i.auth ≡ i'.auth
      → trim i.content ≡ trim i'.content
      → found_id (save_memory encrypt hash i' a' (save_memory encrypt hash i a rows).1).0 ≡ some id
  unfolding save_memory
  save_memory_again i i' a a' rows id e user content =
      let (missing, (s, (same, after))) =
        unless_known i a rows (find_active_by_content_hash i.auth (hash (trim i.content)) rows) e in
      let there =
        supersede-found encrypt hash i a s rows
          (find-none i.auth (hash (trim i.content)) rows missing) in
      let found =
        ap₂ (λ u c. find_active_by_content_hash u (hash c) (save_memory encrypt hash i a rows).1)
          (sym user) (sym content)
        ∙ ap (find_active_by_content_hash i.auth (hash (trim i.content))) (
            ap (λ saved. saved.1) after
            ∙ ap (supersede encrypt hash i a s) (create-new_row encrypt hash i a s rows))
        ∙ there in
      known i' a' (save_memory encrypt hash i a rows).1 _ found ∙ ap some same
