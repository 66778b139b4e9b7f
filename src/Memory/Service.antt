-- ===== src/Memory/Service.antt =====
-- What src/services/memory.ts makes of the use cases, with delete.usecase.ts: every change of the memories
-- of a user drops the recalls that the process has cached for the user. Vectors, events and the stamp in
-- Redis are left out.
use tallei_ai.Common.{
  String, List, Bool, Option, ℕ, Text, AuthContext, codes, str_eq, true, none, some, if◌then◌else◌,
  map, [], Settled, resolved, rejected,
}
use tallei_ai.Memory.{MemoryRecordRow, Summary}
use tallei_ai.Memory.Repository.{
  soft_delete_scoped, get_by_id_scoped, list_preferences, or_else, field_of,
}
use tallei_ai.Memory.Cache.{CachedRecall, invalidate_recall_cache}
use tallei_ai.Memory.Save.{SaveMemoryUseCaseInput, SaveAnswers, SaveError, SaveMemoryResult}
use tallei_ai.Memory.SaveMemory.{save_memory}

-- The table, and the recalls cached in the process, of a type `R`
pub record MemoryState (R : Type 0) : Type 0 where
  pub rows : List MemoryRecordRow
  pub recall_cache : List (CachedRecall R)

pub data MemoryError : Type 0 where
  memory_not_found preference_not_found : MemoryError

pub record ListedPreference : Type 0 where
  pub id : String
  pub text : Text
  pub category : Option Text
  pub is_pinned : Bool
  pub preference_key : Option Text
  pub reference_count : ℕ
  pub created_at : ℕ
  pub metadata : Summary

abbrev readable_text : Option Text → Text
readable_text none = codes "[Encrypted memory unavailable]"
readable_text (some t) = t

unfoldable pub listed_preference : (String → Option Text) → MemoryRecordRow → ListedPreference
listed_preference decrypt r = record {
  id = r.id;
  text = readable_text (decrypt r.content_ciphertext);
  category = r.category;
  is_pinned = r.is_pinned;
  preference_key = field_of "preference_key" r.summary_json;
  reference_count = r.reference_count;
  created_at = r.created_at;
  metadata = or_else r.summary_json [];
}

unfoldable pub list_preferences_of :
    (String → Option Text) → AuthContext → List MemoryRecordRow → List ListedPreference
list_preferences_of decrypt auth rows =
    map (listed_preference decrypt) (list_preferences auth 200 rows)

module _ {R : Type 0} where
  abbrev pub forgetting : AuthContext → MemoryState R → List MemoryRecordRow → MemoryState R
  forgetting auth st rows = record {
    rows = rows;
    recall_cache = invalidate_recall_cache auth st.recall_cache;
  }

  abbrev pub after_save :
      AuthContext
      → MemoryState R
      → Settled SaveError SaveMemoryResult × List MemoryRecordRow
      → Settled SaveError SaveMemoryResult × MemoryState R
  after_save auth st (resolved r, rows) = (resolved r, forgetting auth st rows)
  after_save auth st (rejected e, rows) = (rejected e, record st { rows = rows })

  unfoldable pub save :
      (encrypt hash : Text → String)
      → SaveMemoryUseCaseInput
      → SaveAnswers
      → MemoryState R
      → Settled SaveError SaveMemoryResult × MemoryState R
  save encrypt hash i a st = after_save i.auth st (save_memory encrypt hash i a st.rows)

  unfoldable pub save_preference :
      (encrypt hash : Text → String)
      → SaveMemoryUseCaseInput
      → SaveAnswers
      → MemoryState R
      → Settled SaveError SaveMemoryResult × MemoryState R
  save_preference encrypt hash i a st =
      save encrypt hash
        (record i { memory_type = some (codes "preference"); is_pinned = some true }) a st

  abbrev pub after_delete :
      AuthContext
      → MemoryState R
      → Option MemoryRecordRow × List MemoryRecordRow
      → Settled MemoryError (Unit {0}) × MemoryState R
  after_delete auth st (none, rows) = (rejected memory_not_found, st)
  after_delete auth st (some r, rows) = (resolved tt, forgetting auth st rows)

  unfoldable pub delete_memory :
      AuthContext
      → String
      → (now : ℕ) → MemoryState R
      → Settled MemoryError (Unit {0}) × MemoryState R
  delete_memory auth id now st = after_delete auth st (soft_delete_scoped auth id now st.rows)

  abbrev forget_row :
      AuthContext
      → String
      → (now : ℕ) → MemoryState R
      → Option MemoryRecordRow
      → Settled MemoryError (Unit {0}) × MemoryState R
  forget_row auth id now st none = (rejected preference_not_found, st)
  forget_row auth id now st (some r) =
      if str_eq r.memory_type "preference"
      then delete_memory auth id now st
      else (rejected preference_not_found, st)

  unfoldable pub forget_preference :
      AuthContext
      → String
      → (now : ℕ) → MemoryState R
      → Settled MemoryError (Unit {0}) × MemoryState R
  forget_preference auth id now st =
      forget_row auth id now st (get_by_id_scoped auth id true st.rows)
