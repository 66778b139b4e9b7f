-- ===== src/Memory/SaveMemory.antt =====
-- `SaveMemoryUseCase.execute`: the duplicates, the quota, and the preferences that are superseded.
use tallei_ai.Common.{
  codes, str_eq, String, List, Bool, Option, ℕ, Text, AuthContext, Plan, free, pro, power, trim,
  ltb, ◌&&◌, ◌||◌, true, false, none, some, if◌then◌else◌, take, [], ◌∷◌, Settled, resolved,
  rejected,
}
use tallei_ai.Memory.{
  MemoryRecordRow, Summary, CreateMemoryRecordInput, Json, text, texts, flag, null_,
}
use tallei_ai.Memory.Repository.{
  create, find_active_by_content_hash, increment_reference_scoped, mark_superseded_preferences,
  soft_delete_scoped, field, or_else,
}
use tallei_ai.Memory.Classify.{is_preference}
use tallei_ai.Memory.Save.{
  ConversationSummary, SaveMemoryUseCaseInput, SaveAnswers, SaveError, quota_exceeded,
  SaveMemoryResult, StoredSummary, build_fallback_summary, to_store, to_json, type_name,
  dedupe_by_vector,
}

abbrev texts_of : Json → Option (List Text)
texts_of (texts ts) = some ts
texts_of _ = none

unfoldable pub texts_field : String → Summary → Option (List Text)
texts_field key [] = none
texts_field key ((k, v) ∷ rest) =
    let later = texts_field key rest in if str_eq k key then texts_of v else later

abbrev flag_of : Json → Bool
flag_of (flag b) = b
flag_of null_ = false
flag_of (text []) = false
flag_of _ = true

-- `Boolean(summary.is_pinned_suggested)`
unfoldable pub flag_field : String → Summary → Bool
flag_field key [] = false
flag_field key ((k, v) ∷ rest) =
    let later = flag_field key rest in if str_eq k key then flag_of v else later

unfoldable pub summary_from_row : Option Summary → Text → ConversationSummary
unfolding build_fallback_summary field texts_field flag_field
summary_from_row none content = build_fallback_summary content
summary_from_row (some s) content =
    let fallback = build_fallback_summary content in
    record {
      title = or_else (field "title" s) fallback.title;
      key_points = take 5 (or_else (texts_field "keyPoints" s) fallback.key_points);
      decisions = take 3 (or_else (texts_field "decisions" s) fallback.decisions);
      summary = or_else (field "summary" s) fallback.summary;
      memory_type = field "memory_type" s;
      category = field "category" s;
      is_pinned_suggested = flag_field "is_pinned_suggested" s;
      preference_key = field "preference_key" s;
    }

abbrev pub free_save_limit : ℕ
free_save_limit = 50

abbrev pub is_free : Plan → Bool
is_free free = true
is_free pro = false
is_free power = false

-- `quotaCount > freeSaveLimit`, where the count is 0 if it failed
unfoldable pub over_quota : AuthContext → (count : Option ℕ) → Bool
over_quota auth count = is_free auth.plan && ltb free_save_limit (or_else count 0)

abbrev pub truthy : Option Text → Bool
truthy none = false
truthy (some []) = false
truthy (some (c ∷ cs)) = true

abbrev pub Saved : Type 0
Saved = Settled SaveError SaveMemoryResult × List MemoryRecordRow

module _ (encrypt hash : Text → String) where
  abbrev pub new_record :
      SaveMemoryUseCaseInput → SaveAnswers → StoredSummary → CreateMemoryRecordInput
  new_record i a s = record {
    id = a.memory_id;
    content_ciphertext = encrypt (trim i.content);
    content_hash = hash (trim i.content);
    platform = i.platform;
    summary_json = some (to_json s);
    qdrant_point_id = a.memory_id;
    memory_type = some (type_name s.memory_type);
    category = s.category;
    is_pinned = some s.is_pinned;
    reference_count = some 1;
    last_referenced_at = none;
  }

  unfoldable pub supersede :
      SaveMemoryUseCaseInput
      → SaveAnswers
      → StoredSummary
      → List MemoryRecordRow
      → List MemoryRecordRow
  supersede i a s rows =
      if is_preference s.memory_type && (truthy s.preference_key || truthy s.category)
      then (mark_superseded_preferences i.auth a.memory_id s.preference_key s.category
          (some (hash (trim i.content))) rows).1
      else rows

  abbrev pub answer : (id : String) → StoredSummary → (deduped : Bool) → SaveMemoryResult
  answer id s deduped = record {
    memory_id = id;
    title = s.base.title;
    summary = record s.base {
      memory_type = some (codes (type_name s.memory_type));
      category = s.category;
      is_pinned_suggested = s.is_pinned;
      preference_key = s.preference_key;
    };
    deduped = deduped;
  }

  unfoldable pub save_new :
      SaveMemoryUseCaseInput → SaveAnswers → StoredSummary → List MemoryRecordRow → Saved
  save_new i a s rows =
      let created = create i.auth a.now (new_record i a s) rows in
      if over_quota i.auth a.quota
      then (rejected quota_exceeded, (soft_delete_scoped i.auth a.memory_id a.now created).1)
      else (resolved (answer a.memory_id s false), supersede i a s created)

  abbrev pub save_unless_similar :
      SaveMemoryUseCaseInput
      → SaveAnswers
      → StoredSummary
      → List MemoryRecordRow
      → Option MemoryRecordRow
      → Saved
  save_unless_similar i a s rows none = save_new i a s rows
  save_unless_similar i a s rows (some r) =
      (resolved (answer r.id s true), (increment_reference_scoped i.auth r.id 1 a.now rows).1)

  abbrev pub similar :
      SaveMemoryUseCaseInput
      → SaveAnswers
      → StoredSummary
      → List MemoryRecordRow
      → Option MemoryRecordRow
  similar i a s rows =
      if i.run_vector_dedup then dedupe_by_vector i.auth s.memory_type a.hits rows else none

  abbrev pub save_unless_known :
      SaveMemoryUseCaseInput → SaveAnswers → List MemoryRecordRow → Option MemoryRecordRow → Saved
  save_unless_known i a rows (some r) =
      let s = summary_from_row r.summary_json (trim i.content) in
      (
        resolved (record { memory_id = r.id; title = s.title; summary = s; deduped = true }),
        (increment_reference_scoped i.auth r.id 1 a.now rows).1,
      )
  save_unless_known i a rows none =
      let s = to_store i (or_else a.summarized (build_fallback_summary (trim i.content))) in
      save_unless_similar i a s rows (similar i a s rows)

  unfoldable pub save_memory : SaveMemoryUseCaseInput → SaveAnswers → List MemoryRecordRow → Saved
  save_memory i a rows =
      save_unless_known i a rows (find_active_by_content_hash i.auth (hash (trim i.content)) rows)
