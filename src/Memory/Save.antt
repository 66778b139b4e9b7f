-- ===== src/Memory/Save.antt =====
-- Saving a memory: src/orchestration/memory/save.usecase.ts, up to the answer to the caller. What the
-- model, the vector search and Redis answer comes in with the request, and so do the new id, the
-- encryption and the hash. The vector of the memory, which is stored in the background, is left out.
use tallei_ai.Common.{
  String, List, Bool, Option, ℕ, Text, AuthContext, codes, trim, str_eq, ◌||◌, false, none, some,
  if◌then◌else◌, take, first, first_where, [], ◌∷◌,
}
use tallei_ai.Memory.{MemoryRecordRow, Summary, Json, text, texts, flag, object, null_}
use tallei_ai.Memory.Repository.{get_by_ids}
use tallei_ai.Memory.Cache.{single_spaced}
use tallei_ai.Memory.Classify.{
  MemoryType, preference, fact, event, decision, note, lesson, failure, checkpoint, collab,
  classify_memory, normalize_memory_type, is_preference, or_next,
}

pub record ConversationSummary : Type 0 where
  pub title : Text
  pub key_points : List Text
  pub decisions : List Text
  pub summary : Text
  pub memory_type : Option Text
  pub category : Option Text
  pub is_pinned_suggested : Bool
  pub preference_key : Option Text

pub record SaveMemoryUseCaseInput : Type 0 where
  pub content : Text
  pub auth : AuthContext
  pub platform : String
  pub memory_type : Option Text
  pub category : Option Text
  pub is_pinned : Option Bool
  pub preference_key : Option Text
  pub run_vector_dedup : Bool

-- A hit of the vector search: `strong` is `score >= 0.92`.
pub record VectorHit : Type 0 where
  pub memory_id : String
  pub strong : Bool

-- What the services answer to one save. `summarized` is `none` in eval mode, or if the model throws or
-- is too slow; `hits` if the search is bypassed, throws or is too slow; `quota` if Redis throws.
pub record SaveAnswers : Type 0 where
  pub memory_id : String
  pub summarized : Option ConversationSummary
  pub hits : Option (List VectorHit)
  pub quota : Option ℕ
  pub now : ℕ

pub data SaveError : Type 0 where
  quota_exceeded : SaveError

pub record SaveMemoryResult : Type 0 where
  pub memory_id : String
  pub title : Text
  pub summary : ConversationSummary
  pub deduped : Bool

abbrev snippet_or : Text → Text → Text
snippet_or d [] = d
snippet_or d (c ∷ cs) = c ∷ cs

abbrev points : Text → List Text
points [] = []
points (c ∷ cs) = (c ∷ cs) ∷ []

unfoldable pub build_fallback_summary : Text → ConversationSummary
unfolding single_spaced
build_fallback_summary content =
    let snippet = take 180 (single_spaced false (trim content)) in
    record {
      title = snippet_or (codes "Untitled Memory") snippet;
      key_points = points snippet;
      decisions = [];
      summary = snippet_or (codes "No summary available.") snippet;
      memory_type = some (codes "fact");
      category = none;
      is_pinned_suggested = false;
      preference_key = none;
    }

unfoldable pub type_name : MemoryType → String
type_name preference = "preference"
type_name fact = "fact"
type_name event = "event"
type_name decision = "decision"
type_name note = "note"
type_name lesson = "lesson"
type_name failure = "failure"
type_name checkpoint = "checkpoint"
type_name collab = "collab"

abbrev text_or_null : Option Text → Json
text_or_null none = null_
text_or_null (some t) = text t

-- `summaryForStorage`
pub record StoredSummary : Type 0 where
  pub base : ConversationSummary
  pub memory_type : MemoryType
  pub category : Option Text
  pub is_pinned : Bool
  pub preference_key : Option Text
  pub platform : String

-- `JSON.stringify` of it; the time in its provenance is left out.
unfoldable pub to_json : StoredSummary → Summary
unfolding type_name
to_json s =
    ("title", text s.base.title)
    ∷ ("keyPoints", texts s.base.key_points)
    ∷ ("decisions", texts s.base.decisions)
    ∷ ("summary", text s.base.summary)
    ∷ ("memory_type", text (codes (type_name s.memory_type)))
    ∷ ("category", text_or_null s.category)
    ∷ ("is_pinned_suggested", flag s.is_pinned)
    ∷ ("preference_key", text_or_null s.preference_key)
    ∷ ("provenance", object (("platform", codes s.platform) ∷ []))
    ∷ []

abbrev pinned : Option Bool → (suggested is_pref : Bool) → Bool
pinned none suggested is_pref = suggested || is_pref
pinned (some b) suggested is_pref = b || is_pref

-- What is decided on a memory before it is stored
unfoldable pub to_store : SaveMemoryUseCaseInput → ConversationSummary → StoredSummary
to_store i s =
    let classified = classify_memory (trim i.content) (record {
      memory_type = s.memory_type;
      category = s.category;
      is_pinned_suggested = s.is_pinned_suggested;
    }) in
    let memory_type = normalize_memory_type i.memory_type classified.memory_type in
    record {
      base = s;
      memory_type = memory_type;
      category = or_next i.category classified.category;
      is_pinned = pinned i.is_pinned classified.is_pinned (is_preference memory_type);
      preference_key =
          or_next i.preference_key (or_next s.preference_key classified.preference_key);
      platform = i.platform;
    }

abbrev strong_hit : List VectorHit → Option VectorHit
strong_hit hits = first_where (λ h. h.strong) hits

abbrev same_type_row : MemoryType → Option MemoryRecordRow → Option MemoryRecordRow
unfolding type_name
same_type_row t none = none
same_type_row t (some r) = if str_eq r.memory_type (type_name t) then some r else none

abbrev row_of_hit :
    AuthContext → MemoryType → List MemoryRecordRow → Option VectorHit → Option MemoryRecordRow
unfolding same_type_row
row_of_hit auth t rows none = none
row_of_hit auth t rows (some h) =
    same_type_row t (first (get_by_ids auth (h.memory_id ∷ []) false rows))

-- `dedupeByVector`, before the increment: the row that is much the same
unfoldable pub dedupe_by_vector :
    AuthContext
    → MemoryType
    → Option (List VectorHit)
    → List MemoryRecordRow
    → Option MemoryRecordRow
unfolding row_of_hit
dedupe_by_vector auth t none rows = none
dedupe_by_vector auth t (some hits) rows =
    if is_preference t then none else row_of_hit auth t rows (strong_hit hits)
