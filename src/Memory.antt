-- ===== src/Memory.antt =====
-- Memories: src/infrastructure/repositories/memory.repository.ts and the use cases of
-- src/orchestration/memory. The table `memory_records` is the list of its rows. Times are
-- milliseconds, texts that the program looks into the code units of the strings, and the JSON of a
-- summary the list of its fields; `none` is JSON that is no object.
pub mod Repository
pub mod Patterns
pub mod Classify
pub mod Cache
pub mod RecallMemory
pub mod Again
pub mod Pages
pub mod Walks
pub mod Save
pub mod SaveMemory
pub mod Saves
pub mod Duplicates
pub mod Quota
pub mod Preferences
pub mod Service
pub mod Forgetting
mod Tests
use tallei_ai.Common.{Text, String, List, Bool, Option, ℕ}

pub data Json : Type 0 where
  text : Text → Json
  texts : List Text → Json
  flag : Bool → Json
  object : List (String × Text) → Json
  null_ : Json

abbrev pub Summary : Type 0
Summary = List (String × Json)

pub record MemoryRecordRow : Type 0 where
  pub id : String
  pub tenant_id : String
  pub user_id : String
  pub content_ciphertext : String
  pub content_hash : String
  pub platform : String
  pub summary_json : Option Summary
  pub qdrant_point_id : String
  pub memory_type : String
  pub category : Option Text
  pub is_pinned : Bool
  pub reference_count : ℕ
  pub last_referenced_at : Option ℕ
  pub superseded_by : Option String
  pub created_at : ℕ
  pub deleted_at : Option ℕ

pub record CreateMemoryRecordInput : Type 0 where
  pub id : String
  pub content_ciphertext : String
  pub content_hash : String
  pub platform : String
  pub summary_json : Option Summary
  pub qdrant_point_id : String
  pub memory_type : Option String
  pub category : Option Text
  pub is_pinned : Option Bool
  pub reference_count : Option ℕ
  pub last_referenced_at : Option ℕ

pub record ListMemoryOptions : Type 0 where
  pub types : List String
  pub pinned_only : Bool
  pub include_superseded : Bool
  pub offset : Option ℕ
