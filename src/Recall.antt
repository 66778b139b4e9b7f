-- ===== src/Recall.antt =====
-- src/infrastructure/recall/bucket-recall.ts and scoring-utils.ts: what is recalled for a query, in
-- three buckets under budgets of tokens. Scores are doubles, of a type with the operations that the
-- code uses. A text is the list of its code units.
pub mod Queries
pub mod Scores
pub mod Buckets
pub mod Results
pub mod Packing
pub mod Origins
pub mod Promises
pub mod Coverage
pub mod Repeats
pub mod Identity
pub mod Conflicts
mod Tests
use tallei_ai.Common.{String, List, Bool, Option, ℕ, Text, ◌+◌, ◌/◌, length}
use tallei_ai.Memory.{MemoryRecordRow, Summary}

-- What the code does with a double.
pub record Double {ℓ} (S : Type ℓ) : Type ℓ where
  pub of_nat : ℕ → S
  pub add : S → S → S
  pub sub : S → S → S
  pub mul : S → S → S
  pub div : S → S → S
  pub exp : S → S
  pub log : S → S
  pub log1p : S → S
  pub maximum : S → S → S
  pub gt : S → S → Bool

-- `toMeta`: the fields of the summary, and those of the row that replace them
pub record Metadata : Type 0 where
  pub summary : Summary
  pub platform : String
  pub created_at : ℕ
  pub memory_type : String
  pub category : Option Text
  pub is_pinned : Bool
  pub reference_count : ℕ

pub record BucketMemory (S : Type 0) : Type 0 where
  pub id : String
  pub content : Text
  pub score : S
  pub metadata : Metadata

-- A row with its decrypted text
pub record Decrypted : Type 0 where
  pub row : MemoryRecordRow
  pub content : Text

pub record Scored (S : Type 0) : Type 0 where
  pub row : MemoryRecordRow
  pub content : Text
  pub score : S

abbrev pub pref_budget : ℕ
pref_budget = 1_500

abbrev pub longterm_budget : ℕ
longterm_budget = 4_800

abbrev pub shortterm_budget : ℕ
shortterm_budget = 1_700

-- `Math.ceil(text.length / 4)`
unfoldable pub estimate_tokens : Text → ℕ
estimate_tokens t = (length t + 3) / 4
