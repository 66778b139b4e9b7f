-- ===== src/Memory/Pages.antt =====
-- The pages of memories: src/orchestration/memory/list.usecase.ts. The limit and the offset are whole
-- numbers, as `Math.trunc` leaves them; the event that is logged is left out.
use tallei_ai.Common.{
  String, List, Bool, Option, ℕ, Text, AuthContext, codes, trim, ltb, ◌==◌, none, some,
  if◌then◌else◌, starts, length, map, min, max, [], ◌∷◌, ◌+◌, drop,
}
use tallei_ai.Memory.{MemoryRecordRow, Summary}
use tallei_ai.Memory.Repository.{list_with_options, count_records, unlisted, or_else}

pub data ℤ : Type 0 where
  pos : ℕ → ℤ
  negsuc : ℕ → ℤ

pub record ListedMetadata : Type 0 where
  pub summary : Summary
  pub platform : String
  pub memory_type : String
  pub category : Option Text
  pub is_pinned : Bool
  pub reference_count : ℕ

pub record ListedMemory : Type 0 where
  pub id : String
  pub content : Text
  pub metadata : ListedMetadata
  pub created_at : ℕ

pub record ListMemoriesUseCaseInput : Type 0 where
  pub limit : Option ℤ
  pub offset : Option ℤ
  pub include_total : Bool

pub record ListedMemoriesPage : Type 0 where
  pub memories : List ListedMemory
  pub limit : ℕ
  pub offset : ℕ
  pub total : Option ℕ
  pub has_more : Bool

abbrev raw_mark : Text
raw_mark = codes "\nRaw:"

-- What stands behind the first mark, if there is one
unfoldable pub after_mark : Text → Option Text
after_mark [] = none
after_mark (c ∷ cs) =
    let later = after_mark cs in
    if starts raw_mark (c ∷ cs) then some (drop (length raw_mark) (c ∷ cs)) else later

unfoldable pub normalize_stored_memory_text : Text → Text
unfolding after_mark
normalize_stored_memory_text t = trim (or_else (after_mark t) t)

abbrev shown : Option Text → Text
unfolding normalize_stored_memory_text
shown none = codes "[Encrypted memory unavailable]"
shown (some t) = normalize_stored_memory_text t

unfoldable pub listed_memory : (String → Option Text) → MemoryRecordRow → ListedMemory
unfolding shown
listed_memory decrypt r = record {
  id = r.id;
  content = shown (decrypt r.content_ciphertext);
  metadata = record {
    summary = or_else r.summary_json [];
    platform = r.platform;
    memory_type = r.memory_type;
    category = r.category;
    is_pinned = r.is_pinned;
    reference_count = r.reference_count;
  };
  created_at = r.created_at;
}

abbrev pub page_limit : Option ℤ → ℕ
page_limit none = 200
page_limit (some (pos n)) = max 1 (min 200 n)
page_limit (some (negsuc n)) = 1

abbrev pub page_offset : Option ℤ → ℕ
page_offset none = 0
page_offset (some (pos n)) = n
page_offset (some (negsuc n)) = 0

abbrev pub more_after : (limit offset count : ℕ) → Option ℕ → Bool
more_after limit offset count none = count == limit
more_after limit offset count (some total) = ltb (offset + count) total

unfoldable pub list_memories_page :
    (String → Option Text)
    → AuthContext
    → ListMemoriesUseCaseInput
    → List MemoryRecordRow
    → ListedMemoriesPage
list_memories_page decrypt auth i rows =
    let limit = page_limit i.limit in
    let offset = page_offset i.offset in
    let found =
      list_with_options auth (some limit) (record unlisted { offset = some offset }) rows in
    let memories = map (listed_memory decrypt) found in
    let total = if i.include_total then some (count_records auth unlisted rows) else none in
    record {
      memories = memories;
      limit = limit;
      offset = offset;
      total = total;
      has_more = more_after limit offset (length memories) total;
    }
