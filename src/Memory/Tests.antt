-- ===== src/Memory/Tests.antt =====
-- Saves, recalls and pages of one user, and the theorems on them.
use tallei_ai.Common.{
  ap, first_where, dedupe, text_eq, trim, select_where, sort_by, take, ◌<◌, String, List, Option, ℕ,
  Text, AuthContext, free, codes, true, false, none, some, [], ◌∷◌, map, All, resolved, rejected,
  ◌≡◌, ◌≢◌, refl, arith, length, str_eq_iff,
}
use tallei_ai.Memory.{MemoryRecordRow}
use tallei_ai.Memory.Forgetting.{IsDeletion, delete_memory_lem, IsPlain}
use tallei_ai.Memory.Service.{MemoryState, delete_memory}
use tallei_ai.Memory.Repository.{list_all, find_active_by_content_hash}
use tallei_ai.Memory.Save.{
  type_name, SaveMemoryUseCaseInput, SaveAnswers, SaveMemoryResult, quota_exceeded, to_store,
  build_fallback_summary,
}
use tallei_ai.Memory.SaveMemory.{over_quota, save_new, save_memory, answer}
use tallei_ai.Memory.Duplicates.{stored_id, found_id, save_memory_again}
use tallei_ai.Memory.Quota.{IsRefused, save_memory-IsRefused}
use tallei_ai.Memory.Preferences.{IsOnly, save_memory-IsOnly}
use tallei_ai.Memory.Pages.{listed_memory}
use tallei_ai.Memory.Walks.{walk, walk_lem}
use tallei_ai.Memory.Cache.{
  set_cached_recall, CachedRecall, cache_scope_key, recall_cache_key, get_cached_recall,
}
use tallei_ai.Memory.RecallMemory.{
  RecallMemoryUseCaseInput, recall_memories, without_hints, key_of, timed_out, empty_result,
}
use tallei_ai.Memory.Again.{Others, recall_memories_again}
use tallei_ai.Memory.Classify.{normalize_memory_type}
use tallei_ai.Recall.Results.{BucketRecallResult}

abbrev ann : AuthContext
ann = record { tenant_id = "t1"; user_id = "ann"; plan = free }

abbrev sealed : Text → String
sealed t = "sealed"

abbrev hashed : Text → String
hashed t = "new"

abbrev cocoa : MemoryRecordRow
cocoa = record {
  id = "m1";
  tenant_id = "t1";
  user_id = "ann";
  content_ciphertext = "I prefer cocoa";
  content_hash = "old";
  platform = "chatgpt";
  summary_json = none;
  qdrant_point_id = "m1";
  memory_type = "preference";
  category = some (codes "drink");
  is_pinned = true;
  reference_count = 1;
  last_referenced_at = none;
  superseded_by = none;
  created_at = 900;
  deleted_at = none;
}

abbrev records : List MemoryRecordRow
records = cocoa ∷ []

abbrev likes : Text → SaveMemoryUseCaseInput
likes t = record {
  content = t;
  auth = ann;
  platform = "claude";
  memory_type = some (codes "preference");
  category = some (codes "drink");
  is_pinned = none;
  preference_key = none;
  run_vector_dedup = false;
}

abbrev answers : String → ℕ → SaveAnswers
answers id count = record {
  memory_id = id;
  summarized = none;
  hits = none;
  quota = some count;
  now = 1_000;
}

abbrev tea : SaveMemoryUseCaseInput
tea = likes (codes "I prefer tea")

abbrev coffee : SaveMemoryUseCaseInput
coffee = likes (codes "By now I would rather have coffee")

tea-stored : stored_id (save_memory sealed hashed tea (answers "m1" 1) []).0 ≡ some "m1"
unfolding save_memory find_active_by_content_hash take sort_by select_where save_new over_quota
tea-stored = refl

save_memory_again_example :
    found_id
      (save_memory sealed hashed tea
        (answers "m2" 2)
        (save_memory sealed hashed tea (answers "m1" 1) []).1).0
    ≡ some "m1"
save_memory_again_example =
    save_memory_again sealed hashed tea tea (answers "m1" 1) (answers "m2" 2) [] "m1" tea-stored
      refl refl

coffee-refused :
    (save_memory sealed hashed coffee (answers "m2" 51) records).0 ≡ rejected quota_exceeded
unfolding save_memory find_active_by_content_hash take sort_by select_where save_new over_quota
coffee-refused = refl

m2-new : All (λ r. r.id ≢ "m2") records
m2-new = ((λ e. let f : false ≡ true = (str_eq_iff "m1" "m2").1 e in cc), tt)

save_memory-IsRefused_example :
    IsRefused sealed hashed coffee
      (answers "m2" 51)
      records
      m2-new
      (save_memory sealed hashed coffee (answers "m2" 51) records)
save_memory-IsRefused_example =
    save_memory-IsRefused sealed hashed coffee (answers "m2" 51) records m2-new quota_exceeded
      coffee-refused

abbrev coffee_result : SaveMemoryResult
coffee_result =
    answer sealed hashed "m2"
      (to_store coffee (build_fallback_summary (codes "By now I would rather have coffee"))) false

coffee-saved :
    (save_memory sealed hashed coffee (answers "m2" 2) records).0 ≡ resolved coffee_result
unfolding save_memory find_active_by_content_hash take sort_by select_where save_new over_quota trim
coffee-saved = refl

save_memory-IsOnly_example :
    All (IsOnly ann coffee_result) (save_memory sealed hashed coffee (answers "m2" 2) records).1
unfolding type_name to_store normalize_memory_type text_eq
save_memory-IsOnly_example =
    save_memory-IsOnly sealed hashed coffee (answers "m2" 2) records coffee_result b'd'
      (codes "rink") coffee-saved refl refl refl

abbrev readable : String → Option Text
readable s = some (codes s)

few : length (list_all ann records) < 3
unfolding list_all sort_by select_where dedupe
few = omega arith

walk_lem_example :
    walk readable ann records 1 false 3 0
    ≡ some (map (listed_memory readable) (list_all ann records))
walk_lem_example = walk_lem readable ann records 1 false 3 few

abbrev asks : RecallMemoryUseCaseInput
asks = record { query = codes "What does Ann drink"; auth = ann; limit = none; types = [] }

nothing-cached : (get_cached_recall {R = BucketRecallResult ℕ} 1_000 (key_of asks) []).0 ≡ none
unfolding get_cached_recall first_where
nothing-cached = refl

abbrev after_failure : List (CachedRecall (BucketRecallResult ℕ))
after_failure = (recall_memories {S = ℕ} 1_000 2_000 asks none (rejected timed_out) []).cache

other-key : codes "another key" ≢ key_of asks
unfolding text_eq recall_cache_key cache_scope_key key_of
other-key e = let f : true ≡ false = ap (text_eq (codes "another key")) e in cc

few_entries : length after_failure < 500
unfolding recall_memories get_cached_recall set_cached_recall first_where
few_entries = omega arith

recall_memories_again_example :
    without_hints
      (recall_memories {S = ℕ} 9_000 9_100 asks none
        (resolved empty_result)
        (set_cached_recall 3_000 (codes "another key") empty_result after_failure)).result
    ≡ without_hints (recall_memories {S = ℕ} 1_000 2_000 asks none (rejected timed_out) []).result
recall_memories_again_example =
    recall_memories_again {S = ℕ} 1_000 2_000 9_000 9_100 asks none none (rejected timed_out)
      (resolved empty_result) []
      (set_cached_recall 3_000 (codes "another key") empty_result after_failure) nothing-cached
      (omega arith)
      (Others.sets 3_000 (codes "another key") empty_result other-key few_entries Others.quiet)

abbrev bob : AuthContext
bob = record ann { user_id = "bob" }

forgets : MemoryState ℕ
forgets = record {
  rows = records;
  recall_cache =
      record { key = recall_cache_key ann (codes "tea") 5 []; result = 1; exp = 9_000 }
      ∷ record { key = recall_cache_key bob (codes "tea") 5 []; result = 2; exp = 9_000 }
      ∷ [];
}

plain : IsPlain ann × IsPlain bob
plain = (
  ((refl, (refl, tt)), (refl, (refl, (refl, tt)))),
  ((refl, (refl, tt)), (refl, (refl, (refl, tt)))),
)

scopes_differ : cache_scope_key ann ≢ cache_scope_key bob
unfolding cache_scope_key text_eq
scopes_differ e = let f : true ≡ false = ap (text_eq (cache_scope_key ann)) e in cc

delete_memory_lem_example :
    IsDeletion {R = ℕ} ann bob "m1" 1_000 2_000
      (codes "tea")
      5
      []
      forgets
      (delete_memory ann "m1" 1_000 forgets)
delete_memory_lem_example =
    delete_memory_lem {R = ℕ} ann bob "m1" 1_000 2_000 (codes "tea") 5 [] forgets plain.0 plain.1
      scopes_differ
