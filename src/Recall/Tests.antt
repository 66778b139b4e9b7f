-- ===== src/Recall/Tests.antt =====
-- A table of two users, with whole numbers for the scores, and the theorems on it.
use tallei_ai.Common.{
  total, some_where, dedupe, sort_by, select_where, String, List, Option, ℕ, Text, AuthContext,
  free, true, false, none, some, [], ◌∷◌, All, codes, Distinct, arith, ◌≤◌, ◌≡◌, refl, str_eq_iff,
  ltb, max, ◌+◌, ◌-◌, ◌*◌, ◌/◌, length,
}
use mathlib.Core.List.{Memᴰ}
use tallei_ai.Memory.{MemoryRecordRow, text}
use tallei_ai.Recall.{estimate_tokens, Double, Decrypted, BucketMemory}
use tallei_ai.Recall.Results.{bucket_recall}
use tallei_ai.Recall.Packing.{tokens}
use tallei_ai.Recall.Promises.{IsOwn, IsRecalled, bucket_recall-IsRecalled, tokens-bucket_recall}
use tallei_ai.Recall.Coverage.{MemoryOf, bucket_recall_dumps}
use tallei_ai.Recall.Identity.{bucket_recall-Distinct}
use tallei_ai.Recall.Buckets.{
  scored_by, packed, shortterm_bucket, longterm_types, longterm_bucket, of_type, preference_bucket,
  to_meta, bucket_memories, decrypted_rows,
}
use tallei_ai.Memory.Repository.{list_all}

instance abbrev whole : Double ℕ
whole = record {
  of_nat = λ n. n;
  add = λ a b. a + b;
  sub = λ a b. a - b;
  mul = λ a b. a * b;
  div = λ a b. a / b;
  exp = λ a. 1;
  log = λ a. a;
  log1p = λ a. a;
  maximum = max;
  gt = λ a b. ltb b a;
}

abbrev ann : AuthContext
ann = record { tenant_id = "t1"; user_id = "ann"; plan = free }

abbrev stored : (id user content kind platform : String) → MemoryRecordRow
stored id user content kind platform = record {
  id = id;
  tenant_id = "t1";
  user_id = user;
  content_ciphertext = content;
  content_hash = content;
  platform = platform;
  summary_json = some (("subject", text (codes "colour")) ∷ []);
  qdrant_point_id = id;
  memory_type = kind;
  category = none;
  is_pinned = false;
  reference_count = 1;
  last_referenced_at = none;
  superseded_by = none;
  created_at = 1_000;
  deleted_at = none;
}

abbrev likes_blue : MemoryRecordRow
likes_blue = stored "m1" "ann" "I prefer blue" "preference" "claude"

abbrev paints : MemoryRecordRow
paints = stored "m2" "ann" "Ann paints" "fact" "chatgpt"

abbrev records : List MemoryRecordRow
records = likes_blue ∷ paints ∷ stored "m3" "bob" "Bob sings" "fact" "claude" ∷ []

abbrev plain : String → Option Text
plain s = some (codes s)

abbrev nothing_found : Text → Option (List String)
nothing_found query = none

abbrev query : Text
query = codes "what does Ann do"

recalls_two :
    length (bucket_recall {S = ℕ} 2_000 plain nothing_found query ann records).memories ≡ 2
unfolding bucket_recall bucket_memories list_all decrypted_rows preference_bucket longterm_bucket
    shortterm_bucket select_where sort_by packed dedupe some_where estimate_tokens scored_by
recalls_two = refl

bucket_recall-IsRecalled_example :
    All
      (IsRecalled plain ann records 2_000)
      (bucket_recall {S = ℕ} 2_000 plain nothing_found query ann records).memories
bucket_recall-IsRecalled_example =
    bucket_recall-IsRecalled plain ann records ℕ 2_000 nothing_found query

tokens-bucket_recall_example :
    tokens (bucket_recall {S = ℕ} 2_000 plain nothing_found query ann records).memories ≤ 8_000
tokens-bucket_recall_example = tokens-bucket_recall ℕ 2_000 plain nothing_found query ann records

distinct_records : Distinct (λ r. r.id) records
distinct_records = (
  (
    (λ e. let f : false ≡ true = (str_eq_iff "m2" "m1").1 e in cc),
    ((λ e. let f : false ≡ true = (str_eq_iff "m3" "m1").1 e in cc), tt),
  ),
  (((λ e. let f : false ≡ true = (str_eq_iff "m3" "m2").1 e in cc), tt), (tt, tt)),
)

bucket_recall-Distinct_example :
    Distinct
      (λ m. m.id)
      (bucket_recall {S = ℕ} 2_000 plain nothing_found query ann records).memories
bucket_recall-Distinct_example =
    bucket_recall-Distinct ℕ 2_000 plain nothing_found query ann records distinct_records

abbrev decrypted_as : MemoryRecordRow → String → Decrypted
decrypted_as r s = record { row = r; content = codes s }

paints-IsOwn : IsOwn plain ann records (decrypted_as paints "Ann paints")
paints-IsOwn = record {
  stored = Memᴰ.tail (Memᴰ.head refl);
  tenant = refl;
  user = refl;
  not_deleted = refl;
  not_superseded = refl;
  decrypted = refl;
}

small_enough :
    total
      (λ y. estimate_tokens y.content)
      (select_where (of_type longterm_types) (decrypted_rows plain (list_all ann records)))
    ≤ 4_800
unfolding select_where decrypted_rows list_all sort_by dedupe some_where estimate_tokens
small_enough = omega arith

bucket_recall_dumps_example :
    MemoryOf {S = ℕ}
      (decrypted_as paints "Ann paints")
      (bucket_recall 2_000 plain nothing_found query ann records).memories
unfolding select_where decrypted_rows list_all sort_by dedupe some_where estimate_tokens
bucket_recall_dumps_example =
    bucket_recall_dumps 2_000 plain nothing_found query ann records
      (decrypted_as paints "Ann paints") (omega arith) paints-IsOwn (Memᴰ.head refl)

likes_blue-IsOwn : IsOwn plain ann records (decrypted_as likes_blue "I prefer blue")
likes_blue-IsOwn = record {
  stored = Memᴰ.head refl;
  tenant = refl;
  user = refl;
  not_deleted = refl;
  not_superseded = refl;
  decrypted = refl;
}

abbrev made_of : MemoryRecordRow → BucketMemory ℕ
made_of r = record {
  id = r.id;
  content = codes r.content_ciphertext;
  score = 1;
  metadata = to_meta r;
}
