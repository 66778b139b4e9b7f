-- ===== src/Recall/Buckets.antt =====
-- The three buckets: `packUnderBudget`, `recallFirstHybrid` and `bucketRecall`. What the embedding and
-- the vector search answer to a query is a function of it: the ids that they find, best first, or
-- `none` if one of them throws. `decrypt` is `decryptSafe`, and `now` the clock of the request.
use tallei_ai.Common.{
  String, List, Bool, Option, ℕ, Text, true, false, not, none, some, ltb, leb, ◌+◌, ◌*◌, total, map,
  if◌then◌else◌, dedupe, [], ◌∷◌, ◌++◌, str_eq, sort_by, take, select_where, first_where,
  some_where,
}
use tallei_ai.Memory.{MemoryRecordRow}
use tallei_ai.Memory.Repository.{or_else}
use tallei_ai.Recall.{
  Double, Decrypted, Scored, BucketMemory, Metadata, estimate_tokens, pref_budget, longterm_budget,
  shortterm_budget,
}
use tallei_ai.Recall.Queries.{expand_query}
use tallei_ai.Recall.Scores.{activity_signal, bm25_scores, max_score, rank_of, lookup_by, decimal}

unfoldable pub to_meta : MemoryRecordRow → Metadata
to_meta r = record {
  summary = or_else r.summary_json [];
  platform = r.platform;
  created_at = r.created_at;
  memory_type = r.memory_type;
  category = r.category;
  is_pinned = r.is_pinned;
  reference_count = r.reference_count;
}

unfoldable pub decrypted_rows : (String → Option Text) → List MemoryRecordRow → List Decrypted
decrypted_rows decrypt [] = []
decrypted_rows decrypt (r ∷ rs) = elim (decrypt r.content_ciphertext) [
  | none ↦ decrypted_rows decrypt rs
  | some t ↦ record { row = r; content = t } ∷ decrypted_rows decrypt rs
]

abbrev pub of_type : List String → Decrypted → Bool
of_type types x = some_where (str_eq x.row.memory_type) types

abbrev pub longterm_types : List String
longterm_types = "fact" ∷ "decision" ∷ "lesson" ∷ "failure" ∷ []

abbrev same_bool : Bool → Bool → Bool
same_bool a b = if a then b else not b

abbrev more_referenced : Decrypted → Decrypted → Bool
more_referenced a b = ltb b.row.reference_count a.row.reference_count

abbrev preferred : Decrypted → Decrypted → Bool
preferred a b =
    if same_bool a.row.is_pinned b.row.is_pinned then more_referenced a b else a.row.is_pinned

abbrev more_recent : Decrypted → Decrypted → Bool
more_recent a b = ltb b.row.created_at a.row.created_at

module _ {S : Type 0} where
  unfoldable pub bucket_memory : Scored S → BucketMemory S
  unfolding to_meta
  bucket_memory x = record {
    id = x.row.id;
    content = x.content;
    score = x.score;
    metadata = to_meta x.row;
  }

  -- The loop of `packUnderBudget`
  unfoldable pub packed : (budget used : ℕ) → List (Scored S) → List (BucketMemory S)
  unfolding bucket_memory estimate_tokens
  packed budget used [] = []
  packed budget used (x ∷ xs) =
      let tok = estimate_tokens x.content in
      elim (ltb budget (used + tok)) [
        | true ↦ packed budget used xs
        | false ↦ bucket_memory x ∷ packed budget (used + tok) xs
      ]

  abbrev pub pack_under_budget : List (Scored S) → ℕ → List (BucketMemory S)
  unfolding packed
  pack_under_budget items budget = packed budget 0 items

  unfoldable pub scored_by : (Decrypted → S) → Decrypted → Scored S
  scored_by f x = record { row = x.row; content = x.content; score = f x }

abbrev in_rows : List Decrypted → String → Bool
in_rows rows id = some_where (λ x. str_eq x.row.id id) rows

-- `docMap.get(id)`
unfoldable pub items_of : List Decrypted → List String → List Decrypted
items_of rows [] = []
items_of rows (id ∷ ids) = elim (first_where (λ x. str_eq x.row.id id) rows) [
  | none ↦ items_of rows ids
  | some x ↦ x ∷ items_of rows ids
]

-- `created_at >= now - 60 days`
abbrev pub recent : (now : ℕ) → Decrypted → Bool
recent now x = leb now (x.row.created_at + 60 * 86_400_000)

module _ {S : Type 0} ⦃d : Double S⦄ where
  -- The union of the three signals: `seen` and `docMap`
  unfoldable pub candidate_ids :
      (vector_ids : List String) → (bm25 : List (String × S)) → List Decrypted → List String
  candidate_ids vector_ids bm25 rows =
      let by_score : List (String × S) = take 15 (sort_by (λ a b. d.gt a.1 b.1) bm25) in
      let bm25_ids = map (λ e. e.0) by_score in
      let temporal_ids = map (λ x. x.row.id) (take 5 (sort_by more_recent rows)) in
      dedupe str_eq (select_where (in_rows rows) (vector_ids ++ bm25_ids ++ temporal_ids))

  -- `Math.max(0.01, 1 - i * 0.05)` for the one of place `i`
  unfoldable pub scored_by_age : ℕ → List Decrypted → List (Scored S)
  unfolding scored_by
  scored_by_age i [] = []
  scored_by_age i (x ∷ xs) =
      let fading = d.sub (d.of_nat 1) (d.mul (d.of_nat i) (decimal 5 100)) in
      scored_by (λ _. d.maximum (decimal 1 100) fading) x ∷ scored_by_age (i + 1) xs

module _ {S : Type 0} ⦃d : Double S⦄ (now : ℕ) where
  abbrev pub activity : Decrypted → S
  unfolding activity_signal
  activity x = activity_signal now x.row.reference_count x.row.last_referenced_at

  abbrev higher : Scored S → Scored S → Bool
  higher a b = d.gt a.score b.score

  abbrev rank_score : Option ℕ → S
  rank_score none = d.of_nat 0
  rank_score (some i) = decimal 1 (60 + i + 1)

  abbrev share_of : S → S → S
  share_of best score = if d.gt best (d.of_nat 0) then d.div score best else d.of_nat 0

  unfoldable pub hybrid_score : (vector_ids : List String) → List (String × S) → Decrypted → S
  unfolding rank_of max_score lookup_by
  hybrid_score vector_ids bm25 x =
      let v = rank_score (rank_of x.row.id 0 vector_ids) in
      let b = share_of (max_score bm25) (or_else (lookup_by str_eq x.row.id bm25) (d.of_nat 0)) in
      d.mul (d.add (d.mul v (decimal 7 10)) (d.mul b (decimal 3 10))) (activity x)

  unfoldable pub recall_first_hybrid :
      (found_by : Text → Option (List String))
      → (query : Text) → List Decrypted
      → (budget : ℕ) → List (BucketMemory S)
  unfolding expand_query candidate_ids items_of hybrid_score packed bm25_scores scored_by
  recall_first_hybrid found_by query rows budget =
      let expanded = expand_query query in
      let found = found_by expanded in
      let vector_ids = select_where (in_rows rows) (or_else found []) in
      let bm25 = bm25_scores expanded rows in
      let candidates = items_of rows (candidate_ids vector_ids bm25 rows) in
      pack_under_budget (sort_by higher (map (scored_by (hybrid_score vector_ids bm25)) candidates))
        budget

  unfoldable pub preference_bucket : List Decrypted → List (BucketMemory S)
  unfolding packed scored_by
  preference_bucket rows =
      pack_under_budget
        (map (scored_by (λ x. d.add (d.of_nat 10) (activity x)))
          (sort_by preferred (select_where (of_type ("preference" ∷ [])) rows)))
        pref_budget

  -- The dump of everything, or the hybrid where it does not fit
  unfoldable pub longterm_bucket :
      (found_by : Text → Option (List String))
      → (query : Text) → List Decrypted
      → List (BucketMemory S)
  unfolding packed scored_by recall_first_hybrid estimate_tokens
  longterm_bucket found_by query rows =
      let chosen = select_where (of_type longterm_types) rows in
      if leb (total (λ x. estimate_tokens x.content) chosen) longterm_budget
      then pack_under_budget (map (scored_by activity) (sort_by more_referenced chosen))
          longterm_budget
      else recall_first_hybrid found_by query chosen longterm_budget

  unfoldable pub shortterm_bucket : List Decrypted → List (BucketMemory S)
  unfolding packed scored_by_age
  shortterm_bucket rows =
      let chosen = select_where (of_type ("event" ∷ "note" ∷ [])) rows in
      pack_under_budget (scored_by_age 0 (sort_by more_recent (select_where (recent now) chosen)))
        shortterm_budget

  -- The memories of `bucketRecall`, from the rows that the table has of the user
  unfoldable pub bucket_memories :
      (String → Option Text)
      → (found_by : Text → Option (List String)) → (query : Text) → List MemoryRecordRow
      → List (BucketMemory S)
  bucket_memories decrypt found_by query all_rows =
      let rows = decrypted_rows decrypt all_rows in
      preference_bucket rows ++ (longterm_bucket found_by query rows ++ shortterm_bucket rows)
