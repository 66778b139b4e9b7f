-- ===== src/Recall/Identity.antt =====
-- The memories of one recall have distinct ids.
use tallei_ai.Common.{
  All-both, String, List, Option, ℕ, Text, AuthContext, true, false, [], ◌∷◌, ◌++◌, All, All-map,
  Distinct, select_where, select_where-Distinct, All-mem, append-Distinct_apart, distinct_unique,
  All-append, ◌+◌, ◌≡◌, ◌≢◌, refl, sym, ◌∙◌, Bool-cases, inl, inr, str_eq, Option-cases, leb, total,
  some_where,
}
use mathlib.Core.List.{Memᴰ}
use mathlib.Core.List.Memᴰ
use tallei_ai.Memory.{MemoryRecordRow}
use tallei_ai.Memory.Repository.{list_all, list_with_options}
use tallei_ai.Recall.{Double, Decrypted, BucketMemory, estimate_tokens, longterm_budget}
use tallei_ai.Recall.Buckets.{
  decrypted_rows, bucket_memories, preference_bucket, longterm_bucket, shortterm_bucket, of_type,
  longterm_types, scored_by, scored_by_age, candidate_ids, recall_first_hybrid,
}
use tallei_ai.Recall.Results.{bucket_recall}
use tallei_ai.Recall.Origins.{
  Lifted, Typed, preference_bucket-Lifted, longterm_bucket-Lifted, shortterm_bucket-Lifted,
}
use tallei_ai.Recall.Repeats.{
  row_id, sort_by-Distinct, items_of-Distinct, dedupe-Distinct, scored_by-Distinct, packed-Distinct,
}
use tallei_ai.Recall.Promises.{some_where-mem}

module _ (S : Type 0) ⦃d : Double S⦄ where
  scored_by_age-ids :
      (P : String → Type 0) (i : ℕ) (xs : List Decrypted)
      → All (λ x. P (row_id x)) xs
      → All (λ s. P s.row.id) (scored_by_age {S = S} i xs)
  unfolding scored_by_age scored_by
  scored_by_age-ids P i [] h = tt
  scored_by_age-ids P i (x ∷ xs) (h, hs) = (h, scored_by_age-ids P (i + 1) xs hs)

  scored_by_age-Distinct :
      (i : ℕ) (xs : List Decrypted)
      → Distinct row_id xs
      → Distinct (λ s. s.row.id) (scored_by_age {S = S} i xs)
  unfolding scored_by_age scored_by
  scored_by_age-Distinct i [] h = tt
  scored_by_age-Distinct i (x ∷ xs) (h, hs) =
      (scored_by_age-ids (λ k. k ≢ x.row.id) (i + 1) xs h, scored_by_age-Distinct (i + 1) xs hs)

decrypted_rows-ids :
    (P : String → Type 0) (decrypt : String → Option Text) (rows : List MemoryRecordRow)
    → All (λ r. P r.id) rows
    → All (λ x. P (row_id x)) (decrypted_rows decrypt rows)
unfolding decrypted_rows
decrypted_rows-ids P decrypt [] h = tt
decrypted_rows-ids P decrypt (r ∷ rs) (h, hs) =
    let rest = decrypted_rows-ids P decrypt rs hs in
    elim (Option-cases (decrypt r.content_ciphertext)) [
      | inl e ↦ rw (decrypted_rows, e) rest
      | inr (t, e) ↦ rw (decrypted_rows, e) (h, rest)
    ]

decrypted_rows-Distinct :
    (decrypt : String → Option Text) (rows : List MemoryRecordRow)
    → Distinct (λ r. r.id) rows
    → Distinct row_id (decrypted_rows decrypt rows)
unfolding decrypted_rows
decrypted_rows-Distinct decrypt [] h = tt
decrypted_rows-Distinct decrypt (r ∷ rs) (h, hs) =
    let rest = decrypted_rows-Distinct decrypt rs hs in
    elim (Option-cases (decrypt r.content_ciphertext)) [
      | inl e ↦ rw (decrypted_rows, e) rest
      | inr (t, e) ↦ rw (decrypted_rows, e) (decrypted_rows-ids (λ k. k ≢ r.id) decrypt rs h, rest)
    ]

-- Lists of kinds that have none in common.
abbrev Apart : List String → List String → Type 0
Apart kinds kinds' = All (λ k. some_where (str_eq k) kinds' ≡ false) kinds

Apart-kind :
    (kinds kinds' : List String) (s : String)
    → Apart kinds kinds'
    → Memᴰ s kinds
    → some_where (str_eq s) kinds' ≡ true
    → ⊥
Apart-kind [] kinds' s h m t = Memᴰ.not-nil m
Apart-kind (k ∷ ks) kinds' s (h, hs) (Memᴰ.head e) t =
    let h' : some_where (str_eq s) kinds' ≡ false = rw e h in cc
Apart-kind (k ∷ ks) kinds' s (h, hs) (Memᴰ.tail m) t = Apart-kind ks kinds' s hs m t

module _ (S : Type 0) ⦃d : Double S⦄ (now : ℕ) (rows : List Decrypted)
    (ok : Distinct row_id rows) where
  abbrev Made : List String → BucketMemory S → Type 0
  Made kinds = Lifted (Typed (λ x. Memᴰ x rows) kinds)

  Made-Apart :
      (kinds kinds' : List String) (m m' : BucketMemory S)
      → Apart kinds kinds'
      → Made kinds m
      → Made kinds' m'
      → m'.id ≢ m.id
  Made-Apart kinds kinds' m m' apart (x, (here, k), i, _) (x', (here', k'), i', _) same =
      let one : x ≡ x' = distinct_unique row_id rows ok here here' (sym i ∙ sym same ∙ i') in
      let k'' : of_type kinds' x ≡ true = rw one k' in
      Apart-kind kinds kinds' x.row.memory_type apart (some_where-mem _ kinds k) k''

  apart :
      (kinds kinds' : List String) (ms ms' : List (BucketMemory S))
      → Apart kinds kinds'
      → All (Made kinds) ms
      → All (Made kinds') ms'
      → All (λ m. All (λ m'. m'.id ≢ m.id) ms') ms
  apart kinds kinds' ms ms' a h h' =
      All-map (Made kinds) _ ms
        (λ m made.
          All-map (Made kinds') _ ms' (λ m' made'. Made-Apart kinds kinds' m m' a made made') h')
        h

  preference_bucket-Distinct : Distinct (λ m. m.id) (preference_bucket {S = S} now rows)
  unfolding preference_bucket
  preference_bucket-Distinct = packed-Distinct _ 0 _ (
      scored_by-Distinct _ _ (sort_by-Distinct row_id _ _ (select_where-Distinct _ row_id rows ok)))

  longterm_bucket-Distinct :
      (found_by : Text → Option (List String)) (query : Text)
      → Distinct (λ m. m.id) (longterm_bucket {S = S} now found_by query rows)
  unfolding longterm_bucket recall_first_hybrid candidate_ids
  longterm_bucket-Distinct found_by query =
      elim (Bool-cases (
        leb (total (λ x. estimate_tokens x.content) (select_where (of_type longterm_types) rows))
          longterm_budget)) [
            | inl t ↦ rw t (
                packed-Distinct _ 0 _ (
                  scored_by-Distinct _ _
                    (sort_by-Distinct row_id _ _ (select_where-Distinct _ row_id rows ok))))
            | inr n ↦ rw n (
                packed-Distinct _ 0 _ (
                  sort_by-Distinct (λ s. s.row.id) _ _
                    (scored_by-Distinct _ _ (items_of-Distinct _ _ (dedupe-Distinct _)))))
          ]

  shortterm_bucket-Distinct : Distinct (λ m. m.id) (shortterm_bucket {S = S} now rows)
  unfolding shortterm_bucket
  shortterm_bucket-Distinct = packed-Distinct _ 0 _ (
      scored_by_age-Distinct S 0 _ (
        sort_by-Distinct row_id _ _
          (select_where-Distinct _ row_id _ (select_where-Distinct _ row_id rows ok))))

  buckets-Distinct :
      (found_by : Text → Option (List String)) (query : Text)
      → Distinct
          (λ m. m.id)
          (preference_bucket {S = S} now rows
            ++ (longterm_bucket now found_by query rows ++ shortterm_bucket now rows))
  unfolding some_where
  buckets-Distinct found_by query =
      let mine = All-mem (λ x. Memᴰ x rows) rows (λ x m. m) in
      let pref : List (BucketMemory S) = preference_bucket now rows in
      let long : List (BucketMemory S) = longterm_bucket now found_by query rows in
      let short : List (BucketMemory S) = shortterm_bucket now rows in
      let of_pref = preference_bucket-Lifted S (λ x. Memᴰ x rows) now rows mine in
      let of_long = longterm_bucket-Lifted S (λ x. Memᴰ x rows) now found_by query rows mine in
      let of_short : All (Made ("event" ∷ "note" ∷ [])) short =
        All-map _ (Made ("event" ∷ "note" ∷ [])) short (λ m (x, (typed, r), i, c). (x, typed, i, c))
          (shortterm_bucket-Lifted S (λ x. Memᴰ x rows) now rows mine) in
      let pref_long =
        apart ("preference" ∷ []) longterm_types pref long (refl, tt) of_pref of_long in
      let pref_short =
        apart ("preference" ∷ []) ("event" ∷ "note" ∷ []) pref short (refl, tt) of_pref of_short in
      let long_short =
        apart longterm_types ("event" ∷ "note" ∷ []) long short (refl, (refl, (refl, (refl, tt))))
          of_long of_short in
      append-Distinct_apart (λ m. m.id) pref (long ++ short) preference_bucket-Distinct
        (append-Distinct_apart (λ m. m.id) long short (longterm_bucket-Distinct found_by query)
          shortterm_bucket-Distinct long_short)
        (All-map _ _ pref (λ m (l, s). All-append (λ m'. m'.id ≢ m.id) long short l s)
          (All-both _ _ pref pref_long pref_short))

-- Where the ids of the table are distinct, so are those of the memories that are recalled: the three
-- buckets have none in common, and the hybrid search, whose three signals overlap, takes each once.
pub bucket_recall-Distinct :
    (S : Type 0) ⦃d : Double S⦄ (now : ℕ) (decrypt : String → Option Text)
    (found_by : Text → Option (List String)) (query : Text) (auth : AuthContext)
    (table : List MemoryRecordRow)
    → Distinct (λ r. r.id) table
    → Distinct (λ m. m.id) (bucket_recall {S = S} now decrypt found_by query auth table).memories
unfolding bucket_recall bucket_memories list_all list_with_options
bucket_recall-Distinct S now decrypt found_by query auth table h =
    let rows = decrypted_rows decrypt (list_all auth table) in
    let ok : Distinct row_id rows =
      decrypted_rows-Distinct decrypt _
        (sort_by-Distinct (λ r. r.id) _ _ (select_where-Distinct _ (λ r. r.id) table h)) in
    buckets-Distinct S now rows ok found_by query
