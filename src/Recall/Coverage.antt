-- ===== src/Recall/Coverage.antt =====
-- What is not left out: the dump of the long-term memories, and the room for preferences.
use tallei_ai.Common.{
  All-Memᴰ, ◌<◌, ◌⊎◌, ltb, some_where, dedupe, String, List, Option, ℕ, Text, AuthContext, true,
  some, [], ◌∷◌, map, select_where, mem-select_where, arith, ◌≤◌, Permᴰ-Memᴰ, Permᴰ-total, sort_by,
  sort_by-Permᴰ, le→leb, ◌+◌, ◌≡◌, refl, ◌∙◌, ap, Bool-cases, inl, inr, str_eq, str_eq_iff,
  Option-cases, total,
}
use mathlib.Core.List.{Memᴰ}
use mathlib.Core.List.Memᴰ
use mathlib.Core.List.Permᴰ
use tallei_ai.Memory.{MemoryRecordRow}
use tallei_ai.Memory.Repository.{list_all, list_with_options, build_list_scope, normalize_types}
use tallei_ai.Recall.{Double, Decrypted, BucketMemory, estimate_tokens, longterm_budget}
use tallei_ai.Recall.Buckets.{
  decrypted_rows, bucket_memories, preference_bucket, longterm_bucket, shortterm_bucket, of_type,
  longterm_types, bucket_memory, scored_by, activity,
}
use tallei_ai.Recall.Results.{bucket_recall}
use tallei_ai.Recall.Packing.{packed-Placed, tokens, Placed, packed_all}
use tallei_ai.Recall.Promises.{IsOwn}

mem-some_where :
    (s : String) (types : List String) → Memᴰ s types → some_where (str_eq s) types ≡ true
unfolding some_where
mem-some_where s [] m = absurd (Memᴰ.not-nil m)
mem-some_where s (t ∷ ts) (Memᴰ.head e) = rw ((str_eq_iff s t).1 e) refl
mem-some_where s (t ∷ ts) (Memᴰ.tail m) = elim (Bool-cases (str_eq s t)) [
  | inl e ↦ rw e refl
  | inr e ↦ rw e (mem-some_where s ts m)
]

module _ (decrypt : String → Option Text) (auth : AuthContext) (table : List MemoryRecordRow) where
  IsOwn-listed : (x : Decrypted) → IsOwn decrypt auth table x → Memᴰ x.row (list_all auth table)
  unfolding list_all list_with_options build_list_scope normalize_types dedupe select_where
  IsOwn-listed x o =
      let tenant = (str_eq_iff x.row.tenant_id auth.tenant_id).1 o.tenant in
      let user = (str_eq_iff x.row.user_id auth.user_id).1 o.user in
      Permᴰ-Memᴰ (Permᴰ.symm (sort_by-Permᴰ _ _)) (
        mem-select_where _ table o.stored (rw (tenant, user, o.not_deleted, o.not_superseded) refl))

  decrypted_rows-mem :
      (rows : List MemoryRecordRow) (x : Decrypted)
      → decrypt x.row.content_ciphertext ≡ some x.content
      → Memᴰ x.row rows
      → Memᴰ x (decrypted_rows decrypt rows)
  unfolding decrypted_rows
  decrypted_rows-mem [] x e m = absurd (Memᴰ.not-nil m)
  decrypted_rows-mem (r ∷ rs) x e (Memᴰ.head same) =
      let e' : decrypt r.content_ciphertext ≡ some x.content = rw same at e in
      rw (decrypted_rows, e') (Memᴰ.head (ap (λ r. record { row = r; content = x.content }) same))
  decrypted_rows-mem (r ∷ rs) x e (Memᴰ.tail m) =
      let rest = decrypted_rows-mem rs x e m in
      elim (Option-cases (decrypt r.content_ciphertext)) [
        | inl n ↦ rw (decrypted_rows, n) rest
        | inr (t, s) ↦ rw (decrypted_rows, s) (Memᴰ.tail rest)
      ]

  IsOwn-decrypted :
      (x : Decrypted)
      → IsOwn decrypt auth table x
      → Memᴰ x (decrypted_rows decrypt (list_all auth table))
  IsOwn-decrypted x o = decrypted_rows-mem (list_all auth table) x o.decrypted (IsOwn-listed x o)

module _ {S : Type 0} where
  total-scored :
      (f : Decrypted → S) (xs : List Decrypted)
      → total (λ s. estimate_tokens s.content) (map (scored_by f) xs)
        ≡ total (λ x. estimate_tokens x.content) xs
  unfolding scored_by
  total-scored f [] = refl
  total-scored f (x ∷ xs) = ap (λ n. estimate_tokens x.content + n) (total-scored f xs)

  -- The memory of a row that was decrypted
  abbrev pub MemoryOf : Decrypted → List (BucketMemory S) → Type 0
  MemoryOf x ms = (m : BucketMemory S) × Memᴰ m ms × (m.id ≡ x.row.id) × (m.content ≡ x.content)

module _ {S : Type 0} ⦃d : Double S⦄ (now : ℕ) where
  -- The dump is everything, in the order of its references: the budget takes nothing away.
  longterm_bucket-dump :
      (found_by : Text → Option (List String)) (query : Text) (rows : List Decrypted)
      → total (λ x. estimate_tokens x.content) (select_where (of_type longterm_types) rows) ≤ 4_800
      → longterm_bucket {S = S} now found_by query rows
        ≡ map bucket_memory (
            map (scored_by (activity now)) (
              sort_by
                (λ a b. ltb b.row.reference_count a.row.reference_count)
                (select_where (of_type longterm_types) rows)))
  unfolding longterm_bucket
  longterm_bucket-dump found_by query rows h =
      let chosen = select_where (of_type longterm_types) rows in
      let sorted = sort_by (λ a b. ltb b.row.reference_count a.row.reference_count) chosen in
      let same =
        total-scored {S = S} (activity now) sorted
        ∙ Permᴰ-total (λ x. estimate_tokens x.content) (sort_by-Permᴰ _ chosen) in
      rw (le→leb _ longterm_budget h) (
        packed_all longterm_budget 0 (map (scored_by (activity now)) sorted)
          (omega (arith, h, same)))

  longterm_bucket-mem :
      (found_by : Text → Option (List String)) (query : Text) (rows : List Decrypted)
      (x : Decrypted)
      → total (λ x. estimate_tokens x.content) (select_where (of_type longterm_types) rows) ≤ 4_800
      → Memᴰ x rows
      → of_type longterm_types x ≡ true
      → MemoryOf {S = S} x (longterm_bucket now found_by query rows)
  unfolding bucket_memory scored_by
  longterm_bucket-mem found_by query rows x h m t =
      let chosen = mem-select_where (of_type longterm_types) rows m t in
      let sorted = Permᴰ-Memᴰ (Permᴰ.symm (sort_by-Permᴰ _ _)) chosen in
      (
        bucket_memory (scored_by (activity now) x),
        rw (longterm_bucket-dump found_by query rows h)
            (Memᴰ.map bucket_memory (Memᴰ.map (scored_by (activity now)) sorted)),
        refl,
        refl,
      )

  -- Where the facts, decisions, lessons and failures of a user are of at most 4800 tokens together,
  -- each of them that can be decrypted is recalled with its whole text, whatever the query is and
  -- whatever the vector search answers.
  pub bucket_recall_dumps :
      (decrypt : String → Option Text) (found_by : Text → Option (List String)) (query : Text)
      (auth : AuthContext) (table : List MemoryRecordRow) (x : Decrypted)
      → total
          (λ y. estimate_tokens y.content)
          (select_where (of_type longterm_types) (decrypted_rows decrypt (list_all auth table)))
        ≤ 4_800
      → IsOwn decrypt auth table x
      → Memᴰ x.row.memory_type ("fact" ∷ "decision" ∷ "lesson" ∷ "failure" ∷ [])
      → MemoryOf {S = S} x (bucket_recall now decrypt found_by query auth table).memories
  unfolding bucket_recall bucket_memories
  bucket_recall_dumps decrypt found_by query auth table x h o t =
      let rows = decrypted_rows decrypt (list_all auth table) in
      let mine = IsOwn-decrypted decrypt auth table x o in
      let (m, here, same, text) =
        longterm_bucket-mem found_by query rows x h mine (mem-some_where _ _ t) in
      (
        m,
        Memᴰ.append_right (preference_bucket now rows)
            (Memᴰ.append_left (shortterm_bucket now rows) here),
        same,
        text,
      )

  Placed-MemoryOf :
      (budget : ℕ) (ms : List (BucketMemory S)) (f : Decrypted → S) (x : Decrypted)
      → Placed budget ms (scored_by f x)
      → MemoryOf {S = S} x ms ⊎ (budget < tokens ms + estimate_tokens x.content)
  unfolding bucket_memory scored_by
  Placed-MemoryOf budget ms f x (inl m) = inl (bucket_memory (scored_by f x), m, refl, refl)
  Placed-MemoryOf budget ms f x (inr lt) = inr lt

  -- Every preference of a user that can be decrypted is recalled with its whole text, for any query,
  -- unless the preferences that are recalled leave less of the 1500 tokens than it has.
  pub bucket_recall_prefers :
      (decrypt : String → Option Text) (found_by : Text → Option (List String)) (query : Text)
      (auth : AuthContext) (table : List MemoryRecordRow) (x : Decrypted)
      → IsOwn decrypt auth table x
      → x.row.memory_type ≡ "preference"
      → MemoryOf {S = S} x (bucket_recall now decrypt found_by query auth table).memories
        ⊎ (1_500
            < tokens {S = S} (preference_bucket now (decrypted_rows decrypt (list_all auth table)))
              + estimate_tokens x.content)
  unfolding bucket_recall bucket_memories preference_bucket
  bucket_recall_prefers decrypt found_by query auth table x o t =
      let rows = decrypted_rows decrypt (list_all auth table) in
      let score = λ (y : Decrypted). d.add (d.of_nat 10) (activity now y) in
      let mine = IsOwn-decrypted decrypt auth table x o in
      let chosen =
        mem-select_where (of_type ("preference" ∷ [])) rows mine
          (mem-some_where _ _ (Memᴰ.head t)) in
      let sorted =
        Memᴰ.map (scored_by score) (Permᴰ-Memᴰ (Permᴰ.symm (sort_by-Permᴰ _ _)) chosen) in
      let placed = All-Memᴰ _ _ (packed-Placed {S = S} 1_500 _) sorted in
      elim (Placed-MemoryOf 1_500 _ score x placed) [
        | inl (m, here, i, c) ↦ inl (m, Memᴰ.append_left _ here, i, c)
        | inr lt ↦ inr lt
      ]
