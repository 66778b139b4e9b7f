-- ===== src/Recall/Promises.antt =====
-- What `bucketRecall` promises: the size, the origin and the identity of the memories.
use tallei_ai.Common.{
  leb→le, some_where, String, List, Option, ℕ, Text, AuthContext, true, none, some, [], ◌∷◌, ◌++◌,
  All, All-map, All-append, All-both, All-select_where, select_where, select_where-All, arith, ◌≤◌,
  &&_split, All-mem, ◌+◌, ◌≡◌, ◌⊎◌, refl, Bool-cases, inl, inr, str_eq, str_eq_iff, Option-cases,
  leb, total,
}
use mathlib.Core.List.{Memᴰ}
use mathlib.Core.List.Memᴰ
use tallei_ai.Memory.{MemoryRecordRow}
use tallei_ai.Memory.Repository.{list_all, list_with_options, build_list_scope, unlisted, is_null}
use tallei_ai.Recall.{Double, Decrypted, BucketMemory, estimate_tokens, longterm_budget}
use tallei_ai.Recall.Buckets.{
  longterm_types, of_type, decrypted_rows, bucket_memories, preference_bucket, longterm_bucket,
  shortterm_bucket, recall_first_hybrid,
}
use tallei_ai.Recall.Results.{bucket_recall}
use tallei_ai.Recall.Packing.{tokens, tokens-append, tokens-packed_whole}
use tallei_ai.Recall.Origins.{
  preference_bucket-Lifted, longterm_bucket-Lifted, shortterm_bucket-Lifted, All-sort_by,
}

is_null→none : {A : Type 0} (o : Option A) → is_null o ≡ true → o ≡ none
is_null→none none e = refl
is_null→none (some a) e = cc

pub some_where-mem :
    (s : String) (types : List String) → some_where (str_eq s) types ≡ true → Memᴰ s types
unfolding some_where
some_where-mem s [] e = cc
some_where-mem s (t ∷ ts) e = elim (Bool-cases (str_eq s t)) [
  | inl same ↦ Memᴰ.head ((str_eq_iff s t).0 same)
  | inr n ↦ Memᴰ.tail (some_where-mem s ts (rw n at e))
]

only_first : {s t : String} {ts : List String} → Memᴰ s (t ∷ []) → Memᴰ s (t ∷ ts)
only_first (Memᴰ.head e) = Memᴰ.head e
only_first (Memᴰ.tail m) = absurd (Memᴰ.not-nil m)

module _ (S : Type 0) ⦃d : Double S⦄ (now : ℕ) where
  tokens-preference_bucket :
      (rows : List Decrypted) → tokens {S = S} (preference_bucket now rows) ≤ 1_500
  unfolding preference_bucket
  tokens-preference_bucket rows = search tokens-packed_whole

  tokens-shortterm_bucket :
      (rows : List Decrypted) → tokens {S = S} (shortterm_bucket now rows) ≤ 1_700
  unfolding shortterm_bucket
  tokens-shortterm_bucket rows = search tokens-packed_whole

  tokens-longterm_bucket :
      (found_by : Text → Option (List String)) (query : Text) (rows : List Decrypted)
      → tokens {S = S} (longterm_bucket now found_by query rows) ≤ 4_800
  unfolding longterm_bucket recall_first_hybrid
  tokens-longterm_bucket found_by query rows =
      elim (Bool-cases (
        leb (total (λ x. estimate_tokens x.content) (select_where (of_type longterm_types) rows))
          longterm_budget)) [
            | inl t ↦ rw t (search tokens-packed_whole)
            | inr n ↦ rw n (search tokens-packed_whole)
          ]

-- An active row of the user, with its decrypted text.
pub record IsOwn (decrypt : String → Option Text) (auth : AuthContext)
    (table : List MemoryRecordRow) (x : Decrypted) : Type 0 where
  pub stored : Memᴰ x.row table
  pub tenant : x.row.tenant_id ≡ auth.tenant_id
  pub user : x.row.user_id ≡ auth.user_id
  pub not_deleted : x.row.deleted_at ≡ none
  pub not_superseded : x.row.superseded_by ≡ none
  pub decrypted : decrypt x.row.content_ciphertext ≡ some x.content

module _ (decrypt : String → Option Text) (auth : AuthContext) (table : List MemoryRecordRow) where
  abbrev Listed : MemoryRecordRow → Type 0
  Listed r = Memᴰ r table × (build_list_scope auth unlisted r ≡ true)

  list_all-Listed : All Listed (list_all auth table)
  unfolding list_all list_with_options
  list_all-Listed = All-sort_by _ _ _ (
      All-both _ _ _ (All-select_where _ _ table (All-mem _ table (λ r m. m)))
        (select_where-All _ table))

  Listed-IsOwn :
      (r : MemoryRecordRow) (t : Text)
      → Listed r
      → decrypt r.content_ciphertext ≡ some t
      → IsOwn decrypt auth table (record { row = r; content = t })
  unfolding build_list_scope
  Listed-IsOwn r t (m, e) d =
      let (owner, rest) = &&_split _ _ e in
      let (tenant, user) = &&_split _ _ owner in
      let (alive, rest') = &&_split _ _ rest in
      let (current, _) = &&_split _ _ rest' in
      record {
        stored = m;
        tenant = (str_eq_iff _ _).0 tenant;
        user = (str_eq_iff _ _).0 user;
        not_deleted = is_null→none _ alive;
        not_superseded = is_null→none _ current;
        decrypted = d;
      }

  decrypted_rows-IsOwn :
      (rows : List MemoryRecordRow)
      → All Listed rows
      → All (IsOwn decrypt auth table) (decrypted_rows decrypt rows)
  unfolding decrypted_rows
  decrypted_rows-IsOwn [] h = tt
  decrypted_rows-IsOwn (r ∷ rs) (h, hs) =
      let rest = decrypted_rows-IsOwn rs hs in
      elim (Option-cases (decrypt r.content_ciphertext)) [
        | inl e ↦ rw (decrypted_rows, e) rest
        | inr (t, e) ↦ rw (decrypted_rows, e) (Listed-IsOwn r t h e, rest)
      ]

  -- A memory of a row of its user, of a kind that lasts or recent enough.
  abbrev pub IsRecalled : {S : Type 0} (now : ℕ) → BucketMemory S → Type 0
  IsRecalled now m =
      (x : Decrypted) × IsOwn decrypt auth table x
      × (m.id ≡ x.row.id)
      × (m.content ≡ x.content)
      × (Memᴰ x.row.memory_type ("preference" ∷ "fact" ∷ "decision" ∷ "lesson" ∷ "failure" ∷ [])
          ⊎ (Memᴰ x.row.memory_type ("event" ∷ "note" ∷ [])
              × (now ≤ x.row.created_at + 5_184_000_000)))

  recalled :
      (S : Type 0) ⦃d : Double S⦄ (now : ℕ) (found_by : Text → Option (List String)) (query : Text)
      → All
          (IsRecalled now)
          (bucket_memories {S = S} now decrypt found_by query (list_all auth table))
  unfolding bucket_memories
  recalled S now found_by query =
      let rows = decrypted_rows decrypt (list_all auth table) in
      let own = decrypted_rows-IsOwn (list_all auth table) list_all-Listed in
      let Own = IsOwn decrypt auth table in
      All-append (IsRecalled now) (preference_bucket now rows) _
        (All-map _ (IsRecalled now) (preference_bucket now rows)
          (λ m (x, (o, t), i, c). (x, o, i, c, inl (only_first (some_where-mem _ _ t))))
          (preference_bucket-Lifted S Own now rows own))
        (All-append (IsRecalled now) (longterm_bucket now found_by query rows) _
          (All-map _ (IsRecalled now) (longterm_bucket now found_by query rows)
            (λ m (x, (o, t), i, c). (x, o, i, c, inl (Memᴰ.tail (some_where-mem _ _ t))))
            (longterm_bucket-Lifted S Own now found_by query rows own))
          (All-map _ (IsRecalled now) (shortterm_bucket now rows)
            (λ m (x, ((o, t), r), i, c). (x, o, i, c, inr (some_where-mem _ _ t, leb→le _ _ r)))
            (shortterm_bucket-Lifted S Own now rows own)))

  -- Whatever the vector search answers, or if it fails, each memory that is recalled is of a row of
  -- the table that belongs to the tenant and the user who ask, that is neither deleted nor
  -- superseded, and has its id and its decrypted text; and an event or a note is at most 60 days old.
  pub bucket_recall-IsRecalled :
      (S : Type 0) ⦃d : Double S⦄ (now : ℕ) (found_by : Text → Option (List String)) (query : Text)
      → All (IsRecalled now) (bucket_recall {S = S} now decrypt found_by query auth table).memories
  unfolding bucket_recall
  bucket_recall-IsRecalled S now found_by query = recalled S now found_by query

-- The texts of the memories that are recalled for a query are of at most 8000 tokens together, however
-- many memories the user has, whatever the query is and whatever the vector search answers to it.
pub tokens-bucket_recall :
    (S : Type 0) ⦃d : Double S⦄ (now : ℕ) (decrypt : String → Option Text)
    (found_by : Text → Option (List String)) (query : Text) (auth : AuthContext)
    (table : List MemoryRecordRow)
    → tokens (bucket_recall {S = S} now decrypt found_by query auth table).memories ≤ 8_000
unfolding bucket_recall bucket_memories
tokens-bucket_recall S now decrypt found_by query auth table =
    let rows = decrypted_rows decrypt (list_all auth table) in
    let pref : List (BucketMemory S) = preference_bucket now rows in
    let long : List (BucketMemory S) = longterm_bucket now found_by query rows in
    let short : List (BucketMemory S) = shortterm_bucket now rows in
    let bound : tokens (pref ++ (long ++ short)) ≤ 8_000 = omega (
      arith,
      tokens-append pref (long ++ short),
      tokens-append long short,
      tokens-preference_bucket S now rows,
      tokens-longterm_bucket S now found_by query rows,
      tokens-shortterm_bucket S now rows,
    ) in
    bound
