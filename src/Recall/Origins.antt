-- ===== src/Recall/Origins.antt =====
-- Where recalled memories come from: what holds of the rows holds of the memories made of them.
use tallei_ai.Common.{
  String, List, Bool, Option, ℕ, Text, true, [], ◌∷◌, map, All, All-both, All-select_where,
  select_where, select_where-All, sort_by, sort_by-Permᴰ, Permᴰ-All, ltb, ◌+◌, ◌≡◌, refl,
  Bool-cases, inl, inr, first_where, str_eq, Option-cases, first_where-All, leb, total,
}
use mathlib.Core.List.Permᴰ
use tallei_ai.Recall.{Double, Decrypted, Scored, BucketMemory, estimate_tokens, longterm_budget}
use tallei_ai.Recall.Buckets.{
  packed, bucket_memory, scored_by, scored_by_age, items_of, of_type, recent, preference_bucket,
  longterm_bucket, shortterm_bucket, recall_first_hybrid, longterm_types,
}

pub All-sort_by {ℓ κ} :
    {A : Type ℓ} (P : A → Type κ) (before : A → A → Bool) (xs : List A)
    → All P xs
    → All P (sort_by before xs)
All-sort_by P before xs h = Permᴰ-All P (Permᴰ.symm (sort_by-Permᴰ before xs)) h

items_of-All :
    (P : Decrypted → Type 0) (rows : List Decrypted) (ids : List String)
    → All P rows
    → All P (items_of rows ids)
unfolding items_of
items_of-All P rows [] h = tt
items_of-All P rows (id ∷ ids) h =
    let rest = items_of-All P rows ids h in
    elim (Option-cases (first_where (λ x. str_eq x.row.id id) rows)) [
      | inl e ↦ rw (items_of, e) rest
      | inr (x, e) ↦
          rw (items_of, e) ((first_where-All P (λ x. str_eq x.row.id id) rows h e).0, rest)
    ]

module _ {S : Type 0} (P : Decrypted → Type 0) where
  -- The memory of an item of which `P` holds.
  abbrev pub Lifted : BucketMemory S → Type 0
  Lifted m = (x : Decrypted) × P x × (m.id ≡ x.row.id) × (m.content ≡ x.content)

  abbrev OfScored : Scored S → Type 0
  OfScored s = P (record { row = s.row; content = s.content })

  packed-Lifted :
      (budget used : ℕ) (xs : List (Scored S))
      → All OfScored xs
      → All Lifted (packed budget used xs)
  unfolding packed bucket_memory
  packed-Lifted budget used [] h = tt
  packed-Lifted budget used (x ∷ xs) (h, hs) =
      elim (Bool-cases (ltb budget (used + estimate_tokens x.content))) [
        | inl t ↦ rw (packed, t) (packed-Lifted budget used xs hs)
        | inr n ↦
            rw (packed, n)
              (
                (record { row = x.row; content = x.content }, h, refl, refl),
                packed-Lifted budget (used + estimate_tokens x.content) xs hs,
              )
      ]

  scored_by-OfScored :
      (f : Decrypted → S) (xs : List Decrypted) → All P xs → All OfScored (map (scored_by f) xs)
  unfolding scored_by
  scored_by-OfScored f [] h = tt
  scored_by-OfScored f (x ∷ xs) (h, hs) = (h, scored_by-OfScored f xs hs)

scored_by_age-OfScored :
    (S : Type 0) ⦃d : Double S⦄ (P : Decrypted → Type 0) (i : ℕ) (xs : List Decrypted)
    → All P xs
    → All (OfScored {S = S} P) (scored_by_age i xs)
unfolding scored_by_age scored_by
scored_by_age-OfScored S P i [] h = tt
scored_by_age-OfScored S P i (x ∷ xs) (h, hs) = (h, scored_by_age-OfScored S P (i + 1) xs hs)

module _ (P : Decrypted → Type 0) where
  abbrev pub Typed : List String → Decrypted → Type 0
  Typed types x = P x × (of_type types x ≡ true)

  chosen :
      (types : List String) (rows : List Decrypted)
      → All P rows
      → All (Typed types) (select_where (of_type types) rows)
  chosen types rows h =
      All-both P (λ x. of_type types x ≡ true) _ (All-select_where (of_type types) P rows h)
        (select_where-All (of_type types) rows)

  abbrev pub TypedRecent : (now : ℕ) → Decrypted → Type 0
  TypedRecent now x = Typed ("event" ∷ "note" ∷ []) x × (recent now x ≡ true)

module _ (S : Type 0) ⦃d : Double S⦄ (P : Decrypted → Type 0) (now : ℕ) where
  pub preference_bucket-Lifted :
      (rows : List Decrypted)
      → All P rows
      → All (Lifted {S = S} (Typed P ("preference" ∷ []))) (preference_bucket now rows)
  unfolding preference_bucket
  preference_bucket-Lifted rows h =
      packed-Lifted _ _ 0 _
        (scored_by-OfScored _ _ _ (All-sort_by _ _ _ (chosen P ("preference" ∷ []) rows h)))

  pub longterm_bucket-Lifted :
      (found_by : Text → Option (List String)) (query : Text) (rows : List Decrypted)
      → All P rows
      → All (Lifted {S = S} (Typed P longterm_types)) (longterm_bucket now found_by query rows)
  unfolding longterm_bucket recall_first_hybrid
  longterm_bucket-Lifted found_by query rows h =
      let some_rows = select_where (of_type longterm_types) rows in
      let typed = chosen P longterm_types rows h in
      elim (Bool-cases (leb (total (λ x. estimate_tokens x.content) some_rows) longterm_budget)) [
        | inl t ↦ rw t (packed-Lifted _ _ 0 _ (scored_by-OfScored _ _ _ (All-sort_by _ _ _ typed)))
        | inr n ↦ rw n (
            packed-Lifted _ _ 0 _
              (All-sort_by _ _ _ (scored_by-OfScored _ _ _ (items_of-All _ some_rows _ typed))))
      ]

  pub shortterm_bucket-Lifted :
      (rows : List Decrypted)
      → All P rows
      → All (Lifted {S = S} (TypedRecent P now)) (shortterm_bucket now rows)
  unfolding shortterm_bucket
  shortterm_bucket-Lifted rows h =
      let typed = chosen P ("event" ∷ "note" ∷ []) rows h in
      let fresh =
        All-both _ (λ x. recent now x ≡ true) _ (All-select_where (recent now) _ _ typed)
          (select_where-All (recent now) _) in
      packed-Lifted _ _ 0 _ (scored_by_age-OfScored S _ 0 _ (All-sort_by _ _ _ fresh))
