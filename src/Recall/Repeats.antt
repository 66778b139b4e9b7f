-- ===== src/Recall/Repeats.antt =====
-- No memory is recalled twice.
use tallei_ai.Common.{
  subst, String, List, Bool, ℕ, true, false, [], ◌∷◌, map, All, Distinct, sort_by, sort_by-Permᴰ,
  Permᴰ-Distinct, ltb, dedupe, delete_where, All-delete_where, first_where, first_where-All,
  All-mem, ◌+◌, ◌≡◌, ◌≢◌, sym, Bool-cases, inl, inr, str_eq, str_eq_iff, Option-cases,
}
use mathlib.Core.List.Permᴰ
use tallei_ai.Recall.{Decrypted, Scored, estimate_tokens}
use tallei_ai.Recall.Buckets.{bucket_memory, scored_by, packed, items_of}

pub sort_by-Distinct {ℓ κ} :
    {A : Type ℓ} {K : Type κ} (key : A → K) (before : A → A → Bool) (xs : List A)
    → Distinct key xs
    → Distinct key (sort_by before xs)
sort_by-Distinct key before xs h = Permᴰ-Distinct key (Permᴰ.symm (sort_by-Permᴰ before xs)) h

differ : (s : String) (ts : List String) → All (λ t. str_eq s t ≡ false) ts → All (λ t. t ≢ s) ts
differ s [] h = tt
differ s (t ∷ ts) (h, hs) =
    ((λ e. let same : str_eq s t ≡ true = (str_eq_iff s t).1 (sym e) in cc), differ s ts hs)

delete_where-All {ℓ} :
    {A : Type ℓ} (p : A → Bool) (xs : List A) → All (λ x. p x ≡ false) (delete_where p xs)
unfolding delete_where
delete_where-All p [] = tt
delete_where-All p (x ∷ xs) = elim (Bool-cases (p x)) [
  | inl t ↦ rw t (delete_where-All p xs)
  | inr n ↦ rw n (n, delete_where-All p xs)
]

delete_where-Distinct {ℓ κ} :
    {A : Type ℓ} {K : Type κ} (key : A → K) (p : A → Bool) (xs : List A)
    → Distinct key xs
    → Distinct key (delete_where p xs)
unfolding delete_where
delete_where-Distinct key p [] h = tt
delete_where-Distinct key p (x ∷ xs) (h, hs) =
    let rest = delete_where-Distinct key p xs hs in
    elim (Bool-cases (p x)) [
      | inl t ↦ rw t rest
      | inr n ↦ rw n (All-delete_where (λ y. key y ≢ key x) p xs h, rest)
    ]

pub dedupe-Distinct : (ss : List String) → Distinct (λ s. s) (dedupe str_eq ss)
unfolding dedupe
dedupe-Distinct [] = tt
dedupe-Distinct (s ∷ ss) = (
  differ s _ (delete_where-All (str_eq s) (dedupe str_eq ss)),
  delete_where-Distinct (λ t. t) (str_eq s) _ (dedupe-Distinct ss),
)

abbrev pub row_id : Decrypted → String
row_id x = x.row.id

items_of-ids :
    (P : String → Type 0) (rows : List Decrypted) (ids : List String)
    → All P ids
    → All (λ x. P (row_id x)) (items_of rows ids)
unfolding items_of
items_of-ids P rows [] h = tt
items_of-ids P rows (id ∷ ids) (h, hs) =
    let rest = items_of-ids P rows ids hs in
    elim (Option-cases (first_where (λ x. str_eq x.row.id id) rows)) [
      | inl e ↦ rw (items_of, e) rest
      | inr (x, e) ↦
          let found =
            first_where-All (λ _. Unit {0}) (λ x. str_eq x.row.id id) rows
              (All-mem _ rows (λ _ _. tt)) e in
          rw (items_of, e) (subst P (sym ((str_eq_iff x.row.id id).0 found.1)) h, rest)
    ]

pub items_of-Distinct :
    (rows : List Decrypted) (ids : List String)
    → Distinct (λ s. s) ids
    → Distinct row_id (items_of rows ids)
unfolding items_of
items_of-Distinct rows [] h = tt
items_of-Distinct rows (id ∷ ids) (h, hs) =
    let rest = items_of-Distinct rows ids hs in
    elim (Option-cases (first_where (λ x. str_eq x.row.id id) rows)) [
      | inl e ↦ rw (items_of, e) rest
      | inr (x, e) ↦
          let found =
            first_where-All (λ _. Unit {0}) (λ x. str_eq x.row.id id) rows
              (All-mem _ rows (λ _ _. tt)) e in
          let same : x.row.id ≡ id = (str_eq_iff x.row.id id).0 found.1 in
          rw (items_of, e)
            (
              subst (λ k. All (λ y. row_id y ≢ k) (items_of rows ids)) (sym same)
                  (items_of-ids (λ k. k ≢ id) rows ids h),
              rest,
            )
    ]

module _ {S : Type 0} where
  pub scored_by-ids :
      (P : String → Type 0) (f : Decrypted → S) (xs : List Decrypted)
      → All (λ x. P (row_id x)) xs
      → All (λ s. P s.row.id) (map (scored_by f) xs)
  unfolding scored_by
  scored_by-ids P f [] h = tt
  scored_by-ids P f (x ∷ xs) (h, hs) = (h, scored_by-ids P f xs hs)

  pub scored_by-Distinct :
      (f : Decrypted → S) (xs : List Decrypted)
      → Distinct row_id xs
      → Distinct (λ s. s.row.id) (map (scored_by f) xs)
  unfolding scored_by
  scored_by-Distinct f [] h = tt
  scored_by-Distinct f (x ∷ xs) (h, hs) =
      (scored_by-ids (λ k. k ≢ x.row.id) f xs h, scored_by-Distinct f xs hs)

  packed-ids :
      (P : String → Type 0) (budget used : ℕ) (xs : List (Scored S))
      → All (λ s. P s.row.id) xs
      → All (λ m. P m.id) (packed budget used xs)
  unfolding packed bucket_memory
  packed-ids P budget used [] h = tt
  packed-ids P budget used (x ∷ xs) (h, hs) =
      elim (Bool-cases (ltb budget (used + estimate_tokens x.content))) [
        | inl t ↦ rw (packed, t) (packed-ids P budget used xs hs)
        | inr n ↦ rw (packed, n) (h, packed-ids P budget (used + estimate_tokens x.content) xs hs)
      ]

  pub packed-Distinct :
      (budget used : ℕ) (xs : List (Scored S))
      → Distinct (λ s. s.row.id) xs
      → Distinct (λ m. m.id) (packed budget used xs)
  unfolding packed bucket_memory
  packed-Distinct budget used [] h = tt
  packed-Distinct budget used (x ∷ xs) (h, hs) =
      elim (Bool-cases (ltb budget (used + estimate_tokens x.content))) [
        | inl t ↦ rw (packed, t) (packed-Distinct budget used xs hs)
        | inr n ↦
            let more = used + estimate_tokens x.content in
            rw (packed, n)
              (packed-ids (λ k. k ≢ x.row.id) budget more xs h, packed-Distinct budget more xs hs)
      ]
