-- ===== src/Memory/Saves.antt =====
-- What a save does to the table: duplicates, the quota, and preferences.
use tallei_ai.Common.{
  All-mem, String, List, Bool, Option, Text, AuthContext, trim, str_eq, str_eq_iff, ◌&&◌, ◌||◌, not,
  true, false, none, some, if◌then◌else◌, take, first, [], ◌∷◌, ◌++◌, ◌≡◌, ◌⊎◌, inl, inr, refl, ap,
  ◌∙◌, Bool-cases, All, All-map, select_where, update_where, sort_by, sort_by-Permᴰ,
  mem-select_where, Permᴰ-Memᴰ, subst,
}
use mathlib.Core.List.{Memᴰ}
use mathlib.Core.List.Memᴰ
use mathlib.Core.List.Permᴰ
use tallei_ai.Memory.{MemoryRecordRow}
use tallei_ai.Memory.Repository.{
  is_null, scoped, create, find_active_by_content_hash, mark_superseded_preferences, active,
  superseding,
}
use tallei_ai.Memory.Save.{type_name, to_json, StoredSummary, SaveAnswers, SaveMemoryUseCaseInput}
use tallei_ai.Memory.SaveMemory.{truthy, supersede, new_record}
use tallei_ai.Memory.Classify.{is_preference}

module _ {ℓ} {A : Type ℓ} where
  pub select_where-append :
      (p : A → Bool) (xs ys : List A)
      → select_where p (xs ++ ys) ≡ select_where p xs ++ select_where p ys
  unfolding select_where
  select_where-append p [] ys = refl
  select_where-append p (x ∷ xs) ys = elim (Bool-cases (p x)) [
    | inl t ↦ rw t (ap (λ zs. x ∷ zs) (select_where-append p xs ys))
    | inr n ↦ rw n (select_where-append p xs ys)
  ]

  pub select_where_none :
      (p : A → Bool) (xs : List A) → All (λ x. p x ≡ false) xs → select_where p xs ≡ []
  unfolding select_where
  select_where_none p [] h = refl
  select_where_none p (x ∷ xs) (h, hs) = rw h (select_where_none p xs hs)

  pub update_where-append :
      (p : A → Bool) (f : A → A) (xs ys : List A)
      → update_where p f (xs ++ ys) ≡ update_where p f xs ++ update_where p f ys
  unfolding update_where
  update_where-append p f [] ys = refl
  update_where-append p f (x ∷ xs) ys =
      ap (λ zs. (if p x then f x else x) ∷ zs) (update_where-append p f xs ys)

  -- What holds after an update, from what holds of the rows that it meets and of the others
  pub All-update_where_cases {κ} :
      (P : A → Type κ) (p : A → Bool) (f : A → A) (xs : List A)
      → All (λ x. ((p x ≡ true) × P (f x)) ⊎ ((p x ≡ false) × P x)) xs
      → All P (update_where p f xs)
  unfolding update_where
  All-update_where_cases P p f [] h = tt
  All-update_where_cases P p f (x ∷ xs) (inl (t, h), hs) =
      rw t (h, All-update_where_cases P p f xs hs)
  All-update_where_cases P p f (x ∷ xs) (inr (n, h), hs) =
      rw n (h, All-update_where_cases P p f xs hs)

  pub update_where_none :
      (p : A → Bool) (f : A → A) (xs : List A)
      → All (λ x. p x ≡ false) xs
      → update_where p f xs ≡ xs
  unfolding update_where
  update_where_none p f [] h = refl
  update_where_none p f (x ∷ xs) (h, hs) = rw h (ap (λ zs. x ∷ zs) (update_where_none p f xs hs))

  first-take-none : (xs : List A) → first (take 1 xs) ≡ none → xs ≡ []
  unfolding take
  first-take-none [] e = refl
  first-take-none (x ∷ xs) e = cc

abbrev pub with_hash : AuthContext → String → MemoryRecordRow → Bool
with_hash auth h r = active auth r && str_eq r.content_hash h

All-of_none {ℓ} :
    {A : Type ℓ} (p : A → Bool) (xs : List A) → select_where p xs ≡ [] → All (λ x. p x ≡ false) xs
unfolding select_where
All-of_none p [] e = tt
All-of_none p (x ∷ xs) e = elim (Bool-cases (p x)) [
  | inl t ↦ let bad : x ∷ select_where p xs ≡ [] = rw t at e in cc
  | inr n ↦ (n, All-of_none p xs (rw n at e))
]

pub find-none :
    (auth : AuthContext) (h : String) (rows : List MemoryRecordRow)
    → find_active_by_content_hash auth h rows ≡ none
    → All (λ r. with_hash auth h r ≡ false) rows
unfolding find_active_by_content_hash
find-none auth h rows e =
    let gone = first-take-none _ e in
    All-mem (λ r. with_hash auth h r ≡ false) rows
      (λ r m. elim (Bool-cases (with_hash auth h r)) [
        | inl t ↦
            let here = mem-select_where (with_hash auth h) rows m t in
            let there = Permᴰ-Memᴰ (Permᴰ.symm (sort_by-Permᴰ _ _)) here in
            absurd (Memᴰ.not-nil (subst (λ ys. Memᴰ r ys) gone there))
        | inr n ↦ n
      ])

find-one :
    (auth : AuthContext) (h : String) (rows : List MemoryRecordRow) (r : MemoryRecordRow)
    → select_where (with_hash auth h) rows ≡ r ∷ []
    → find_active_by_content_hash auth h rows ≡ some r
unfolding find_active_by_content_hash take sort_by
find-one auth h rows r e = rw e refl

pub and_false : (a b : Bool) → (a && (b && false)) ≡ false
and_false true true = refl
and_false true false = refl
and_false false b = refl

pub and_no : (a b : Bool) → a ≡ false → (a && b) ≡ false
and_no true b e = cc
and_no false b e = refl

third_false : (a b c d : Bool) → c ≡ false → (a && (b && (c && d))) ≡ false
third_false a b true d e = cc
third_false true true false d e = refl
third_false true false false d e = refl
third_false false b false d e = refl

pub superseded-active :
    (auth : AuthContext) (by : String) (r : MemoryRecordRow)
    → active auth (record r { superseded_by = some by }) ≡ false
superseded-active auth by r = and_false (scoped auth r) (is_null r.deleted_at)

not_itself :
    (auth : AuthContext) (by : String) (key category : Option Text) (h : Option String)
    (r : MemoryRecordRow)
    → r.id ≡ by
    → superseding auth by key category h r ≡ false
not_itself auth by key category h r same =
    third_false _ _ (not (str_eq r.id by)) _ (rw ((str_eq_iff r.id by).1 same) refl)

module _ (encrypt hash : Text → String) (i : SaveMemoryUseCaseInput) (a : SaveAnswers)
    (s : StoredSummary) (rows : List MemoryRecordRow) where
  abbrev pub h : String
  h = hash (trim i.content)

  abbrev pub new_row : MemoryRecordRow
  new_row = record {
    id = a.memory_id;
    tenant_id = i.auth.tenant_id;
    user_id = i.auth.user_id;
    content_ciphertext = encrypt (trim i.content);
    content_hash = hash (trim i.content);
    platform = i.platform;
    summary_json = some (to_json s);
    qdrant_point_id = a.memory_id;
    memory_type = type_name s.memory_type;
    category = s.category;
    is_pinned = s.is_pinned;
    reference_count = 1;
    last_referenced_at = none;
    superseded_by = none;
    created_at = a.now;
    deleted_at = none;
  }

  pub create-new_row :
      create i.auth a.now (new_record encrypt hash i a s) rows ≡ rows ++ new_row ∷ []
  unfolding create
  create-new_row = refl

  new_row-with_hash : with_hash i.auth h new_row ≡ true
  new_row-with_hash =
      rw
        (
          (str_eq_iff i.auth.tenant_id i.auth.tenant_id).1 refl,
          (str_eq_iff i.auth.user_id i.auth.user_id).1 refl,
          (str_eq_iff h h).1 refl,
        )
        refl

  abbrev pub meets : MemoryRecordRow → Bool
  meets = superseding i.auth a.memory_id s.preference_key s.category (some h)

  abbrev pub with_note : MemoryRecordRow → MemoryRecordRow
  with_note r = record r { superseded_by = some a.memory_id }

  pub marked-append :
      update_where meets with_note (rows ++ new_row ∷ [])
      ≡ update_where meets with_note rows ++ new_row ∷ []
  unfolding update_where
  marked-append =
      update_where-append meets with_note rows (new_row ∷ [])
      ∙ ap
          (λ b.
            update_where meets with_note rows ++ (if b then with_note new_row else new_row) ∷ [])
          (not_itself i.auth a.memory_id s.preference_key s.category (some h) new_row refl)

  only_new :
      (ys : List MemoryRecordRow)
      → All (λ r. with_hash i.auth h r ≡ false) ys
      → find_active_by_content_hash i.auth h (ys ++ new_row ∷ []) ≡ some new_row
  unfolding select_where
  only_new ys none_there = find-one i.auth h (ys ++ new_row ∷ []) new_row (
      select_where-append (with_hash i.auth h) ys (new_row ∷ [])
      ∙ ap (λ zs. zs ++ select_where (with_hash i.auth h) (new_row ∷ []))
          (select_where_none _ ys none_there)
      ∙ ap (λ b. if b then new_row ∷ [] else []) new_row-with_hash)

  marked-with_hash :
      All (λ r. with_hash i.auth h r ≡ false) rows
      → All (λ r. with_hash i.auth h r ≡ false) (update_where meets with_note rows)
  marked-with_hash none_there =
      All-update_where_cases (λ r. with_hash i.auth h r ≡ false) meets with_note rows
        (All-map (λ r. with_hash i.auth h r ≡ false) _ rows
          (λ r n. elim (Bool-cases (meets r)) [
            | inl t ↦ inl (t, and_no _ _ (superseded-active i.auth a.memory_id r))
            | inr f ↦ inr (f, n)
          ])
          none_there)

  pub supersede-found :
      All (λ r. with_hash i.auth h r ≡ false) rows
      → find_active_by_content_hash i.auth h (supersede encrypt hash i a s (rows ++ new_row ∷ []))
        ≡ some new_row
  unfolding supersede mark_superseded_preferences
  supersede-found none_there =
      elim (Bool-cases
        (is_preference s.memory_type && (truthy s.preference_key || truthy s.category))) [
          | inl t ↦ rw (t, marked-append) (only_new _ (marked-with_hash none_there))
          | inr n ↦ rw n (only_new rows none_there)
        ]
