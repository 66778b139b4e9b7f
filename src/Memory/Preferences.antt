-- ===== src/Memory/Preferences.antt =====
-- The preferences that a saved one supersedes.
use tallei_ai.Common.{
  text_eq_iff, text_eq, String, List, Bool, Option, ℕ, Text, AuthContext, codes, trim, str_eq,
  str_eq_iff, ◌&&◌, ◌||◌, not, &&_split, true, false, some, ◌∷◌, Settled, resolved, rejected, ◌≡◌,
  ◌⊎◌, refl, sym, ap, ◌∙◌, Bool-cases, inl, inr, All, All-map, All-append, some_eq, subst,
}
use tallei_ai.Memory.{MemoryRecordRow}
use tallei_ai.Memory.Repository.{
  create, find_active_by_content_hash, active, sql_eq, mark_superseded_preferences,
}
use tallei_ai.Memory.Classify.{
  MemoryType, preference, is_preference, fact, event, decision, note, lesson, failure, checkpoint,
  collab,
}
use tallei_ai.Memory.Save.{
  SaveMemoryUseCaseInput, SaveAnswers, SaveError, SaveMemoryResult, StoredSummary, type_name,
}
use tallei_ai.Memory.SaveMemory.{save_memory, supersede, new_record, answer, truthy}
use tallei_ai.Memory.Saves.{
  find-none, create-new_row, with_hash, All-update_where_cases, and_no, superseded-active, meets,
  with_note, marked-append,
}
use tallei_ai.Memory.Duplicates.{unless_known, stored_id}

-- An active preference of the user, of a category
abbrev pub competes : AuthContext → Option Text → MemoryRecordRow → Bool
competes auth category r =
    active auth r && (str_eq r.memory_type "preference" && sql_eq r.category category)

not_named : (t u : Text) → text_eq t u ≡ false → some t ≡ some u → ⊥
not_named t u e same = let f : text_eq t u ≡ true = (text_eq_iff t u).1 (some_eq t same) in cc

only_preference :
    (t : MemoryType)
    → some (codes (type_name t)) ≡ some (codes "preference")
    → is_preference t ≡ true
unfolding type_name text_eq
only_preference preference e = refl
only_preference fact e = absurd (not_named (codes "fact") _ refl e)
only_preference event e = absurd (not_named (codes "event") _ refl e)
only_preference decision e = absurd (not_named (codes "decision") _ refl e)
only_preference note e = absurd (not_named (codes "note") _ refl e)
only_preference lesson e = absurd (not_named (codes "lesson") _ refl e)
only_preference failure e = absurd (not_named (codes "failure") _ refl e)
only_preference checkpoint e = absurd (not_named (codes "checkpoint") _ refl e)
only_preference collab e = absurd (not_named (codes "collab") _ refl e)

-- The saved preference is the only one left of its category.
abbrev pub IsOnly : AuthContext → SaveMemoryResult → MemoryRecordRow → Type 0
IsOnly auth r row = (row.id ≡ r.memory_id) ⊎ (competes auth r.summary.category row ≡ false)

and_true : (a b : Bool) → a ≡ true → b ≡ true → (a && b) ≡ true
and_true true true e f = refl
and_true true false e f = cc
and_true false b e f = cc

or_true : (a b : Bool) → b ≡ true → (a || b) ≡ true
or_true true b e = refl
or_true false b e = e

module _ (encrypt hash : Text → String) (i : SaveMemoryUseCaseInput) (a : SaveAnswers)
    (s : StoredSummary) (rows : List MemoryRecordRow) where
  abbrev Left : MemoryRecordRow → Type 0
  Left row = (row.id ≡ a.memory_id) ⊎ (competes i.auth s.category row ≡ false)

  met :
      (row : MemoryRecordRow)
      → with_hash i.auth (hash (trim i.content)) row ≡ false
      → competes i.auth s.category row ≡ true
      → str_eq row.id a.memory_id ≡ false
      → meets encrypt hash i a s rows row ≡ true
  met row unlike t other =
      let (alive, rest) = &&_split (active i.auth row) _ t in
      let (pref, same) =
        &&_split (str_eq row.memory_type "preference") (sql_eq row.category s.category) rest in
      let hash_differs : str_eq row.content_hash (hash (trim i.content)) ≡ false =
        elim (Bool-cases (str_eq row.content_hash (hash (trim i.content)))) [
          | inl e ↦ let both = and_true (active i.auth row) _ alive e in cc
          | inr n ↦ n
        ] in
      and_true (active i.auth row) _ alive (
        and_true (str_eq row.memory_type "preference") _ pref (
          and_true (not (str_eq row.id a.memory_id)) _ (ap not other) (
            and_true (not (str_eq row.content_hash (hash (trim i.content)))) _ (ap not hash_differs)
              (or_true _ _ same))))

  old-Left :
      (row : MemoryRecordRow)
      → with_hash i.auth (hash (trim i.content)) row ≡ false
      → ((meets encrypt hash i a s rows row ≡ true) × Left (with_note encrypt hash i a s rows row))
        ⊎ ((meets encrypt hash i a s rows row ≡ false) × Left row)
  old-Left row unlike = elim (Bool-cases (meets encrypt hash i a s rows row)) [
    | inl t ↦ inl (t, inr (and_no _ _ (superseded-active i.auth a.memory_id row)))
    | inr n ↦ elim (Bool-cases (competes i.auth s.category row)) [
      | inl c ↦ elim (Bool-cases (str_eq row.id a.memory_id)) [
        | inl e ↦ inr (n, inl ((str_eq_iff row.id a.memory_id).0 e))
        | inr d ↦ let hit = met row unlike c d in cc
      ]
      | inr c ↦ inr (n, inr c)
    ]
  ]

  supersede-Left :
      All (λ r. with_hash i.auth (hash (trim i.content)) r ≡ false) rows
      → is_preference s.memory_type ≡ true
      → truthy s.category ≡ true
      → All Left
          (supersede encrypt hash i a s (create i.auth a.now (new_record encrypt hash i a s) rows))
  unfolding supersede mark_superseded_preferences
  supersede-Left unlike pref category =
      rw
        (
          create-new_row encrypt hash i a s rows,
          pref,
          or_true (truthy s.preference_key) _ category,
          marked-append encrypt hash i a s rows,
        )
        (All-append Left _ _
          (All-update_where_cases Left _ _ rows (All-map _ _ rows old-Left unlike)) (inl refl, tt))

result_or : SaveMemoryResult → Settled SaveError SaveMemoryResult → SaveMemoryResult
result_or d (resolved r) = r
result_or d (rejected e) = d

stored_result :
    (r : SaveMemoryResult) → r.deduped ≡ false → stored_id (resolved r) ≡ some r.memory_id
stored_result r e = rw e refl

is_full : (o : Option Text) {c : ℕ} {cs : Text} → o ≡ some (c ∷ cs) → truthy o ≡ true
is_full o e = ap truthy e

-- When a preference of a category has been stored, the user has no other active preference of that
-- category: the others are superseded, whatever their keys.
pub save_memory-IsOnly :
    (encrypt hash : Text → String) (i : SaveMemoryUseCaseInput) (a : SaveAnswers)
    (rows : List MemoryRecordRow) (r : SaveMemoryResult) (c : ℕ) (cs : Text)
    → (save_memory encrypt hash i a rows).0 ≡ resolved r
    → r.deduped ≡ false
    → r.summary.memory_type ≡ some (codes "preference")
    → r.summary.category ≡ some (c ∷ cs)
    → All (IsOnly i.auth r) (save_memory encrypt hash i a rows).1
unfolding save_memory result_or
save_memory-IsOnly encrypt hash i a rows r c cs e stored kind category =
    let known = find_active_by_content_hash i.auth (hash (trim i.content)) rows in
    let (missing, (s, (same, after))) =
      unless_known encrypt hash i a rows known (ap stored_id e ∙ stored_result r stored) in
    let made : r ≡ answer encrypt hash a.memory_id s false =
      ap (result_or r) (sym e ∙ ap (λ saved. saved.0) after) in
    let pref = only_preference s.memory_type (ap (λ q. q.summary.memory_type) (sym made) ∙ kind) in
    let full = is_full s.category (ap (λ q. q.summary.category) (sym made) ∙ category) in
    let left =
      supersede-Left encrypt hash i a s rows (find-none i.auth (hash (trim i.content)) rows missing)
        pref full in
    subst (λ q. All (IsOnly i.auth q) (save_memory encrypt hash i a rows).1) (sym made)
      (subst (All (IsOnly i.auth (answer encrypt hash a.memory_id s false)))
        (sym (ap (λ saved. saved.1) after)) left)
