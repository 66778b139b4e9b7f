-- ===== src/Memory/Repository.antt =====
-- The statements of src/infrastructure/repositories/memory.repository.ts.
use tallei_ai.Common.{
  ◌+◌, ◌&&◌, ◌||◌, not, none, some, str_eq, true, false, ltb, if◌then◌else◌, List, Option, Bool, ℕ,
  String, AuthContext, Text, codes, text_eq, trim, lower, map, select_where, update_where,
  first_where, first, sort_by, take, drop, some_where, dedupe, length, [], ◌∷◌, ◌++◌, max,
}
use tallei_ai.Memory.{
  text, ListMemoryOptions, Json, Summary, MemoryRecordRow, CreateMemoryRecordInput,
}

abbrev pub or_else : {A : Type 0} → Option A → A → A
or_else none d = d
or_else (some a) d = a

abbrev pub is_null : {A : Type 0} → Option A → Bool
is_null none = true
is_null (some a) = false

-- An SQL equation with a column that may be `NULL`.
abbrev pub sql_eq : Option Text → Option Text → Bool
sql_eq (some a) (some b) = text_eq a b
sql_eq _ _ = false

abbrev is_empty : Text → Bool
is_empty [] = true
is_empty (c ∷ cs) = false

unfoldable pub normalize_types : List String → List Text
normalize_types types =
    dedupe text_eq
      (select_where (λ t. not (is_empty t)) (map (λ s. map lower (trim (codes s))) types))

abbrev pub scoped : AuthContext → MemoryRecordRow → Bool
scoped auth r = str_eq r.tenant_id auth.tenant_id && str_eq r.user_id auth.user_id

abbrev asked_type : List Text → MemoryRecordRow → Bool
asked_type [] r = true
asked_type (t ∷ ts) r = some_where (text_eq (codes r.memory_type)) (t ∷ ts)

unfoldable pub build_list_scope : AuthContext → ListMemoryOptions → MemoryRecordRow → Bool
unfolding normalize_types
build_list_scope auth o r =
    scoped auth r
    && (is_null r.deleted_at
        && ((o.include_superseded || is_null r.superseded_by)
            && (asked_type (normalize_types o.types) r && (not o.pinned_only || r.is_pinned))))

-- `INSERT`; `now` is the default of `created_at`
unfoldable pub create :
    AuthContext → (now : ℕ) → CreateMemoryRecordInput → List MemoryRecordRow → List MemoryRecordRow
create auth now i rows =
    rows
    ++ record {
      id = i.id;
      tenant_id = auth.tenant_id;
      user_id = auth.user_id;
      content_ciphertext = i.content_ciphertext;
      content_hash = i.content_hash;
      platform = i.platform;
      summary_json = i.summary_json;
      qdrant_point_id = i.qdrant_point_id;
      memory_type = or_else i.memory_type "fact";
      category = i.category;
      is_pinned = or_else i.is_pinned false;
      reference_count = or_else i.reference_count 1;
      last_referenced_at = i.last_referenced_at;
      superseded_by = none;
      created_at = now;
      deleted_at = none;
    }
      ∷ []

abbrev pub own : AuthContext → String → MemoryRecordRow → Bool
own auth id r = str_eq r.id id && (scoped auth r && is_null r.deleted_at)

abbrev pub active : AuthContext → MemoryRecordRow → Bool
active auth r = scoped auth r && (is_null r.deleted_at && is_null r.superseded_by)

-- The table after the update, and whether it updated a row.
unfoldable pub update_content_and_summary_scoped :
    AuthContext
    → String
    → (content_ciphertext content_hash : String) → Option Summary
    → List MemoryRecordRow
    → Bool × List MemoryRecordRow
update_content_and_summary_scoped auth id cipher hash summary rows = (
  some_where (own auth id) rows,
  update_where (own auth id)
      (λ r. record r { content_ciphertext = cipher; content_hash = hash; summary_json = summary })
      rows,
)

abbrev newer : MemoryRecordRow → MemoryRecordRow → Bool
newer a b = ltb b.created_at a.created_at

unfoldable pub find_active_by_content_hash :
    AuthContext → String → List MemoryRecordRow → Option MemoryRecordRow
find_active_by_content_hash auth hash rows =
    first (
      take 1 (sort_by newer (select_where (λ r. active auth r && str_eq r.content_hash hash) rows)))

abbrev pub active_at : AuthContext → String → MemoryRecordRow → Bool
active_at auth id r = str_eq r.id id && active auth r

unfoldable pub increment_reference_scoped :
    AuthContext → String → (delta now : ℕ) → List MemoryRecordRow → Bool × List MemoryRecordRow
increment_reference_scoped auth id delta now rows = (
  some_where (active_at auth id) rows,
  update_where (active_at auth id)
      (λ r. record r {
        reference_count = r.reference_count + max delta 1;
        last_referenced_at = some now;
      })
      rows,
)

unfoldable pub touch_referenced_scoped :
    AuthContext → List String → (now : ℕ) → List MemoryRecordRow → List MemoryRecordRow
touch_referenced_scoped auth ids now rows =
    update_where (λ r. active auth r && some_where (str_eq r.id) ids)
      (λ r. record r { last_referenced_at = some now }) rows

-- `last_referenced_at DESC NULLS LAST, created_at DESC`
abbrev later_referenced : Option ℕ → Option ℕ → Bool → Bool
later_referenced none none tie = tie
later_referenced none (some b) tie = false
later_referenced (some a) none tie = true
later_referenced (some a) (some b) tie = ltb b a || (not (ltb a b) && tie)

abbrev listed_before : MemoryRecordRow → MemoryRecordRow → Bool
listed_before a b =
    let by_time = later_referenced a.last_referenced_at b.last_referenced_at (newer a b) in
    if a.is_pinned then (not b.is_pinned || by_time) else (not b.is_pinned && by_time)

abbrev limited : Option ℕ → List MemoryRecordRow → List MemoryRecordRow
limited none rows = rows
limited (some n) rows = take n rows

abbrev skipped : Option ℕ → List MemoryRecordRow → List MemoryRecordRow
skipped none rows = rows
skipped (some n) rows = drop n rows

unfoldable pub list_with_options :
    AuthContext
    → (limit : Option ℕ) → ListMemoryOptions
    → List MemoryRecordRow
    → List MemoryRecordRow
unfolding build_list_scope
list_with_options auth limit o rows =
    limited limit
      (skipped o.offset (sort_by listed_before (select_where (build_list_scope auth o) rows)))

abbrev pub unlisted : ListMemoryOptions
unlisted = record { types = []; pinned_only = false; include_superseded = false; offset = none }

unfoldable pub count_records : AuthContext → ListMemoryOptions → List MemoryRecordRow → ℕ
unfolding build_list_scope
count_records auth o rows = length (select_where (build_list_scope auth o) rows)

-- `listAll`, with the options that its caller gives
unfoldable pub list_all : AuthContext → List MemoryRecordRow → List MemoryRecordRow
unfolding list_with_options
list_all auth rows = list_with_options auth none unlisted rows

unfoldable pub list_preferences :
    AuthContext → (limit : ℕ) → List MemoryRecordRow → List MemoryRecordRow
unfolding list_with_options
list_preferences auth limit rows =
    list_with_options auth (some limit) (record unlisted { types = "preference" ∷ [] }) rows

unfoldable pub list_pinned_preferences : AuthContext → List MemoryRecordRow → List MemoryRecordRow
unfolding list_with_options
list_pinned_preferences auth rows =
    list_with_options auth none (record unlisted { types = "preference" ∷ []; pinned_only = true })
      rows

-- `summary_json->>key`, for the fields that have text
abbrev text_of : Json → Option Text
text_of (text s) = some s
text_of _ = none

unfoldable pub field : String → Summary → Option Text
field key [] = none
field key ((k, v) ∷ rest) = let later = field key rest in if str_eq k key then text_of v else later

abbrev pub field_of : String → Option Summary → Option Text
field_of key none = none
field_of key (some s) = field key s

abbrev other_hash : Option String → String → Bool
other_hash none hash = true
other_hash (some excluded) hash = not (str_eq hash excluded)

abbrev pub superseding :
    AuthContext
    → (by : String) → (key category : Option Text) → (exclude : Option String) → MemoryRecordRow
    → Bool
superseding auth by key category exclude r =
    active auth r
    && (str_eq r.memory_type "preference"
        && (not (str_eq r.id by)
            && (other_hash exclude r.content_hash
                && (sql_eq (field_of "preference_key" r.summary_json) key
                    || sql_eq r.category category))))

-- The table after the update, and the ids of the rows that it updated.
unfoldable pub mark_superseded_preferences :
    AuthContext
    → (by : String) → (key category : Option Text) → (exclude : Option String)
    → List MemoryRecordRow
    → List String × List MemoryRecordRow
mark_superseded_preferences auth by key category exclude rows = (
  map (λ r. r.id) (select_where (superseding auth by key category exclude) rows),
  update_where (superseding auth by key category exclude)
      (λ r. record r { superseded_by = some by }) rows,
)

abbrev readable : AuthContext → Bool → MemoryRecordRow → Bool
readable auth superseded r =
    scoped auth r && (is_null r.deleted_at && (superseded || is_null r.superseded_by))

unfoldable pub get_by_ids :
    AuthContext
    → List String
    → (include_superseded : Bool) → List MemoryRecordRow
    → List MemoryRecordRow
get_by_ids auth ids superseded rows =
    select_where (λ r. readable auth superseded r && some_where (str_eq r.id) ids) rows

unfoldable pub get_by_id_scoped :
    AuthContext
    → String
    → (include_superseded : Bool) → List MemoryRecordRow
    → Option MemoryRecordRow
get_by_id_scoped auth id superseded rows =
    first_where (λ r. readable auth superseded r && str_eq r.id id) rows

abbrev pub deleted_row : ℕ → MemoryRecordRow → MemoryRecordRow
deleted_row now r = record r { deleted_at = some now }

-- The table after the update, and the row as it was updated.
unfoldable pub soft_delete_scoped :
    AuthContext
    → String
    → (now : ℕ) → List MemoryRecordRow
    → Option MemoryRecordRow × List MemoryRecordRow
soft_delete_scoped auth id now rows = (
  first (map (deleted_row now) (select_where (own auth id) rows)),
  update_where (own auth id) (deleted_row now) rows,
)
