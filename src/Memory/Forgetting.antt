-- ===== src/Memory/Forgetting.antt =====
-- What a deletion leaves behind: in the table, and in the cache of the process.
use tallei_ai.Common.{
  map, leb, first, select_where, String, List, Bool, Option, ℕ, Text, AuthContext, codes, str_eq,
  text_eq→eq, starts, &&_split, ◌==◌, ==_iff, true, false, none, some, [], ◌∷◌, ◌++◌, Settled,
  resolved, rejected, ◌≡◌, ◌≢◌, refl, sym, ap, ap₂, ◌∙◌, Bool-cases, inl, inr, All, first_where,
  delete_where, update_where,
}
use tallei_ai.Memory.{MemoryRecordRow}
use tallei_ai.Memory.Repository.{soft_delete_scoped, own, scoped, deleted_row}
use tallei_ai.Memory.Cache.{
  live, CachedRecall, get_cached_recall, invalidate_recall_cache, recall_cache_key, cache_scope_key,
  keyed,
}
use tallei_ai.Memory.Saves.{and_false}
use tallei_ai.Memory.Service.{forgetting, MemoryState, MemoryError, delete_memory, after_delete}

starts-append : (p rest : Text) → starts p (p ++ rest) ≡ true
unfolding starts
starts-append [] rest = refl
starts-append (c ∷ cs) rest = rw ((==_iff c c).1 refl) (starts-append cs rest)

append_assoc : (xs ys zs : Text) → (xs ++ ys) ++ zs ≡ xs ++ (ys ++ zs)
append_assoc [] ys zs = refl
append_assoc (x ∷ xs) ys zs = ap (λ ws. x ∷ ws) (append_assoc xs ys zs)

-- A text without a colon
abbrev pub NoColon : Text → Type 0
NoColon t = All (λ c. (c == b':') ≡ false) t

-- A prefix up to a colon is the same part of the text.
starts_part :
    (a a' r r' : Text)
    → NoColon a
    → NoColon a'
    → starts (a ++ (b':' ∷ r)) (a' ++ (b':' ∷ r')) ≡ true
    → (a ≡ a') × (starts r r' ≡ true)
unfolding starts
starts_part [] [] r r' h h' e = (refl, e)
starts_part [] (c ∷ cs) r r' h (k, ks) e =
    let same = (==_iff b':' c).0 (&&_split _ _ e).0 in
    let bad : (c == b':') ≡ true = (==_iff c b':').1 (sym same) in cc
starts_part (c ∷ cs) [] r r' (k, ks) h e = let bad : (c == b':') ≡ true = (&&_split _ _ e).0 in cc
starts_part (c ∷ cs) (d ∷ ds) r r' (k, ks) (k', ks') e =
    let (same, rest) = &&_split _ _ e in
    let (tail, more) = starts_part cs ds r r' ks ks' rest in
    (ap₂ (λ x xs. x ∷ xs) ((==_iff c d).0 same) tail, more)

module _ {R : Type 0} where
  first_where-deleted :
      (p q : CachedRecall R → Bool) (xs : List (CachedRecall R))
      → ((e : CachedRecall R) → p e ≡ true → q e ≡ true)
      → first_where p (delete_where q xs) ≡ none
  unfolding first_where delete_where
  first_where-deleted p q [] h = refl
  first_where-deleted p q (x ∷ xs) h = elim (Bool-cases (q x)) [
    | inl t ↦ rw t (first_where-deleted p q xs h)
    | inr n ↦ elim (Bool-cases (p x)) [
      | inl hit ↦ let both = h x hit in cc
      | inr miss ↦ rw (n, miss) (first_where-deleted p q xs h)
    ]
  ]

  pub first_where-kept :
      (p q : CachedRecall R → Bool) (xs : List (CachedRecall R))
      → ((e : CachedRecall R) → p e ≡ true → q e ≡ false)
      → first_where p (delete_where q xs) ≡ first_where p xs
  unfolding first_where delete_where
  first_where-kept p q [] h = refl
  first_where-kept p q (x ∷ xs) h = elim (Bool-cases (p x)) [
    | inl hit ↦ rw (h x hit, hit) refl
    | inr miss ↦ elim (Bool-cases (q x)) [
      | inl t ↦ rw (t, miss) (first_where-kept p q xs h)
      | inr n ↦ rw (n, miss) (first_where-kept p q xs h)
    ]
  ]

abbrev prefix : AuthContext → Text
prefix auth = cache_scope_key auth ++ (b':' ∷ [])

own_prefix :
    (auth : AuthContext) (query : Text) (limit : ℕ) (types : List Text)
    → starts (prefix auth) (recall_cache_key auth query limit types) ≡ true
unfolding recall_cache_key
own_prefix auth query limit types =
    ap (starts (prefix auth)) (sym (append_assoc (cache_scope_key auth) (b':' ∷ []) _))
    ∙ starts-append (prefix auth) _

-- The ids of an account have no colon.
abbrev pub IsPlain : AuthContext → Type 0
IsPlain auth = NoColon (codes auth.tenant_id) × NoColon (codes auth.user_id)

other_prefix :
    (auth auth' : AuthContext) (query : Text) (limit : ℕ) (types : List Text)
    → IsPlain auth
    → IsPlain auth'
    → cache_scope_key auth ≢ cache_scope_key auth'
    → starts (prefix auth) (recall_cache_key auth' query limit types) ≡ false
unfolding recall_cache_key cache_scope_key
other_prefix auth auth' query limit types (t, u) (t', u') ne =
    elim (Bool-cases (starts (prefix auth) (recall_cache_key auth' query limit types))) [
      | inl e ↦
          let shape =
            ap₂ starts
              (sym (append_assoc (codes auth.tenant_id) (b':' ∷ codes auth.user_id) (b':' ∷ [])))
              (sym (append_assoc (codes auth'.tenant_id) (b':' ∷ codes auth'.user_id) _)) in
          let (tenant, rest) = starts_part _ _ _ _ t t' (shape ∙ e) in
          let (user, _) = starts_part _ _ _ _ u u' rest in
          absurd (ne (ap₂ (λ a b. a ++ (b':' ∷ b)) tenant user))
      | inr n ↦ n
    ]

null_deleted :
    (auth : AuthContext) (id : String) (now : ℕ) (r : MemoryRecordRow)
    → own auth id (deleted_row now r) ≡ false
null_deleted auth id now r = and_false (str_eq r.id id) (scoped auth r)

cleared :
    (auth : AuthContext) (id : String) (now : ℕ) (rows : List MemoryRecordRow)
    → All (λ r. own auth id r ≡ false) (update_where (own auth id) (deleted_row now) rows)
unfolding update_where
cleared auth id now [] = tt
cleared auth id now (r ∷ rows) =
    let rest = cleared auth id now rows in
    elim (Bool-cases (own auth id r)) [
      | inl e ↦ rw e (null_deleted auth id now r, rest)
      | inr n ↦ rw n (n, rest)
    ]

none-own :
    (auth : AuthContext) (id : String) (now : ℕ) (rows : List MemoryRecordRow)
    → first (map (deleted_row now) (select_where (own auth id) rows)) ≡ none
    → All (λ r. own auth id r ≡ false) rows
unfolding select_where
none-own auth id now [] e = tt
none-own auth id now (r ∷ rows) e = elim (Bool-cases (own auth id r)) [
  | inl t ↦ let bad : some (deleted_row now r) ≡ none = (rw t at e) in cc
  | inr n ↦ (n, none-own auth id now rows (rw n at e))
]

module _ {R : Type 0} where
  -- What is read depends on what is found only.
  pub read_found :
      (now : ℕ) (key : Text) (xs ys : List (CachedRecall R)) (found : Option (CachedRecall R))
      → (live now key xs found).0 ≡ (live now key ys found).0
  read_found now key xs ys none = refl
  read_found now key xs ys (some e) = elim (Bool-cases (leb e.exp now)) [
    | inl t ↦ rw t refl
    | inr n ↦ rw n refl
  ]

module _ {R : Type 0} (auth other : AuthContext) (id : String) (now later : ℕ) (query : Text)
    (limit : ℕ) (types : List Text) where
  abbrev read : AuthContext → MemoryState R → Option R
  read who st = (get_cached_recall later (recall_cache_key who query limit types) st.recall_cache).0

  abbrev pub IsDeletion : MemoryState R → Settled MemoryError (Unit {0}) × MemoryState R → Type 0
  IsDeletion st (resolved u, after) =
      All (λ r. own auth id r ≡ false) after.rows
      × (read auth after ≡ none)
      × (read other after ≡ read other st)
  IsDeletion st (rejected e, after) = All (λ r. own auth id r ≡ false) after.rows × (after ≡ st)

  own_gone :
      (st : MemoryState R) (rows : List MemoryRecordRow)
      → read auth (forgetting auth st rows) ≡ none
  unfolding get_cached_recall invalidate_recall_cache
  own_gone st rows =
      let key = recall_cache_key auth query limit types in
      ap (λ f. (live later key (invalidate_recall_cache auth st.recall_cache) f).0)
        (first_where-deleted (keyed key) (λ e. starts (prefix auth) e.key) st.recall_cache
          (λ e hit.
            ap (starts (prefix auth)) (text_eq→eq e.key key hit)
            ∙ own_prefix auth query limit types))

  other_kept :
      (st : MemoryState R) (rows : List MemoryRecordRow)
      → IsPlain auth
      → IsPlain other
      → cache_scope_key auth ≢ cache_scope_key other
      → read other (forgetting auth st rows) ≡ read other st
  unfolding get_cached_recall invalidate_recall_cache
  other_kept st rows p p' ne =
      let key = recall_cache_key other query limit types in
      ap (λ f. (live later key (invalidate_recall_cache auth st.recall_cache) f).0)
        (first_where-kept (keyed key) (λ e. starts (prefix auth) e.key) st.recall_cache
          (λ e hit.
            ap (starts (prefix auth)) (text_eq→eq e.key key hit)
            ∙ other_prefix auth other query limit types p p' ne))
      ∙ read_found later key _ _ _

  settled :
      (st : MemoryState R) (found : Option MemoryRecordRow)
      → IsPlain auth
      → IsPlain other
      → cache_scope_key auth ≢ cache_scope_key other
      → found ≡ (soft_delete_scoped auth id now st.rows).0
      → IsDeletion st (after_delete auth st (found, (soft_delete_scoped auth id now st.rows).1))
  unfolding soft_delete_scoped
  settled st none p p' ne e = (none-own auth id now st.rows (sym e), refl)
  settled st (some r) p p' ne e =
      let rows = update_where (own auth id) (deleted_row now) st.rows in
      (cleared auth id now st.rows, own_gone st rows, other_kept st rows p p' ne)

  -- For two users with different scopes of the cache, where no id of theirs or of their tenants has a
  -- colon: after a deletion by the first, whether it succeeds or not, every row of this user with that
  -- id is marked as deleted. A deletion that fails changes nothing. After one that succeeds, no recall
  -- of this user is read from the cache of the process, whatever its query, limit and types, and what
  -- the other user reads from it is what it was before.
  pub delete_memory_lem :
      (st : MemoryState R)
      → IsPlain auth
      → IsPlain other
      → cache_scope_key auth ≢ cache_scope_key other
      → IsDeletion st (delete_memory auth id now st)
  unfolding delete_memory
  delete_memory_lem st p p' ne = settled st _ p p' ne refl
