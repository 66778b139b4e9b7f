-- ===== src/Memory/Cache.antt =====
-- The cache of recalls in the process, of src/services/memory.ts: a map from keys to results, as the
-- list of its entries in the order in which the keys were set.
use tallei_ai.Common.{
  ◌*◌, List, Bool, Option, ℕ, Text, AuthContext, codes, lower, is_space, trim, leb, ltb, ◌==◌, ◌&&◌,
  ◌||◌, not, true, false, none, some, if◌then◌else◌, select_where, delete_where, first_where,
  text_eq, length, map, starts, dedupe, sort_by, join, [], ◌∷◌, ◌++◌, ◌+◌, ◌/◌, ◌%◌,
}

-- `replace(/\s+/g, " ")`; `inside` is whether the last character was a space
unfoldable pub single_spaced : (inside : Bool) → Text → Text
single_spaced inside [] = []
single_spaced inside (c ∷ cs) = elim (is_space c) [
  | true ↦ if inside then single_spaced true cs else b' ' ∷ single_spaced true cs
  | false ↦ c ∷ single_spaced false cs
]

unfoldable pub normalize_recall_query : Text → Text
unfolding single_spaced
normalize_recall_query query = single_spaced false (map lower (trim query))

unfoldable pub cache_scope_key : AuthContext → Text
cache_scope_key auth = codes auth.tenant_id ++ b':' ∷ codes auth.user_id

unfoldable pub text_below : Text → Text → Bool
text_below [] [] = false
text_below [] (d ∷ ds) = true
text_below (c ∷ cs) [] = false
text_below (c ∷ cs) (d ∷ ds) = ltb c d || ((c == d) && text_below cs ds)

abbrev is_blank : Text → Bool
is_blank [] = true
is_blank (c ∷ cs) = false

unfoldable pub normalize_recall_types : List Text → Text
unfolding text_below
normalize_recall_types [] = codes "all"
normalize_recall_types (t ∷ ts) =
    let names = select_where (λ n. not (is_blank n)) (map (λ n. map lower (trim n)) (t ∷ ts)) in
    join (b',' ∷ []) (sort_by text_below (dedupe text_eq names))

-- A number below 100 in decimal
abbrev digits : ℕ → Text
digits n = if ltb n 10 then (b'0' + n) ∷ [] else (b'0' + n / 10) ∷ (b'0' + n % 10) ∷ []

unfoldable pub recall_cache_key :
    AuthContext → (query : Text) → (limit : ℕ) → (types : List Text) → Text
unfolding cache_scope_key normalize_recall_query normalize_recall_types
recall_cache_key auth query limit types =
    cache_scope_key auth
    ++ (b':'
        ∷ (digits limit
            ++ (b':' ∷ (normalize_recall_query query ++ (b':' ∷ normalize_recall_types types)))))

pub record CachedRecall (R : Type 0) : Type 0 where
  pub key : Text
  pub result : R
  pub exp : ℕ

abbrev pub recall_ttl_ms : ℕ
recall_ttl_ms = 10 * 60_000

abbrev pub recall_cache_max_size : ℕ
recall_cache_max_size = 500

module _ {R : Type 0} where
  abbrev pub keyed : Text → CachedRecall R → Bool
  keyed key e = text_eq e.key key

  abbrev pub live :
      ℕ → Text → List (CachedRecall R) → Option (CachedRecall R) → Option R × List (CachedRecall R)
  live now key cache none = (none, cache)
  live now key cache (some e) =
      if leb e.exp now then (none, delete_where (keyed key) cache) else (some e.result, cache)

  -- What is cached, and the cache without it if it is too old
  unfoldable pub get_cached_recall :
      (now : ℕ) → Text → List (CachedRecall R) → Option R × List (CachedRecall R)
  get_cached_recall now key cache = live now key cache (first_where (keyed key) cache)

  -- `Map.set`
  unfoldable pub set_entry : CachedRecall R → List (CachedRecall R) → List (CachedRecall R)
  set_entry e [] = e ∷ []
  set_entry e (x ∷ xs) = let rest = set_entry e xs in if keyed e.key x then e ∷ xs else x ∷ rest

  abbrev pub without_oldest : List (CachedRecall R) → List (CachedRecall R)
  without_oldest [] = []
  without_oldest (x ∷ xs) = xs

  unfoldable pub set_cached_recall :
      (now : ℕ) → Text → R → List (CachedRecall R) → List (CachedRecall R)
  unfolding set_entry
  set_cached_recall now key result cache =
      set_entry (record { key = key; result = result; exp = now + recall_ttl_ms })
        (if leb recall_cache_max_size (length cache) then without_oldest cache else cache)

  unfoldable pub invalidate_recall_cache :
      AuthContext → List (CachedRecall R) → List (CachedRecall R)
  unfolding cache_scope_key
  invalidate_recall_cache auth cache =
      delete_where (λ e. starts (cache_scope_key auth ++ (b':' ∷ [])) e.key) cache
