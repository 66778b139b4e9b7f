-- ===== src/Embedding.antt =====
-- The cache of embeddings, src/infrastructure/cache/embedding-cache.ts. The map of the cache is the list
-- of its entries in the order in which the keys were set, and the map of the requests on their way the
-- list of their keys, which the requests with that text wait on. A vector is a list of a type `V`.
use tallei_ai.Common.{
  not, ◌&&◌, ◌+◌, some_where, none, length, resolved, rejected, [], some, text_eq, ltb, leb, trim,
  ◌*◌, Settled, first_where, ◌++◌, Option, delete_where, true, false, if◌then◌else◌, ◌∷◌, Bool, ℕ,
  Text, List,
}
use tallei_ai.Memory.Cache.{single_spaced}
pub mod Limits
pub mod Sharing
pub mod Tests

pub record CachedEmbedding (V : Type 0) : Type 0 where
  pub key : Text
  pub exp : ℕ
  pub vector : List V

pub record EmbeddingState (V : Type 0) : Type 0 where
  pub embedding_cache : List (CachedEmbedding V)
  pub embedding_in_flight : List Text

-- The vector that is cached, or the wait on a request on its way or on a new one
pub data Embedded (V : Type 0) : Type 0 where
  cached : List V → Embedded V
  joined requested : Embedded V

pub data EmbeddingError (E : Type 0) : Type 0 where
  empty_vector : EmbeddingError E
  provider_failed : E → EmbeddingError E

abbrev pub max_embedding_cache_entries : ℕ
max_embedding_cache_entries = 512

abbrev pub embedding_cache_ttl_ms : (production : Bool) → ℕ
embedding_cache_ttl_ms production = if production then 5 * 60_000 else 60_000

unfoldable pub normalize_embedding_input : Text → Text
normalize_embedding_input t = single_spaced false (trim t)

abbrev no_key : Text → Bool
no_key [] = true
no_key (c ∷ cs) = false

module _ {V : Type 0} where
  unfoldable pub evict_expired_embeddings :
      (now : ℕ) → List (CachedEmbedding V) → List (CachedEmbedding V)
  evict_expired_embeddings now cache = delete_where (λ e. leb e.exp now) cache

  -- The loop ends at an empty key, as `!oldestKey` does.
  unfoldable pub enforce_embedding_cache_limit : List (CachedEmbedding V) → List (CachedEmbedding V)
  enforce_embedding_cache_limit [] = []
  enforce_embedding_cache_limit (e ∷ es) =
      let rest = enforce_embedding_cache_limit es in
      if ltb max_embedding_cache_entries (length (e ∷ es)) && not (no_key e.key)
      then rest
      else e ∷ es

  -- `Map.set`
  unfoldable pub set_embedding :
      CachedEmbedding V → List (CachedEmbedding V) → List (CachedEmbedding V)
  set_embedding e [] = e ∷ []
  set_embedding e (x ∷ xs) =
      let rest = set_embedding e xs in if text_eq e.key x.key then e ∷ xs else x ∷ rest

  abbrev pub unexpired : (now : ℕ) → Option (CachedEmbedding V) → Option (List V)
  unexpired now none = none
  unexpired now (some e) = if ltb now e.exp then some e.vector else none

  abbrev pub request : Text → EmbeddingState V → (known : Bool) → Embedded V × EmbeddingState V
  request key st true = (joined, st)
  request key st false =
      (requested, record st { embedding_in_flight = st.embedding_in_flight ++ (key ∷ []) })

  abbrev pub serve : Text → EmbeddingState V → Option (List V) → Embedded V × EmbeddingState V
  serve key st (some v) = (cached v, st)
  serve key st none = request key st (some_where (text_eq key) st.embedding_in_flight)

  unfoldable pub embed_text : Text → (now : ℕ) → EmbeddingState V → Embedded V × EmbeddingState V
  embed_text t now st =
      let key = normalize_embedding_input t in
      let cache = evict_expired_embeddings now st.embedding_cache in
      serve key (record st { embedding_cache = cache })
        (unexpired now (first_where (λ e. text_eq e.key key) cache))

  abbrev pub landed : Text → EmbeddingState V → EmbeddingState V
  landed key st = record st {
    embedding_in_flight = delete_where (text_eq key) st.embedding_in_flight;
  }

  abbrev pub store :
      {E : Type 0}
      → (production : Bool) → (now : ℕ) → Text
      → List (List V)
      → EmbeddingState V
      → Settled (EmbeddingError E) (List V) × EmbeddingState V
  store production now key [] st = (rejected empty_vector, st)
  store production now key ([] ∷ vs) st = (rejected empty_vector, st)
  store production now key ((x ∷ xs) ∷ vs) st = (
    resolved (x ∷ xs),
    record st {
      embedding_cache = enforce_embedding_cache_limit (
          set_embedding
            (record { key = key; exp = now + embedding_cache_ttl_ms production; vector = x ∷ xs })
            st.embedding_cache);
    },
  )

  abbrev pub settle_embedding :
      {E : Type 0}
      → (production : Bool) → (now : ℕ) → Text
      → Settled E (List (List V))
      → EmbeddingState V
      → Settled (EmbeddingError E) (List V) × EmbeddingState V
  settle_embedding production now key (resolved vectors) st = store production now key vectors st
  settle_embedding production now key (rejected e) st = (rejected (provider_failed e), st)

  -- The answer of the provider, on which all that wait for the text settle
  unfoldable pub embedding_answered :
      {E : Type 0}
      → (production : Bool) → (now : ℕ) → Text
      → Settled E (List (List V))
      → EmbeddingState V
      → Settled (EmbeddingError E) (List V) × EmbeddingState V
  embedding_answered production now key settled st =
      let (result, after) = settle_embedding production now key settled st in
      (result, landed key after)
