-- ===== src/Embedding/Limits.antt =====
-- How many embeddings are cached, and what holds of all of them.
use tallei_ai.Common.{
  refl, inr, true, ◌&&◌, leb, inl, text_eq, false, arith, Bool-cases, suc, ◌≡◌, not, ◌∷◌, ◌≤◌, [],
  delete_where, All, length, ltb, ◌≢◌, ℕ, Text, List,
}
use tallei_ai.Embedding.{
  no_key, max_embedding_cache_entries, evict_expired_embeddings, enforce_embedding_cache_limit,
  set_embedding, CachedEmbedding,
}

named : (k : Text) → k ≢ [] → not (no_key k) ≡ true
named [] h = absurd (h refl)
named (c ∷ cs) h = refl

at_most : (n : ℕ) → ltb max_embedding_cache_entries n ≡ false → n ≤ max_embedding_cache_entries
at_most n e = ground arith

module _ {V : Type 0} where
  pub length-set_embedding :
      (e : CachedEmbedding V) (xs : List (CachedEmbedding V))
      → length (set_embedding e xs) ≤ suc (length xs)
  unfolding set_embedding
  length-set_embedding e [] = omega arith
  length-set_embedding e (x ∷ xs) =
      let rest = length-set_embedding e xs in
      elim (Bool-cases (text_eq e.key x.key)) [
        | inl t ↦ rw t (omega arith)
        | inr n ↦ rw n (omega arith)
      ]

  pub All-set_embedding :
      (P : CachedEmbedding V → Type 0) (e : CachedEmbedding V) (xs : List (CachedEmbedding V))
      → P e
      → All P xs
      → All P (set_embedding e xs)
  unfolding set_embedding
  All-set_embedding P e [] p h = (p, tt)
  All-set_embedding P e (x ∷ xs) p (h, hs) =
      let rest = All-set_embedding P e xs p hs in
      elim (Bool-cases (text_eq e.key x.key)) [ inl t ↦ rw t (p, hs) | inr n ↦ rw n (h, rest) ]

  pub All-enforce :
      (P : CachedEmbedding V → Type 0) (xs : List (CachedEmbedding V))
      → All P xs
      → All P (enforce_embedding_cache_limit xs)
  unfolding enforce_embedding_cache_limit
  All-enforce P [] h = tt
  All-enforce P (x ∷ xs) (h, hs) =
      let rest = All-enforce P xs hs in
      elim (Bool-cases (ltb max_embedding_cache_entries (length (x ∷ xs)) && not (no_key x.key))) [
        | inl t ↦ rw t rest
        | inr n ↦ rw n (h, hs)
      ]

  pub length-enforce :
      (xs : List (CachedEmbedding V))
      → All (λ e. e.key ≢ []) xs
      → length (enforce_embedding_cache_limit xs) ≤ max_embedding_cache_entries
  unfolding enforce_embedding_cache_limit
  length-enforce [] h = omega arith
  length-enforce (x ∷ xs) (h, hs) =
      let rest = length-enforce xs hs in
      elim (Bool-cases (ltb max_embedding_cache_entries (length (x ∷ xs)))) [
        | inl t ↦ rw (t, named x.key h) rest
        | inr n ↦ rw n (at_most (length (x ∷ xs)) n)
      ]

  pub length-evict :
      (now : ℕ) (xs : List (CachedEmbedding V))
      → length (evict_expired_embeddings now xs) ≤ length xs
  unfolding evict_expired_embeddings delete_where
  length-evict now [] = omega arith
  length-evict now (x ∷ xs) =
      let rest = length-evict now xs in
      elim (Bool-cases (leb x.exp now)) [ inl t ↦ rw t (omega arith) | inr n ↦ rw n (omega arith) ]
