-- ===== src/Embedding/Sharing.antt =====
-- What holds of the cache and of the requests on their way, whatever runs between them.
use tallei_ai.Common.{
  All-map, leb, ◌+◌, Without-Distinct, All-delete_where, append-Distinct, arith, Option, refl, none,
  subst, ◌∙◌, ap, some_eq, inr, text_eq→eq, ltb, true, Without-All, sym, ◌≤◌, inl, some, length,
  rejected, text_eq_refl, Bool-cases, ◌++◌, Bool, resolved, false, Distinct, ◌∷◌, first_where, ◌≡◌,
  ◌≢◌, [], Settled, ℕ, text_eq, Without, All, Text, some_where, delete_where, List,
}
use tallei_ai.Embedding.{
  embedding_cache_ttl_ms, serve, settle_embedding, landed, evict_expired_embeddings, request,
  max_embedding_cache_entries, joined, requested, embedding_answered, normalize_embedding_input,
  unexpired, cached, embed_text, Embedded, EmbeddingState, CachedEmbedding,
}
use tallei_ai.Embedding.Limits.{All-enforce, length-enforce, length-evict, All-set_embedding}

delete_others : (k : Text) (xs : List Text) → All (λ y. y ≢ k) xs → delete_where (text_eq k) xs ≡ xs
unfolding delete_where
delete_others k [] h = refl
delete_others k (x ∷ xs) (h, hs) = elim (Bool-cases (text_eq k x)) [
  | inl t ↦ absurd (h (sym (text_eq→eq k x t)))
  | inr n ↦ rw n (ap (λ ys. x ∷ ys) (delete_others k xs hs))
]

cons-nil {ℓ} : {A : Type ℓ} {x : A} {xs : List A} → (x ∷ xs) ≢ []
cons-nil e = cc

-- The requests on their way without the one that has landed
delete-Without :
    {k : Text} {xs ys : List Text}
    → Without k xs ys
    → Distinct (λ t. t) xs
    → delete_where (text_eq k) xs ≡ ys
unfolding delete_where
delete-Without {k} (Without.here {xs}) (h, hs) = rw (text_eq_refl k) (delete_others k xs h)
delete-Without {k} (Without.there {y} {xs} {ys} w) (h, hs) =
    let rest = delete-Without w hs in
    elim (Bool-cases (text_eq k y)) [
      | inl t ↦ absurd ((Without-All (λ z. z ≢ y) w h).0 (text_eq→eq k y t))
      | inr n ↦ rw n (ap (λ zs. y ∷ zs) rest)
    ]

absent : (k : Text) (xs : List Text) → some_where (text_eq k) xs ≡ false → All (λ y. y ≢ k) xs
unfolding some_where
absent k [] e = tt
absent k (x ∷ xs) e = elim (Bool-cases (text_eq k x)) [
  | inl t ↦ let bad : true ≡ false = (rw t at e) in cc
  | inr n ↦ (
    (λ same. let f : false ≡ true = sym n ∙ ap (text_eq k) same ∙ text_eq_refl k in cc),
    absent k xs (rw n at e),
  )
]

-- The process, and the requests that the provider has yet to answer
pub record Embeddings (V : Type 0) : Type 0 where
  pub state : EmbeddingState V
  pub calls : List Text

module _ {V : Type 0} (Answers : Text → List V → Type 0) where
  abbrev calls_after : Embedded V → Text → List Text → List Text
  calls_after requested key calls = calls ++ (key ∷ [])
  calls_after joined key calls = calls
  calls_after (cached v) key calls = calls

  abbrev pub asked : Text → ℕ → Embeddings V → Embeddings V
  asked t now s =
      let (outcome, after) = embed_text t now s.state in
      record { state = after; calls = calls_after outcome (normalize_embedding_input t) s.calls }

  -- The vectors of an answer are ones that the provider has for the text.
  abbrev pub IsAnswer : {E : Type 0} → Text → Settled E (List (List V)) → Type 0
  IsAnswer key (resolved vs) = All (Answers key) vs
  IsAnswer key (rejected e) = Unit

  pub data Step : Embeddings V → Embeddings V → Type 1 where
    asks : {s : Embeddings V} (t : Text) (now : ℕ) → Step s (asked t now s)
    answers :
        {s : Embeddings V} {E : Type 0} (production : Bool) (now : ℕ) (key : Text)
        (settled : Settled E (List (List V))) {calls : List Text}
        → Without key s.calls calls
        → IsAnswer key settled
        → Step s (record {
          state = (embedding_answered production now key settled s.state).1;
          calls = calls;
        })

  pub data Run : Embeddings V → Type 1 where
    begins :
        Run
          (record { state = record { embedding_cache = []; embedding_in_flight = [] }; calls = [] })
    then : {s s' : Embeddings V} → Run s → Step s s' → Run s'

  abbrev Kept : CachedEmbedding V → Type 0
  Kept e = (e.vector ≢ []) × Answers e.key e.vector

  abbrev pub IsSound : EmbeddingState V → List Text → Type 0
  IsSound st calls =
      (calls ≡ st.embedding_in_flight)
      × Distinct (λ t. t) calls
      × (length st.embedding_cache ≤ max_embedding_cache_entries)
      × All Kept st.embedding_cache

  abbrev pub IsServed : Text → Embedded V → Type 0
  IsServed key (cached v) = (v ≢ []) × Answers key v
  IsServed key joined = Unit
  IsServed key requested = Unit

  served-Kept :
      (key : Text) (now : ℕ) (cache : List (CachedEmbedding V)) {v : List V}
      → All Kept cache
      → unexpired now (first_where (λ e. text_eq e.key key) cache) ≡ some v
      → (v ≢ []) × Answers key v
  unfolding first_where
  served-Kept key now [] h e = cc
  served-Kept key now (x ∷ xs) {v} ((ne, ok), hs) e = elim (Bool-cases (text_eq x.key key)) [
    | inl t ↦ elim (Bool-cases (ltb now x.exp)) [
      | inl live ↦
          let same : x.vector ≡ v = some_eq x.vector (rw (t, live) at e) in
          rw (← same) (ne, subst (λ k. Answers k x.vector) (text_eq→eq x.key key t) ok)
      | inr dead ↦ let bad : none ≡ some v = (rw (t, dead) at e) in cc
    ]
    | inr n ↦ served-Kept key now xs hs (rw n at e)
  ]

  request-IsSound :
      (key : Text) (st : EmbeddingState V) (calls : List Text)
      → IsSound st calls
      → (known : Bool) → some_where (text_eq key) st.embedding_in_flight ≡ known
      → IsSound (request key st known).1 (calls_after (request key st known).0 key calls)
        × IsServed key (request key st known).0
  request-IsSound key st calls sound true e = (sound, tt)
  request-IsSound key st calls (same, distinct, bound, kept) false e =
      let away : All (λ y. y ≢ key) calls =
        subst (All (λ y. y ≢ key)) (sym same) (absent key st.embedding_in_flight e) in
      (
        (
          ap (λ ks. ks ++ (key ∷ [])) same,
          append-Distinct (λ t. t) calls key distinct away,
          bound,
          kept,
        ),
        tt,
      )

  serve-IsSound :
      (key : Text) (st : EmbeddingState V) (calls : List Text) (found : Option (List V))
      → IsSound st calls
      → ((v : List V) → found ≡ some v → (v ≢ []) × Answers key v)
      → IsSound (serve key st found).1 (calls_after (serve key st found).0 key calls)
        × IsServed key (serve key st found).0
  serve-IsSound key st calls (some v) sound good = (sound, good v refl)
  serve-IsSound key st calls none sound good = request-IsSound key st calls sound _ refl

  asked-IsSound :
      (t : Text) (now : ℕ) (s : Embeddings V)
      → IsSound s.state s.calls
      → IsSound (asked t now s).state (asked t now s).calls
        × IsServed (normalize_embedding_input t) (embed_text t now s.state).0
  unfolding embed_text evict_expired_embeddings
  asked-IsSound t now s (same, distinct, bound, kept) =
      let cache = evict_expired_embeddings now s.state.embedding_cache in
      let fresh : All Kept cache =
        All-delete_where Kept (λ e. leb e.exp now) s.state.embedding_cache kept in
      let shorter = length-evict now s.state.embedding_cache in
      serve-IsSound (normalize_embedding_input t) (record s.state { embedding_cache = cache })
        s.calls _ (same, distinct, omega (arith, shorter, bound), fresh)
        (λ v e. served-Kept (normalize_embedding_input t) now cache fresh e)

  landed-IsSound :
      (key : Text) (st : EmbeddingState V) {calls rest : List Text}
      → IsSound st calls
      → Without key calls rest
      → IsSound (landed key st) rest
  landed-IsSound key st {calls} (same, distinct, bound, kept) w = (
    sym (ap (delete_where (text_eq key)) (sym same) ∙ delete-Without w distinct),
    (Without-Distinct (λ t. t) w distinct).1,
    bound,
    kept,
  )

  module _ (refuses : (v : List V) → ¬ Answers [] v) where
    settle-IsSound :
        {E : Type 0} (production : Bool) (now : ℕ) (key : Text)
        (settled : Settled E (List (List V))) (st : EmbeddingState V) (calls : List Text)
        → IsAnswer key settled
        → IsSound st calls
        → IsSound (settle_embedding production now key settled st).1 calls
    settle-IsSound production now key (rejected e) st calls ok sound = sound
    settle-IsSound production now key (resolved []) st calls ok sound = sound
    settle-IsSound production now key (resolved ([] ∷ vs)) st calls ok sound = sound
    settle-IsSound production now key (resolved ((x ∷ xs) ∷ vs)) st calls (ok, oks)
          (same, distinct, bound, kept) =
        let e : CachedEmbedding V = record {
          key = key;
          exp = now + embedding_cache_ttl_ms production;
          vector = x ∷ xs;
        } in
        let all = All-set_embedding Kept e st.embedding_cache (cons-nil, ok) kept in
        (
          same,
          distinct,
          length-enforce _ (
              All-map Kept (λ c. c.key ≢ []) _
                (λ c (ne, answered) k.
                  refuses c.vector (subst (λ t. Answers t c.vector) k answered))
                all),
          All-enforce Kept _ all,
        )

    Run-IsSound : {s : Embeddings V} → Run s → IsSound s.state s.calls
    unfolding embedding_answered
    Run-IsSound Run.begins = (refl, tt, omega arith, tt)
    Run-IsSound (Run.then {s = s} run (Step.asks t now)) =
        (asked-IsSound t now s (Run-IsSound run)).0
    Run-IsSound (Run.then {s = s} run (Step.answers production now key settled w ok)) =
        landed-IsSound key _
          (settle-IsSound production now key settled s.state s.calls ok (Run-IsSound run)) w

    -- Whatever texts are asked for and whatever the provider answers, of a provider that has no vector
    -- for the empty text: at any time the provider has at most one call to answer for a text, the calls
    -- on their way are exactly those that the process waits on, at most 512 embeddings are cached, and
    -- a vector that is read from the cache is not empty and is one that the provider answered for the
    -- normalized text.
    pub embed_text-IsShared :
        {s : Embeddings V} (t : Text) (now : ℕ)
        → Run s
        → IsSound s.state s.calls
          × IsServed (normalize_embedding_input t) (embed_text t now s.state).0
    embed_text-IsShared {s} t now run =
        let sound = Run-IsSound run in (sound, (asked-IsSound t now s sound).1)
