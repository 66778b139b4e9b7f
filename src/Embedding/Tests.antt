-- ===== src/Embedding/Tests.antt =====
-- A text that is asked for, answered and read from the cache, and the theorem on this run.
use tallei_ai.Common.{
  ◌∙◌, sym, ap, true, text_eq, some_where, delete_where, first_where, trim, resolved, refl, ◌∷◌,
  Without, false, ◌≡◌, codes, [], ◌≢◌, ℕ, Text, List,
}
use tallei_ai.Embedding.Sharing.{
  embed_text-IsShared, IsServed, Step, asked, IsSound, Run, Embeddings,
}
use tallei_ai.Embedding.{
  set_embedding, enforce_embedding_cache_limit, cached, evict_expired_embeddings,
  embedding_answered, normalize_embedding_input, embed_text,
}
use tallei_ai.Memory.Cache.{single_spaced}

abbrev Sevens : Text → List ℕ → Type 0
Sevens k v = (k ≢ []) × (v ≡ 7 ∷ [])

no-Sevens : (v : List ℕ) → ¬ Sevens [] v
no-Sevens v (ne, e) = ne refl

abbrev start : Embeddings ℕ
start = record { state = record { embedding_cache = []; embedding_in_flight = [] }; calls = [] }

abbrev tea : Text
tea = codes " green  tea"

abbrev key : Text
key = codes "green tea"

key-normal : normalize_embedding_input tea ≡ key
unfolding normalize_embedding_input single_spaced trim
key-normal = refl

abbrev waiting : Embeddings ℕ
waiting = asked Sevens tea 0 start

abbrev answered : Embeddings ℕ
answered = record {
  state =
      (embedding_answered {E = ℕ} false 5 (normalize_embedding_input tea) (resolved ((7 ∷ []) ∷ []))
        waiting.state).1;
  calls = [];
}

named-tea : normalize_embedding_input tea ≢ []
unfolding text_eq
named-tea e = let f : true ≡ false = ap (text_eq key) (sym key-normal ∙ e) in cc

waiting-calls : Without (normalize_embedding_input tea) waiting.calls []
unfolding embed_text evict_expired_embeddings first_where delete_where some_where
waiting-calls = Without.here

answered-run : Run Sevens answered
answered-run = Run.then (Run.then Run.begins (Step.asks tea 0)) (
    Step.answers {E = ℕ} false 5 (normalize_embedding_input tea) (resolved ((7 ∷ []) ∷ []))
      waiting-calls ((named-tea, refl), tt))

cached-sevens : (embed_text tea 10 answered.state).0 ≡ cached (7 ∷ [])
unfolding embed_text first_where evict_expired_embeddings delete_where embedding_answered
    enforce_embedding_cache_limit set_embedding some_where text_eq normalize_embedding_input
    single_spaced trim
cached-sevens = refl

embed_text-IsShared_example :
    IsSound Sevens answered.state answered.calls
    × IsServed Sevens (normalize_embedding_input tea) (embed_text tea 10 answered.state).0
embed_text-IsShared_example = embed_text-IsShared Sevens no-Sevens tea 10 answered-run
