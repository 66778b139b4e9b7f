-- ===== src/Recall/Scores.antt =====
-- Scores: activity, confidence, the score of BM25, and the ranks of the signals. Maps with keys of a
-- type are lists of pairs, in the order in which the keys came.
use tallei_ai.Common.{
  String, List, Bool, Option, ℕ, Text, none, some, leb, ◌+◌, max, length, total, if◌then◌else◌,
  text_eq, map, [], ◌∷◌, ◌==◌, str_eq,
}
use tallei_ai.Recall.{Double, Decrypted}
use tallei_ai.Recall.Queries.{tokenize}

-- `Map.get`
unfoldable pub lookup_by : {K V : Type 0} → (K → K → Bool) → K → List (K × V) → Option V
lookup_by same k [] = none
lookup_by same k ((k', v) ∷ rest) =
    let later = lookup_by same k rest in if same k' k then some v else later

abbrev count_of : Option ℕ → ℕ
count_of none = 0
count_of (some n) = n

-- `map.set(key, (map.get(key) ?? 0) + 1)`
unfoldable pub count_up : Text → List (Text × ℕ) → List (Text × ℕ)
count_up t [] = (t, 1) ∷ []
count_up t ((u, n) ∷ rest) =
    let later = count_up t rest in if text_eq u t then (u, n + 1) ∷ rest else (u, n) ∷ later

unfoldable pub count_all : List Text → List (Text × ℕ) → List (Text × ℕ)
unfolding count_up
count_all [] counts = counts
count_all (t ∷ ts) counts = count_all ts (count_up t counts)

pub record Tokenized : Type 0 where
  pub id : String
  pub tokens : List Text
  pub tf : List (Text × ℕ)

unfoldable pub tokenized : Decrypted → Tokenized
unfolding count_all
tokenized d =
    let tokens = tokenize d.content in
    record { id = d.row.id; tokens = tokens; tf = count_all tokens [] }

unfoldable pub document_frequencies : List Tokenized → List (Text × ℕ) → List (Text × ℕ)
unfolding count_all
document_frequencies [] df = df
document_frequencies (d ∷ ds) df = document_frequencies ds (count_all (map (λ e. e.0) d.tf) df)

pub data Tier : Type 0 where
  high med unconfirmed : Tier

unfoldable pub confidence_tier : ℕ → Tier
confidence_tier n = if leb 5 n then high else if leb 2 n then med else unconfirmed

module _ {S : Type 0} ⦃d : Double S⦄ where
  abbrev pub decimal : ℕ → ℕ → S
  decimal a b = d.div (d.of_nat a) (d.of_nat b)

  abbrev freshness : ℕ → Option ℕ → S → S
  freshness now none boost = boost
  freshness now (some at) boost =
      let age = d.div (d.sub (d.of_nat now) (d.of_nat at)) (d.of_nat 86_400_000) in
      let days = d.maximum (d.of_nat 0) age in
      let faded = d.exp (d.div (d.sub (d.of_nat 0) days) (d.of_nat 21)) in
      d.mul boost (d.maximum (decimal 6 10) faded)

  unfoldable pub activity_signal : (now reference_count : ℕ) → (last_referenced_at : Option ℕ) → S
  activity_signal now n at = freshness now at (d.add (d.of_nat 1) (d.log1p (d.of_nat (max 1 n))))

  -- The term of one token of the query, for a document that has it `freq` times.
  unfoldable pub bm25_term : (n df freq dl : ℕ) → (avgdl : S) → S
  bm25_term n df freq dl avgdl =
      let half = decimal 1 2 in
      let rarity =
        d.div (d.add (d.sub (d.of_nat n) (d.of_nat df)) half) (d.add (d.of_nat df) half) in
      let idf = d.log (d.add rarity (d.of_nat 1)) in
      let num = d.mul (d.of_nat freq) (d.add (decimal 3 2) (d.of_nat 1)) in
      let share = d.mul (decimal 3 4) (d.div (d.of_nat dl) avgdl) in
      let spread = d.add (d.sub (d.of_nat 1) (decimal 3 4)) share in
      let den = d.add (d.of_nat freq) (d.mul (decimal 3 2) spread) in d.mul idf (d.div num den)

  unfoldable pub bm25_score :
      (n : ℕ) → (df : List (Text × ℕ)) → (avgdl : S) → Tokenized → List Text → S → S
  unfolding lookup_by bm25_term
  bm25_score n df avgdl doc [] score = score
  bm25_score n df avgdl doc (t ∷ ts) score =
      let freq = count_of (lookup_by text_eq t doc.tf) in
      let seen = count_of (lookup_by text_eq t df) in
      let term = bm25_term n seen freq (length doc.tokens) avgdl in
      bm25_score n df avgdl doc ts (if freq == 0 then score else d.add score term)

  unfoldable pub positive_scores :
      (n : ℕ)
      → (df : List (Text × ℕ)) → (avgdl : S) → List Text
      → List Tokenized
      → List (String × S)
  unfolding bm25_score
  positive_scores n df avgdl query [] = []
  positive_scores n df avgdl query (doc ∷ docs) =
      let rest = positive_scores n df avgdl query docs in
      let score = bm25_score n df avgdl doc query (d.of_nat 0) in
      if d.gt score (d.of_nat 0) then (doc.id, score) ∷ rest else rest

  abbrev scored_documents : List Text → List Decrypted → List (String × S)
  unfolding tokenized document_frequencies positive_scores
  scored_documents [] docs = []
  scored_documents (q ∷ qs) [] = []
  scored_documents (q ∷ qs) (x ∷ xs) =
      let docs = map tokenized (x ∷ xs) in
      let n = length docs in
      let avgdl : S = d.div (d.of_nat (total (λ e. length e.tokens) docs)) (d.of_nat (max 1 n)) in
      positive_scores n (document_frequencies docs []) avgdl (q ∷ qs) docs

  -- The scores of the documents that have a positive one, by their ids, which are distinct
  unfoldable pub bm25_scores : Text → List Decrypted → List (String × S)
  unfolding tokenize scored_documents
  bm25_scores query docs = scored_documents (tokenize query) docs

  -- `Math.max(0, ...scores)`
  unfoldable pub max_score : List (String × S) → S
  max_score [] = d.of_nat 0
  max_score ((id, s) ∷ rest) = d.maximum s (max_score rest)

-- `new Map(ids.map((id, i) => [id, i])).get(id)`: the last place of an id
unfoldable pub rank_of : String → ℕ → List String → Option ℕ
rank_of id i [] = none
rank_of id i (x ∷ xs) = elim (rank_of id (i + 1) xs) [
  | some j ↦ some j
  | none ↦ if str_eq x id then some i else none
]
