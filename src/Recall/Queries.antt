-- ===== src/Recall/Queries.antt =====
-- Queries and texts as words: the expansion of abbreviations, and the tokens of BM25.
use tallei_ai.Common.{
  String, List, Bool, ℕ, Text, codes, lower, is_space, leb, ◌==◌, ◌&&◌, ◌||◌, true, false, map,
  join, if◌then◌else◌, select_where, length, [], ◌∷◌, ◌++◌,
}

abbrev pub query_expansions : List (String × String)
query_expansions =
    ("a/l", "al advanced level exam results academic")
    ∷ ("al", "a/l advanced level exam results academic")
    ∷ ("o/l", "ol ordinary level exam results")
    ∷ ("ol", "o/l ordinary level exam results")
    ∷ ("ict", "information communication technology")
    ∷ ("uni", "university college degree")
    ∷ ("dev", "developer development software")
    ∷ ("ai", "artificial intelligence")
    ∷ ("ml", "machine learning")
    ∷ ("cs", "computer science")
    ∷ ("gpa", "grade point average academic")
    ∷ ("cv", "curriculum vitae resume")
    ∷ []

-- The rest of the pattern of an abbreviation, from a place in the query: `abbr(?:\s|$)`.
abbrev ends_word : Text → Bool
ends_word [] = true
ends_word (c ∷ cs) = is_space c

unfoldable pub word_at : Text → Text → Bool
word_at [] t = ends_word t
word_at (p ∷ ps) [] = false
word_at (p ∷ ps) (c ∷ cs) = (p == c) && word_at ps cs

unfoldable pub word_after_space : Text → Text → Bool
unfolding word_at
word_after_space abbr [] = false
word_after_space abbr (c ∷ cs) = (is_space c && word_at abbr cs) || word_after_space abbr cs

unfoldable pub has_word : Text → Text → Bool
unfolding word_at word_after_space
has_word abbr t = word_at abbr t || word_after_space abbr t

unfoldable pub expansions_in : Text → List (String × String) → List Text
unfolding has_word
expansions_in query [] = []
expansions_in query ((abbr, expansion) ∷ rest) =
    let others = expansions_in query rest in
    if has_word (codes abbr) query then codes expansion ∷ others else others

abbrev expanded : Text → List Text → Text
expanded query [] = query
expanded query (e ∷ es) = query ++ b' ' ∷ join (b' ' ∷ []) (e ∷ es)

unfoldable pub expand_query : Text → Text
unfolding expansions_in
expand_query query = expanded query (expansions_in (map lower query) query_expansions)

abbrev is_letter : ℕ → Bool
is_letter c = leb b'a' c && leb c b'z'

abbrev is_digit : ℕ → Bool
is_digit c = leb b'0' c && leb c b'9'

-- `replace(/([a-z])\/([a-z])/g, "$1$2")`: the matches do not overlap
unfoldable pub join_slashes : Text → Text
join_slashes [] = []
join_slashes (a ∷ []) = a ∷ []
join_slashes (a ∷ b ∷ []) = a ∷ b ∷ []
join_slashes (a ∷ b ∷ c ∷ cs) =
    let joined = join_slashes cs in
    let next = join_slashes (b ∷ c ∷ cs) in
    if is_letter a && ((b == b'/') && is_letter c) then a ∷ c ∷ joined else a ∷ next

-- `replace(/[^a-z0-9\s]/g, " ")`
abbrev blank_other : ℕ → ℕ
blank_other c = if is_letter c || (is_digit c || is_space c) then c else b' '

abbrev add_to_first : ℕ → List Text → List Text
add_to_first c [] = (c ∷ []) ∷ []
add_to_first c (t ∷ ts) = (c ∷ t) ∷ ts

-- `split(/\s+/)`, with an empty text wherever two spaces meet: what is too short is dropped later
unfoldable pub split_spaces : Text → List Text
split_spaces [] = [] ∷ []
split_spaces (c ∷ cs) =
    let rest = split_spaces cs in if is_space c then [] ∷ rest else add_to_first c rest

unfoldable pub tokenize : Text → List Text
unfolding join_slashes split_spaces
tokenize t =
    select_where (λ w. leb 2 (length w))
      (split_spaces (map blank_other (join_slashes (map lower t))))
