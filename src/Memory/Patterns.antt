-- ===== src/Memory/Patterns.antt =====
-- Regular expressions with the `i` flag, as far as the classification of memories uses them: the
-- matcher tries its alternatives in order, and repeats as often as it can before it gives back.
use tallei_ai.Common.{
  String, List, Bool, Option, ℕ, Text, codes, lower, is_space, leb, ◌==◌, ◌&&◌, ◌||◌, not, true,
  false, none, some, zero, suc, if◌then◌else◌, length, [], ◌∷◌, ◌++◌,
}

pub data Pattern : Type 0 where
  lit : Text → Pattern
  spaces : Pattern
  spaces_or_none : Pattern
  edge : Pattern
  optional : Pattern → Pattern
  then_ : Pattern → Pattern → Pattern
  either : Pattern → Pattern → Pattern

abbrev is_word : ℕ → Bool
is_word c =
    (leb b'a' (lower c) && leb (lower c) b'z') || ((leb b'0' c && leb c b'9') || (c == b'_'))

abbrev before_word : Option ℕ → Bool
before_word none = false
before_word (some c) = is_word c

abbrev after_word : Text → Bool
after_word [] = false
after_word (c ∷ cs) = is_word c

-- `\b`
abbrev at_edge : Option ℕ → Text → Bool
at_edge prev t = if before_word prev then not (after_word t) else after_word t

module _ {R : Type 0} where
  abbrev or_try : Option R → Option R → Option R
  or_try none other = other
  or_try (some r) other = some r

  -- A continuation has the character before its place, and the rest of the text.
  unfoldable pub match_lit : Text → Option ℕ → Text → (Option ℕ → Text → Option R) → Option R
  match_lit [] prev t k = k prev t
  match_lit (p ∷ ps) prev [] k = none
  match_lit (p ∷ ps) prev (c ∷ cs) k = elim (lower c == lower p) [
    | true ↦ match_lit ps (some c) cs k
    | false ↦ none
  ]

  unfoldable pub match_spaces : Option ℕ → Text → (Option ℕ → Text → Option R) → Option R
  match_spaces prev [] k = k prev []
  match_spaces prev (c ∷ cs) k = elim (is_space c) [
    | true ↦ or_try (match_spaces (some c) cs k) (k prev (c ∷ cs))
    | false ↦ k prev (c ∷ cs)
  ]

  abbrev after_space : Text → (Option ℕ → Text → Option R) → Option R
  unfolding match_spaces
  after_space [] k = none
  after_space (c ∷ cs) k = if is_space c then match_spaces (some c) cs k else none

  unfoldable pub match_at : Pattern → Option ℕ → Text → (Option ℕ → Text → Option R) → Option R
  unfolding match_lit after_space match_spaces
  match_at (lit s) prev t k = match_lit s prev t k
  match_at spaces prev t k = after_space t k
  match_at spaces_or_none prev t k = match_spaces prev t k
  match_at edge prev t k = if at_edge prev t then k prev t else none
  match_at (optional p) prev t k = or_try (match_at p prev t k) (k prev t)
  match_at (then_ p q) prev t k = match_at p prev t (λ prev' t'. match_at q prev' t' k)
  match_at (either p q) prev t k = or_try (match_at p prev t k) (match_at q prev t k)

  -- The first place from which the pattern matches
  unfoldable pub match_from : Pattern → Option ℕ → Text → (Option ℕ → Text → Option R) → Option R
  unfolding match_at
  match_from p prev [] k = match_at p prev [] k
  match_from p prev (c ∷ cs) k = or_try (match_at p prev (c ∷ cs) k) (match_from p (some c) cs k)

abbrev pub is_some : {A : Type 0} → Option A → Bool
is_some none = false
is_some (some a) = true

-- `pattern.test(text)`
unfoldable pub test : Pattern → Text → Bool
unfolding match_from
test p t = is_some (match_from {R = Bool} p none t (λ _ _. some true))

-- The words of a phrase, with `\s+` between them
abbrev pub phrase : List String → Pattern
phrase [] = lit []
phrase (w ∷ []) = lit (codes w)
phrase (w ∷ v ∷ vs) = then_ (lit (codes w)) (then_ spaces (phrase (v ∷ vs)))

abbrev pub one_of : Pattern → List Pattern → Pattern
one_of p [] = p
one_of p (q ∷ qs) = either p (one_of q qs)

-- `\b(...)\b`
abbrev pub whole : Pattern → Pattern
whole p = then_ edge (then_ p edge)

-- `([a-z0-9\s\-_]{2,40})`
abbrev in_topic : ℕ → Bool
in_topic c = is_word c || (is_space c || (c == b'-'))

module _ (k : Text → Option ℕ → Text → Option Text) where
  abbrev topic_done : Text → Option ℕ → Text → Option Text
  topic_done acc prev t = if leb 2 (length acc) then k acc prev t else none

  unfoldable pub match_topic : ℕ → (acc : Text) → Option ℕ → Text → Option Text
  match_topic zero acc prev t = topic_done acc prev t
  match_topic (suc n) acc prev [] = topic_done acc prev []
  match_topic (suc n) acc prev (c ∷ cs) = elim (in_topic c) [
    | true ↦ or_try (match_topic n (acc ++ c ∷ []) (some c) cs) (topic_done acc prev (c ∷ cs))
    | false ↦ topic_done acc prev (c ∷ cs)
  ]

-- `/\bmy\s+favou?rite\s+([a-z0-9\s\-_]{2,40})\s+is\b/i`, its group
unfoldable pub favorite_topic : Text → Option Text
unfolding match_from match_at match_topic
favorite_topic t =
    let favorite =
      then_ (phrase ("my" ∷ "favo" ∷ []))
        (then_ (optional (lit (codes "u"))) (lit (codes "rite"))) in
    match_from (then_ edge (then_ favorite spaces)) none t (λ prev rest.
      match_topic
        (λ topic prev' rest'.
          match_at (then_ spaces (then_ (lit (codes "is")) edge)) prev' rest' (λ _ _. some topic))
        40 [] prev rest)
