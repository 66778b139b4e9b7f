-- ===== src/Memory/Classify.antt =====
-- src/orchestration/memory/memory-classification.ts and memory-types.ts: what kind of memory a text is.
use tallei_ai.Common.{
  text_eq, String, List, Bool, Option, ℕ, Text, codes, lower, is_space, trim, leb, ◌==◌, ◌&&◌, ◌||◌,
  true, false, map, take, none, some, if◌then◌else◌, select_where, some_where, [], ◌∷◌, ◌++◌,
}
use tallei_ai.Memory.Patterns.{
  Pattern, lit, then_, either, optional, spaces, spaces_or_none, phrase, one_of, whole, test,
  favorite_topic, is_some,
}

pub data MemoryType : Type 0 where
  preference fact event decision note lesson failure checkpoint collab : MemoryType

unfoldable pub parse_type : Text → Option MemoryType
parse_type s =
    if text_eq s (codes "preference")
    then some preference
    else if text_eq s (codes "fact")
    then some fact
    else if text_eq s (codes "event")
    then some event
    else if text_eq s (codes "decision")
    then some decision
    else if text_eq s (codes "note")
    then some note
    else if text_eq s (codes "lesson")
    then some lesson
    else if text_eq s (codes "failure")
    then some failure
    else if text_eq s (codes "checkpoint")
    then some checkpoint
    else if text_eq s (codes "collab")
    then some collab
    else none

abbrev type_or : MemoryType → Option MemoryType → MemoryType
type_or fallback none = fallback
type_or fallback (some t) = t

abbrev parsed : Option Text → Option MemoryType
unfolding parse_type
parsed none = none
parsed (some s) = parse_type s

-- `none` is a value that is no string.
unfoldable pub normalize_memory_type : Option Text → MemoryType → MemoryType
unfolding parsed
normalize_memory_type value fallback = type_or fallback (parsed value)

pub record MemoryClassificationModelSuggestion : Type 0 where
  pub memory_type : Option Text
  pub category : Option Text
  pub is_pinned_suggested : Bool

pub record MemoryClassificationDecision : Type 0 where
  pub memory_type : MemoryType
  pub category : Option Text
  pub is_pinned : Bool
  pub preference_key : Option Text
  pub is_identity_fact : Bool

abbrev w : String → Pattern
w s = lit (codes s)

abbrev words : String → List String → Pattern
words s ss = one_of (w s) (map w ss)

abbrev time_zone : Pattern
time_zone = then_ (w "time") (then_ spaces_or_none (w "zone"))

abbrev pub preference_patterns : List Pattern
preference_patterns =
    whole (
      one_of (phrase ("i" ∷ "prefer" ∷ [])) (
        phrase ("i" ∷ "like" ∷ [])
        ∷ phrase ("i" ∷ "love" ∷ [])
        ∷ phrase ("i" ∷ "hate" ∷ [])
        ∷ then_ (phrase ("my" ∷ "favo" ∷ [])) (then_ (optional (w "u")) (w "rite"))
        ∷ []))
    ∷ whole (w "preferred")
    ∷ whole (phrase ("always" ∷ "use" ∷ []))
    ∷ []

abbrev pub identity_patterns : List (String × Pattern)
identity_patterns =
    (
      "identity_name",
      whole (either (phrase ("my" ∷ "name" ∷ "is" ∷ [])) (phrase ("i" ∷ "am" ∷ "called" ∷ []))),
    )
    ∷ ("identity_email", whole (phrase ("my" ∷ "email" ∷ "is" ∷ [])))
    ∷ (
      "identity_phone",
      whole (either (phrase ("my" ∷ "phone" ∷ [])) (phrase ("my" ∷ "number" ∷ []))),
    )
    ∷ (
      "identity_location",
      whole (
          one_of (phrase ("i" ∷ "live" ∷ "in" ∷ []))
            (phrase ("i" ∷ "am" ∷ "from" ∷ []) ∷ phrase ("my" ∷ "city" ∷ "is" ∷ []) ∷ [])),
    )
    ∷ (
      "identity_timezone",
      whole (either (then_ (w "my") (then_ spaces time_zone)) (phrase ("my" ∷ "timezone" ∷ []))),
    )
    ∷ ("identity_pronouns", whole (phrase ("my" ∷ "pronouns" ∷ "are" ∷ [])))
    ∷ []

abbrev pub lesson_patterns : List Pattern
lesson_patterns =
    whole (
      one_of (phrase ("best" ∷ "practice" ∷ [])) (
        phrase ("rule" ∷ "of" ∷ "thumb" ∷ [])
        ∷ phrase ("always" ∷ "remember" ∷ [])
        ∷ phrase ("never" ∷ "do" ∷ [])
        ∷ phrase ("learned" ∷ "that" ∷ [])
        ∷ phrase ("key" ∷ "takeaway" ∷ [])
        ∷ w "takeaway"
        ∷ []))
    ∷ whole (then_ (w "should") (then_ spaces (words "always" ("never" ∷ []))))
    ∷ whole (
        then_ (phrase ("do" ∷ "not" ∷ []))
          (then_ spaces (words "ever" ("batch" ∷ "deploy" ∷ "run" ∷ "use" ∷ []))))
    ∷ []

abbrev pub failure_patterns : List Pattern
failure_patterns =
    whole (
      one_of (words "broke" ("crashed" ∷ "outage" ∷ "incident" ∷ "regression" ∷ "timeout" ∷ [])) (
        phrase ("encoding" ∷ "mismatch" ∷ [])
        ∷ phrase ("root" ∷ "cause" ∷ [])
        ∷ w "postmortem"
        ∷ []))
    ∷ whole (
        one_of (then_ (w "deploy") (then_ spaces (words "broke" ("failed" ∷ [])))) (
          phrase ("build" ∷ "broke" ∷ [])
          ∷ phrase ("api" ∷ "timeout" ∷ [])
          ∷ phrase ("caused" ∷ "by" ∷ [])
          ∷ []))
    ∷ []

abbrev pub category_patterns : List (String × Pattern)
category_patterns =
    (
      "identity",
      whole (
          one_of (phrase ("my" ∷ "name" ∷ "is" ∷ [])) (
            phrase ("i" ∷ "am" ∷ "called" ∷ [])
            ∷ phrase ("my" ∷ "email" ∷ "is" ∷ [])
            ∷ phrase ("my" ∷ "pronouns" ∷ "are" ∷ [])
            ∷ [])),
    )
    ∷ (
      "stack",
      whole (
          one_of (phrase ("tech" ∷ "stack" ∷ [])) (
            map w (
              "stack" ∷ "next.js" ∷ "typescript" ∷ "postgres" ∷ "qdrant" ∷ "react" ∷ "node" ∷ []))),
    )
    ∷ (
      "ui",
      whole (
          words "ui"
            ("ux" ∷ "design" ∷ "theme" ∷ "color" ∷ "layout" ∷ "style" ∷ "typography" ∷ [])),
    )
    ∷ ("contact", whole (words "email" ("phone" ∷ "number" ∷ "contact" ∷ [])))
    ∷ (
      "location",
      whole (
          one_of (words "city" ("country" ∷ "timezone" ∷ []))
            (time_zone ∷ w "location" ∷ w "from" ∷ phrase ("live" ∷ "in" ∷ []) ∷ [])),
    )
    ∷ ("project", whole (words "project" ("building" ∷ "roadmap" ∷ "milestone" ∷ "launch" ∷ [])))
    ∷ []

-- The name of the first pattern that the text meets
unfoldable pub first_named : List (String × Pattern) → Text → Option Text
unfolding test
first_named [] t = none
first_named ((name, p) ∷ rest) t = elim (test p t) [
  | true ↦ some (codes name)
  | false ↦ first_named rest t
]

abbrev is_lower : ℕ → Bool
is_lower c = leb b'a' c && leb c b'z'

abbrev is_digit : ℕ → Bool
is_digit c = leb b'0' c && leb c b'9'

-- `[a-z0-9_\-\s]`
abbrev pub in_category : ℕ → Bool
in_category c = is_lower c || (is_digit c || ((c == b'_') || ((c == b'-') || is_space c)))

-- `replace(/\s+/g, "_")`; `inside` is whether the last character was a space
unfoldable pub underscored : (inside : Bool) → Text → Text
underscored inside [] = []
underscored inside (c ∷ cs) = elim (is_space c) [
  | true ↦ if inside then underscored true cs else b'_' ∷ underscored true cs
  | false ↦ c ∷ underscored false cs
]

unfoldable pub slug : (most : ℕ) → Text → Text
unfolding underscored
slug most t = take most (underscored false (select_where in_category (map lower t)))

abbrev pub if_nonempty : Text → Option Text
if_nonempty [] = none
if_nonempty (c ∷ cs) = some (c ∷ cs)

abbrev pub normalized : Option Text → Option Text
unfolding slug
normalized none = none
normalized (some t) = if_nonempty (slug 64 (trim t))

unfoldable pub normalize_category : Option Text → Option Text
unfolding normalized
normalize_category value = normalized value

unfoldable pub infer_category : Text → Option Text
unfolding first_named
infer_category t = first_named category_patterns t

unfoldable pub is_preference_like : Text → Bool
unfolding test
is_preference_like t = some_where (λ p. test p t) preference_patterns

unfoldable pub identity_key_from_text : Text → Option Text
unfolding first_named
identity_key_from_text t = first_named identity_patterns t

unfoldable pub infer_heuristic_type : Text → (has_identity has_preference : Bool) → MemoryType
unfolding test
infer_heuristic_type t identity liked =
    let will_use = phrase ("will" ∷ "use" ∷ []) in
    let decisions = words "decide" ("decided" ∷ "decision" ∷ "agreed" ∷ "chose" ∷ "chosen" ∷ []) in
    let past = phrase ("last" ∷ "week" ∷ []) ∷ phrase ("last" ∷ "month" ∷ []) ∷ [] in
    let events =
      one_of (words "yesterday" ("today" ∷ "tomorrow" ∷ []))
        (past ++ map w ("met" ∷ "meeting" ∷ "event" ∷ "happened" ∷ [])) in
    let to_do = then_ (w "to") (then_ spaces_or_none (w "do")) in
    let notes =
      one_of (words "note" ("reminder" ∷ "todo" ∷ [])) (to_do ∷ w "scratch" ∷ w "idea" ∷ []) in
    if identity || liked
    then preference
    else if test (whole (either decisions will_use)) t
    then decision
    else if test (whole events) t
    then event
    else if test (whole notes) t
    then note
    else if some_where (λ p. test p t) failure_patterns
    then failure
    else if some_where (λ p. test p t) lesson_patterns
    then lesson
    else fact

abbrev preference_of : Option Text → Option Text
preference_of none = none
preference_of (some category) = some (codes "preference_" ++ category)

abbrev general : Option Text → Option Text
general none = some (codes "preference_general")
general (some category) = some (codes "preference_" ++ category)

abbrev pub key_from : Text → Option Text → Option Text
unfolding test
key_from t category =
    if test (whole (phrase ("i" ∷ "prefer" ∷ []))) t
    then general category
    else preference_of category

abbrev favorite_or : Text → Option Text → Option Text → Option Text
unfolding key_from
favorite_or t category none = key_from t category
favorite_or t category (some topic) = some (codes "favorite_" ++ topic)

abbrev topic_key : Option Text → Option Text
unfolding slug
topic_key none = none
topic_key (some topic) = if_nonempty (slug 40 topic)

unfoldable pub infer_preference_key : Text → (category identity_key : Option Text) → Option Text
unfolding favorite_or topic_key favorite_topic
infer_preference_key t category (some key) = some key
infer_preference_key t category none = favorite_or t category (topic_key (favorite_topic t))

abbrev pub or_next : Option Text → Option Text → Option Text
or_next none other = other
or_next (some a) other = some a

abbrev pub is_preference : MemoryType → Bool
is_preference preference = true
is_preference _ = false

unfoldable pub classify_memory :
    Text → MemoryClassificationModelSuggestion → MemoryClassificationDecision
classify_memory content model =
    let t = trim content in
    let identity_key = identity_key_from_text t in
    let identity = is_some identity_key in
    let liked = is_preference_like t in
    let suggested =
      normalize_memory_type model.memory_type (infer_heuristic_type t identity liked) in
    let memory_type = if identity || liked then preference else suggested in
    let heuristic = if identity then some (codes "identity") else infer_category t in
    let category = or_next (normalize_category model.category) heuristic in
    record {
      memory_type = memory_type;
      category = category;
      is_pinned = is_preference memory_type || (identity || model.is_pinned_suggested);
      preference_key =
          if is_preference memory_type then infer_preference_key t category identity_key else none;
      is_identity_fact = identity;
    }
