-- ===== src/OAuth/Local.antt =====
-- The cache of tokens in the process: a bounded map.
use tallei_ai.Common.{
  ◌<◌, inr, inl, [], str_eq, leb, arith, ◌+◌, ◌∷◌, Bool-cases, ◌≤◌, length, All, List,
}
use tallei_ai.OAuth.{local_oauth_cache_max, without_first, map_set, LocalEntry, remember}

map_set-All :
    (P : LocalEntry → Type 0) (e : LocalEntry) (xs : List LocalEntry)
    → P e
    → All P xs
    → All P (map_set e xs)
map_set-All P e [] h hs = (h, tt)
map_set-All P e (x ∷ xs) h (k, ks) = elim (Bool-cases (str_eq x.key e.key)) [
  | inl same ↦ rw same (h, ks)
  | inr other ↦ rw other (k, map_set-All P e xs h ks)
]

length-map_set : (e : LocalEntry) (xs : List LocalEntry) → length (map_set e xs) ≤ length xs + 1
length-map_set e [] = omega arith
length-map_set e (x ∷ xs) = elim (Bool-cases (str_eq x.key e.key)) [
  | inl same ↦ rw same (omega arith)
  | inr other ↦ rw other (omega (arith, length-map_set e xs))
]

without_first-All :
    (P : LocalEntry → Type 0) (xs : List LocalEntry) → All P xs → All P (without_first xs)
without_first-All P [] h = tt
without_first-All P (x ∷ xs) (h, hs) = hs

length-without_first : (xs : List LocalEntry) → length xs ≤ 256 → length (without_first xs) ≤ 255
length-without_first [] h = omega arith
length-without_first (x ∷ xs) h = omega (arith, h)

pub remember-All :
    (P : LocalEntry → Type 0) (e : LocalEntry) (xs : List LocalEntry)
    → P e
    → All P xs
    → All P (remember e xs)
unfolding remember
remember-All P e xs h hs = elim (Bool-cases (leb local_oauth_cache_max (length xs))) [
  | inl full ↦ rw full (map_set-All P e (without_first xs) h (without_first-All P xs hs))
  | inr room ↦ rw room (map_set-All P e xs h hs)
]

pub length-remember :
    (e : LocalEntry) (xs : List LocalEntry) → length xs ≤ 256 → length (remember e xs) ≤ 256
unfolding remember
length-remember e xs h = elim (Bool-cases (leb local_oauth_cache_max (length xs))) [
  | inl full ↦
      rw full (omega (arith, length-map_set e (without_first xs), length-without_first xs h))
  | inr room ↦ rw room (
      let small : length xs < 256 = ground (arith, room) in
      omega (arith, length-map_set e xs, small))
]
