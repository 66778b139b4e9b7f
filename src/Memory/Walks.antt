-- ===== src/Memory/Walks.antt =====
-- Walking through the pages of memories.
use tallei_ai.Common.{
  inr, inl, Bool-cases, ==_iff, ◌≢◌, ◌==◌, none, ap₂, ltb→lt, ◌-◌, String, List, Bool, Option, ℕ,
  Text, AuthContext, ltb, true, false, some, zero, suc, arith, if◌then◌else◌, length, map, min, max,
  [], ◌∷◌, ◌++◌, ◌+◌, drop, take, ◌≡◌, ◌≤◌, ◌<◌, refl, sym, ap, ◌∙◌, take-append-drop, drop-drop,
  drop_all, length-drop, length-take, sort_by-Permᴰ, select_where, total, Permᴰ-total,
}
use tallei_ai.Memory.{MemoryRecordRow}
use tallei_ai.Memory.Repository.{
  list_with_options, list_all, count_records, unlisted, build_list_scope,
}
use tallei_ai.Memory.Pages.{
  more_after, ListMemoriesUseCaseInput, list_memories_page, listed_memory, ListedMemory, pos,
  page_limit,
}

abbrev prepend : {A : Type 0} → List A → Option (List A) → Option (List A)
prepend xs none = none
prepend xs (some ys) = some (xs ++ ys)

module _ (decrypt : String → Option Text) (auth : AuthContext) (rows : List MemoryRecordRow)
    (limit : ℕ) (counted : Bool) where
  abbrev asked : (offset : ℕ) → ListMemoriesUseCaseInput
  asked offset = record {
    limit = some (pos limit);
    offset = some (pos offset);
    include_total = counted;
  }

  -- A client that asks for one page after the other, as long as there is more; `none` if it has not
  -- come to an end after so many pages.
  unfoldable pub walk : (fuel : ℕ) → (offset : ℕ) → Option (List ListedMemory)
  walk zero offset = none
  walk (suc fuel) offset =
      let page = list_memories_page decrypt auth (asked offset) rows in
      let rest = walk fuel (offset + length page.memories) in
      prepend page.memories (if page.has_more then rest else some [])

  length-map : {A B : Type 0} (f : A → B) (xs : List A) → length (map f xs) ≡ length xs
  length-map f [] = refl
  length-map f (x ∷ xs) = ap suc (length-map f xs)

  map-append : {A B : Type 0} (f : A → B) (xs ys : List A) → map f xs ++ map f ys ≡ map f (xs ++ ys)
  map-append f [] ys = refl
  map-append f (x ∷ xs) ys = ap (λ zs. f x ∷ zs) (map-append f xs ys)

  total_ones : {A : Type 0} (xs : List A) → total (λ _. 1) xs ≡ length xs
  total_ones [] = refl
  total_ones (x ∷ xs) = omega (arith, total_ones xs)

  abbrev everything : List MemoryRecordRow
  everything = list_all auth rows

  count_records-everything : count_records auth unlisted rows ≡ length everything
  unfolding count_records list_all list_with_options
  count_records-everything =
      sym (total_ones _)
      ∙ sym (
          Permᴰ-total (λ _. 1)
            (sort_by-Permᴰ _ (select_where (build_list_scope auth unlisted) rows)))
      ∙ total_ones _

  abbrev chunk : (offset : ℕ) → List MemoryRecordRow
  chunk offset = take (page_limit (some (pos limit))) (drop offset everything)

  memories-chunk :
      (offset : ℕ)
      → (list_memories_page decrypt auth (asked offset) rows).memories
        ≡ map (listed_memory decrypt) (chunk offset)
  unfolding list_memories_page list_with_options list_all build_list_scope
  memories-chunk offset = refl

  length-memories :
      (offset : ℕ)
      → length (list_memories_page decrypt auth (asked offset) rows).memories
        ≡ length (chunk offset)
  length-memories offset =
      ap length (memories-chunk offset) ∙ length-map (listed_memory decrypt) (chunk offset)

  -- Whether there is more, by the total or by the length of the page
  more : (offset : ℕ) → (with_total : Bool) → Bool
  more offset true = ltb (offset + length (chunk offset)) (length everything)
  more offset false = length (chunk offset) == page_limit (some (pos limit))

  has_more-more :
      (offset : ℕ)
      → (list_memories_page decrypt auth (asked offset) rows).has_more ≡ more offset counted
  unfolding list_memories_page more
  has_more-more offset =
      elim counted
        as (λ b.
          more_after (page_limit (some (pos limit))) offset
            (length (
              map (listed_memory decrypt) (
                list_with_options auth (some (page_limit (some (pos limit))))
                  (record unlisted { offset = some offset }) rows)))
            (if b then some (count_records auth unlisted rows) else none)
          ≡ more offset b) [
            | true ↦
                ap₂ (λ m n. ltb (offset + m) n) (length-memories offset) count_records-everything
            | false ↦ ap (λ m. m == page_limit (some (pos limit))) (length-memories offset)
          ]

  abbrev shown_from : (offset : ℕ) → List ListedMemory
  shown_from offset = map (listed_memory decrypt) (drop offset everything)

  chunk-rest :
      (offset : ℕ)
      → map (listed_memory decrypt) (chunk offset) ++ shown_from (offset + length (chunk offset))
        ≡ shown_from offset
  chunk-rest offset =
      let rest = drop offset everything in
      let joined =
        ap (λ ys. chunk offset ++ ys) (sym (drop-drop offset (length (chunk offset)) everything))
        ∙ take-append-drop (page_limit (some (pos limit))) rest in
      map-append (listed_memory decrypt) (chunk offset) _ ∙ ap (map (listed_memory decrypt)) joined

  length-chunk :
      (offset : ℕ)
      → length (chunk offset) ≡ min (max 1 (min 200 limit)) (length everything - offset)
  length-chunk offset =
      length-take _ (drop offset everything)
      ∙ ap (λ n. min (max 1 (min 200 limit)) n) (length-drop offset everything)

  at_end : (m n : ℕ) → ltb m n ≡ false → n ≤ m
  at_end m n e = ground arith

  not_full : (m n : ℕ) → (m == n) ≡ false → m ≢ n
  not_full m n e same = let t = (==_iff m n).1 same in cc

  more-some : (offset : ℕ) (b : Bool) → more offset b ≡ true → 0 < length (chunk offset)
  unfolding more
  more-some offset true e = let lt = ltb→lt _ _ e in omega (arith, lt, length-chunk offset)
  more-some offset false e =
      let full = (==_iff (length (chunk offset)) (page_limit (some (pos limit)))).0 e in
      omega (arith, full)

  more-none :
      (offset : ℕ) (b : Bool)
      → more offset b ≡ false
      → length everything ≤ offset + length (chunk offset)
  unfolding more
  more-none offset true e = at_end (offset + length (chunk offset)) (length everything) e
  more-none offset false e =
      let short = not_full (length (chunk offset)) (page_limit (some (pos limit))) e in
      omega (arith, short, length-chunk offset)

  walk-shown_from :
      (fuel offset : ℕ)
      → length everything < offset + fuel
      → 0 < fuel
      → walk fuel offset ≡ some (shown_from offset)
  unfolding walk
  walk-shown_from zero offset h some_fuel = absurd (omega (arith, some_fuel))
  walk-shown_from (suc fuel) offset h _ =
      let page = list_memories_page decrypt auth (asked offset) rows in
      let next = offset + length (chunk offset) in
      let same : walk fuel (offset + length page.memories) ≡ walk fuel next =
        ap (λ m. walk fuel (offset + m)) (length-memories offset) in
      let goes_on = has_more-more offset in
      elim (Bool-cases (more offset counted)) [
        | inl t ↦
            let some_ = more-some offset counted t in
            let later =
              same
              ∙ walk-shown_from fuel next (omega (arith, h, some_))
                  (omega (arith, h, some_, length-chunk offset)) in
            ap₂ (λ xs ys. prepend xs ys) (memories-chunk offset)
              (ap (λ b. if b then walk fuel (offset + length page.memories) else some [])
                  (goes_on ∙ t)
                ∙ later)
            ∙ ap some (chunk-rest offset)
        | inr n ↦
            let over = more-none offset counted n in
            let none_left : shown_from next ≡ [] =
              ap (map (listed_memory decrypt)) (drop_all next everything over) in
            ap₂ (λ xs ys. prepend xs ys) (memories-chunk offset)
              (ap (λ b. if b then walk fuel (offset + length page.memories) else some [])
                  (goes_on ∙ n)
                ∙ ap some (sym none_left))
            ∙ ap some (chunk-rest offset)
      ]

  -- Where the table stays as it is and rows that tie in the order of the listing keep their places,
  -- asking for one page after the other, each from where the last ended, as long as the answer says
  -- that there is more, comes to an end after as many pages as there are memories and one more, at
  -- most. It gives each memory of the listing once and in order, with any limit, whether the total is
  -- asked for or not.
  pub walk_lem :
      (fuel : ℕ)
      → length (list_all auth rows) < fuel
      → walk fuel 0 ≡ some (map (listed_memory decrypt) (list_all auth rows))
  unfolding drop
  walk_lem fuel h = walk-shown_from fuel 0 (omega (arith, h)) (omega (arith, h))
