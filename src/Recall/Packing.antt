-- ===== src/Recall/Packing.antt =====
-- What fits under a budget.
use tallei_ai.Common.{
  subst, true, false, List, ℕ, arith, ltb, ◌+◌, ◌≤◌, ◌<◌, ◌≡◌, refl, ap, ◌⊎◌, inl, inr, [], ◌∷◌,
  ◌++◌, All, All-map, total, map, Bool-cases,
}
use mathlib.Core.List.{Memᴰ}
use tallei_ai.Recall.{Scored, BucketMemory, estimate_tokens}
use tallei_ai.Recall.Buckets.{packed, bucket_memory}

module _ {S : Type 0} where
  abbrev pub tokens : List (BucketMemory S) → ℕ
  tokens ms = total (λ m. estimate_tokens m.content) ms

  pub tokens-append : (xs ys : List (BucketMemory S)) → tokens (xs ++ ys) ≡ tokens xs + tokens ys
  tokens-append [] ys = omega arith
  tokens-append (x ∷ xs) ys = omega (arith, tokens-append xs ys)

  pub tokens-packed :
      (budget used : ℕ) (xs : List (Scored S))
      → used ≤ budget
      → used + tokens (packed budget used xs) ≤ budget
  unfolding packed bucket_memory
  tokens-packed budget used [] h = omega (arith, h)
  tokens-packed budget used (x ∷ xs) h =
      elim (Bool-cases (ltb budget (used + estimate_tokens x.content))) [
        | inl t ↦ rw (packed, t) (tokens-packed budget used xs h)
        | inr n ↦
            rw (packed, n)
              (let fits : used + estimate_tokens x.content ≤ budget = ground (arith, n) in
                omega (arith, tokens-packed budget (used + estimate_tokens x.content) xs fits))
      ]

  -- An item is kept, or there is no room for it.
  abbrev pub Placed : ℕ → List (BucketMemory S) → Scored S → Type 0
  Placed budget ms x = Memᴰ (bucket_memory x) ms ⊎ (budget < tokens ms + estimate_tokens x.content)

  pub tokens-packed_whole :
      (budget : ℕ) (xs : List (Scored S)) → tokens (packed budget 0 xs) ≤ budget
  tokens-packed_whole budget xs = omega (arith, tokens-packed budget 0 xs (omega arith))

  packed-skip :
      (budget used : ℕ) (x : Scored S) (xs : List (Scored S))
      → ltb budget (used + estimate_tokens x.content) ≡ true
      → packed budget used xs ≡ packed budget used (x ∷ xs)
  unfolding packed
  packed-skip budget used x xs t = rw (packed, t) refl

  packed-keep :
      (budget used : ℕ) (x : Scored S) (xs : List (Scored S))
      → ltb budget (used + estimate_tokens x.content) ≡ false
      → bucket_memory x ∷ packed budget (used + estimate_tokens x.content) xs
        ≡ packed budget used (x ∷ xs)
  unfolding packed bucket_memory
  packed-keep budget used x xs n = rw (packed, n) refl

  abbrev PlacedFrom : ℕ → ℕ → List (BucketMemory S) → Scored S → Type 0
  PlacedFrom budget used ms x =
      Memᴰ (bucket_memory x) ms ⊎ (budget < used + tokens ms + estimate_tokens x.content)

  PlacedFrom-later :
      (budget used : ℕ) (m : BucketMemory S) (ms : List (BucketMemory S)) (y : Scored S)
      → PlacedFrom budget (used + estimate_tokens m.content) ms y
      → PlacedFrom budget used (m ∷ ms) y
  PlacedFrom-later budget used m ms y (inl here) = inl (Memᴰ.tail here)
  PlacedFrom-later budget used m ms y (inr lt) = inr (omega (arith, lt))

  packed-PlacedFrom :
      (budget used : ℕ) (xs : List (Scored S))
      → All (PlacedFrom budget used (packed budget used xs)) xs
  unfolding bucket_memory
  packed-PlacedFrom budget used [] = tt
  packed-PlacedFrom budget used (x ∷ xs) =
      elim (Bool-cases (ltb budget (used + estimate_tokens x.content))) [
        | inl t ↦
            subst (λ ms. All (PlacedFrom budget used ms) (x ∷ xs)) (packed-skip budget used x xs t)
              (inr (ground (arith, t)), packed-PlacedFrom budget used xs)
        | inr n ↦
            let more = used + estimate_tokens x.content in
            subst (λ ms. All (PlacedFrom budget used ms) (x ∷ xs)) (packed-keep budget used x xs n)
              (
                inl (Memᴰ.head refl),
                All-map (PlacedFrom budget more (packed budget more xs)) _ xs
                    (PlacedFrom-later budget used (bucket_memory x) (packed budget more xs))
                    (packed-PlacedFrom budget more xs),
              )
      ]

  PlacedFrom-none :
      (budget : ℕ) (ms : List (BucketMemory S)) (x : Scored S)
      → PlacedFrom budget 0 ms x
      → Placed budget ms x
  PlacedFrom-none budget ms x (inl here) = inl here
  PlacedFrom-none budget ms x (inr lt) = inr (omega (arith, lt))

  pub packed-Placed :
      (budget : ℕ) (xs : List (Scored S)) → All (Placed budget (packed budget 0 xs)) xs
  packed-Placed budget xs =
      All-map (PlacedFrom budget 0 (packed budget 0 xs)) _ xs
        (λ x p. PlacedFrom-none budget (packed budget 0 xs) x p) (packed-PlacedFrom budget 0 xs)

  -- Where everything fits, everything is kept.
  pub packed_all :
      (budget used : ℕ) (xs : List (Scored S))
      → used + total (λ x. estimate_tokens x.content) xs ≤ budget
      → packed budget used xs ≡ map bucket_memory xs
  unfolding packed bucket_memory
  packed_all budget used [] h = refl
  packed_all budget used (x ∷ xs) h =
      let fits : ltb budget (used + estimate_tokens x.content) ≡ false = ground (arith, h) in
      rw (packed, fits)
        (ap (λ ms. bucket_memory x ∷ ms)
          (packed_all budget (used + estimate_tokens x.content) xs (omega (arith, h))))
