-- ===== src/Common/Sorts.antt =====
-- Sorting with a comparator, as the stable `Array.prototype.sort`, and sums over lists.
use Prim.Native.Nat.{ℕ, ◌+◌}
use mathlib.Core.Path.{◌≡◌, refl, sym, ap, ◌∙◌, subst}
use mathlib.Core.Logic.{◌≢◌, inl, inr}
use mathlib.Core.Bool.{Bool}
use mathlib.Core.List.{List, [], ◌∷◌, Memᴰ, Permᴰ}
use mathlib.Core.List.Memᴰ
use mathlib.Core.List.Permᴰ
use native.Mathlib.Omega.{arith}
use tallei_ai.Common.Tests.{if◌then◌else◌, Bool-cases}
use tallei_ai.Common.Lists.{All, Distinct}

module _ {ℓ} {A : Type ℓ} (before : A → A → Bool) where
  unfoldable pub insert_by : A → List A → List A
  insert_by x [] = x ∷ []
  insert_by x (y ∷ ys) = let later = insert_by x ys in if before y x then y ∷ later else x ∷ y ∷ ys

  unfoldable pub sort_by : List A → List A
  unfolding insert_by
  sort_by [] = []
  sort_by (x ∷ xs) = insert_by x (sort_by xs)

  insert_by-Permᴰ : (x : A) (xs : List A) → Permᴰ (insert_by x xs) (x ∷ xs)
  unfolding insert_by
  insert_by-Permᴰ x [] = Permᴰ.refl (x ∷ [])
  insert_by-Permᴰ x (y ∷ ys) = elim (Bool-cases (before y x)) [
    | inl t ↦ rw t (Permᴰ.trans (Permᴰ.cons refl (insert_by-Permᴰ x ys)) (Permᴰ.swap refl refl))
    | inr n ↦ rw n (Permᴰ.refl (x ∷ y ∷ ys))
  ]

  pub sort_by-Permᴰ : (xs : List A) → Permᴰ (sort_by xs) xs
  unfolding sort_by
  sort_by-Permᴰ [] = Permᴰ.nil
  sort_by-Permᴰ (x ∷ xs) =
      Permᴰ.trans (insert_by-Permᴰ x (sort_by xs)) (Permᴰ.cons refl (sort_by-Permᴰ xs))

module _ {ℓ} {A : Type ℓ} where
  -- `reduce((s, x) => s + weight(x), 0)`
  abbrev pub total : (A → ℕ) → List A → ℕ
  total weight [] = 0
  total weight (x ∷ xs) = weight x + total weight xs

  pub Permᴰ-total :
      (weight : A → ℕ) {xs ys : List A} → Permᴰ xs ys → total weight xs ≡ total weight ys
  Permᴰ-total w Permᴰ.nil = refl
  Permᴰ-total w (Permᴰ.cons e p) = let h = ap w e in let hs = Permᴰ-total w p in ground arith
  Permᴰ-total w (Permᴰ.swap e e') = let h = ap w e in let h' = ap w e' in ground arith
  Permᴰ-total w (Permᴰ.trans p q) = Permᴰ-total w p ∙ Permᴰ-total w q

  pub Permᴰ-Memᴰ : {x : A} {xs ys : List A} → Permᴰ xs ys → Memᴰ x xs → Memᴰ x ys
  Permᴰ-Memᴰ Permᴰ.nil m = absurd (Memᴰ.not-nil m)
  Permᴰ-Memᴰ (Permᴰ.cons e p) (Memᴰ.head h) = Memᴰ.head (h ∙ e)
  Permᴰ-Memᴰ (Permᴰ.cons e p) (Memᴰ.tail m) = Memᴰ.tail (Permᴰ-Memᴰ p m)
  Permᴰ-Memᴰ (Permᴰ.swap e e') (Memᴰ.head h) = Memᴰ.tail (Memᴰ.head (h ∙ e))
  Permᴰ-Memᴰ (Permᴰ.swap e e') (Memᴰ.tail (Memᴰ.head h)) = Memᴰ.head (h ∙ e')
  Permᴰ-Memᴰ (Permᴰ.swap e e') (Memᴰ.tail (Memᴰ.tail m)) = Memᴰ.tail (Memᴰ.tail m)
  Permᴰ-Memᴰ (Permᴰ.trans p q) m = Permᴰ-Memᴰ q (Permᴰ-Memᴰ p m)

  pub Permᴰ-All {κ} : (P : A → Type κ) {xs ys : List A} → Permᴰ xs ys → All P xs → All P ys
  Permᴰ-All P Permᴰ.nil h = tt
  Permᴰ-All P (Permᴰ.cons e p) (h, hs) = (subst P e h, Permᴰ-All P p hs)
  Permᴰ-All P (Permᴰ.swap e e') (h, (h', hs)) = (subst P e' h', (subst P e h, hs))
  Permᴰ-All P (Permᴰ.trans p q) h = Permᴰ-All P q (Permᴰ-All P p h)

  pub Permᴰ-Distinct {κ} :
      {K : Type κ} (key : A → K) {xs ys : List A} → Permᴰ xs ys → Distinct key xs → Distinct key ys
  Permᴰ-Distinct key Permᴰ.nil h = tt
  Permᴰ-Distinct key (Permᴰ.cons {l₂ = l} e p) (h, hs) =
      (subst (λ a. All (λ z. key z ≢ key a) l) e (Permᴰ-All _ p h), Permᴰ-Distinct key p hs)
  Permᴰ-Distinct key (Permᴰ.swap {l = l} e e') ((ne, h), (h', hs)) = (
    ((λ k. ne (ap key e' ∙ sym k ∙ ap key (sym e))), subst (λ a. All (λ z. key z ≢ key a) l) e' h'),
    (subst (λ a. All (λ z. key z ≢ key a) l) e h, hs),
  )
  Permᴰ-Distinct key (Permᴰ.trans p q) h = Permᴰ-Distinct key q (Permᴰ-Distinct key p h)
