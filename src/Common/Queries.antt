-- ===== src/Common/Queries.antt =====
-- What a query finds in a table, before and after an update or a deletion.
use mathlib.Core.List.{Memᴰ, List, [], ◌∷◌, map}
use mathlib.Core.List.Memᴰ
use mathlib.Core.Path.{◌≡◌, refl, ap, sym, ◌∙◌, subst}
use mathlib.Core.Logic.{inl, inr}
use mathlib.Core.Bool.{Bool, true, false}
use mathlib.Core.Option.{none, some}
use tallei_ai.Common.Tests.{Bool-cases}
use tallei_ai.Common.Lists.{All}
use tallei_ai.Common.Tables.{first_where, update_where, delete_where, select_where, some_eq}

pub All-mem {ℓ κ} :
    {A : Type ℓ} (P : A → Type κ) (xs : List A) → ((x : A) → Memᴰ x xs → P x) → All P xs
All-mem P [] h = tt
All-mem P (x ∷ xs) h = (h x (Memᴰ.head refl), All-mem P xs (λ y m. h y (Memᴰ.tail m)))

pub All-Memᴰ {ℓ κ} :
    {A : Type ℓ} (P : A → Type κ) (xs : List A) {x : A} → All P xs → Memᴰ x xs → P x
All-Memᴰ P [] h m = absurd (Memᴰ.not-nil m)
All-Memᴰ P (y ∷ ys) (h, hs) (Memᴰ.head e) = subst P (sym e) h
All-Memᴰ P (y ∷ ys) (h, hs) (Memᴰ.tail m) = All-Memᴰ P ys hs m

module _ {ℓ} {A : Type ℓ} where
  -- The row that is found is a row of the table, and meets the condition.
  pub first_where-mem :
      (p : A → Bool) (xs : List A) {x : A} → first_where p xs ≡ some x → Memᴰ x xs × (p x ≡ true)
  unfolding first_where
  first_where-mem p [] e = cc
  first_where-mem p (y ∷ ys) {x} e = elim (Bool-cases (p y)) [
    | inl t ↦ let s : y ≡ x = some_eq y (rw t at e) in (Memᴰ.head (sym s), rw (← s) t)
    | inr f ↦ let (m, t) = first_where-mem p ys (rw f at e) in (Memᴰ.tail m, t)
  ]

  -- Where nothing is found, an update changes nothing.
  pub update_where-none :
      (p : A → Bool) (f : A → A) (xs : List A) → first_where p xs ≡ none → update_where p f xs ≡ xs
  unfolding first_where update_where
  update_where-none p f [] e = refl
  update_where-none p f (y ∷ ys) e = elim (Bool-cases (p y)) [
    | inl t ↦ let bad : some y ≡ none = rw t at e in cc
    | inr n ↦ rw n (ap (λ zs. y ∷ zs) (update_where-none p f ys (rw n at e)))
  ]

  -- Where nothing is found, no row meets the condition.
  pub first_where-none :
      (p : A → Bool) (xs : List A) → first_where p xs ≡ none → All (λ x. p x ≡ false) xs
  unfolding first_where
  first_where-none p [] e = tt
  first_where-none p (y ∷ ys) e = elim (Bool-cases (p y)) [
    | inl t ↦ let bad : some y ≡ none = rw t at e in cc
    | inr n ↦ (n, first_where-none p ys (rw n at e))
  ]

  -- Nothing is found of what has been deleted.
  pub first_where-delete_where :
      (p : A → Bool) (xs : List A) → first_where p (delete_where p xs) ≡ none
  unfolding first_where delete_where
  first_where-delete_where p [] = refl
  first_where-delete_where p (y ∷ ys) = elim (Bool-cases (p y)) [
    | inl t ↦ rw t (first_where-delete_where p ys)
    | inr n ↦ rw n (rw n (first_where-delete_where p ys))
  ]

  -- An update that a view of the rows does not show.
  pub map-update_where_same {κ} :
      {B : Type κ} (g : A → B) (p : A → Bool) (f : A → A) (xs : List A)
      → ((x : A) → g (f x) ≡ g x)
      → map g (update_where p f xs) ≡ map g xs
  unfolding update_where
  map-update_where_same g p f [] h = refl
  map-update_where_same g p f (y ∷ ys) h = elim (Bool-cases (p y)) [
    | inl t ↦ rw (t, h y, map-update_where_same g p f ys h)
    | inr n ↦ rw (n, map-update_where_same g p f ys h)
  ]

  -- An update that a view of the rows shows as another one.
  pub map-update_where {κ} :
      {B : Type κ} (g : A → B) (p : A → Bool) (f : A → A) (q : B → Bool) (h : B → B) (xs : List A)
      → ((x : A) → p x ≡ q (g x))
      → ((x : A) → g (f x) ≡ h (g x))
      → map g (update_where p f xs) ≡ update_where q h (map g xs)
  unfolding update_where
  map-update_where g p f q h [] same step = refl
  map-update_where g p f q h (y ∷ ys) same step = elim (Bool-cases (p y)) [
    | inl t ↦
        let t' : q (g y) ≡ true = sym (same y) ∙ t in
        rw (t, t', step y, map-update_where g p f q h ys same step)
    | inr n ↦
        let n' : q (g y) ≡ false = sym (same y) ∙ n in
        rw (n, n', map-update_where g p f q h ys same step)
  ]

  -- Rows that an update neither meets before nor after are selected as before.
  pub select_where-update_where :
      (q p : A → Bool) (f : A → A) (xs : List A)
      → ((x : A) → p x ≡ true → q x ≡ false)
      → ((x : A) → p x ≡ true → q (f x) ≡ false)
      → select_where q (update_where p f xs) ≡ select_where q xs
  unfolding select_where update_where
  select_where-update_where q p f [] before after = refl
  select_where-update_where q p f (y ∷ ys) before after = elim (Bool-cases (p y)) [
    | inl t ↦ rw (t, before y t, after y t, select_where-update_where q p f ys before after)
    | inr n ↦ rw (n, select_where-update_where q p f ys before after)
  ]

  pub select_where-delete_where :
      (q p : A → Bool) (xs : List A)
      → ((x : A) → p x ≡ true → q x ≡ false)
      → select_where q (delete_where p xs) ≡ select_where q xs
  unfolding select_where delete_where
  select_where-delete_where q p [] before = refl
  select_where-delete_where q p (y ∷ ys) before = elim (Bool-cases (p y)) [
    | inl t ↦ rw (t, before y t, select_where-delete_where q p ys before)
    | inr n ↦ rw (n, select_where-delete_where q p ys before)
  ]
