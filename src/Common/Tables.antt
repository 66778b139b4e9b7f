-- ===== src/Common/Tables.antt =====
-- Tables as lists of rows: what `UPDATE`, `DELETE` and `SELECT` with a condition do, and keys.
use mathlib.Core.Path.{refl, sym, ◌∙◌, ap, ◌≡◌}
use mathlib.Core.Logic.{◌≢◌, ◌⊎◌, inl, inr}
use mathlib.Core.Bool.{false, Bool, true}
use mathlib.Core.Option.{Option, none, some}
use mathlib.Core.List.Memᴰ
use mathlib.Core.List.{Memᴰ, ◌++◌, List, [], ◌∷◌}
use tallei_ai.Common.Tests.{if◌then◌else◌, Bool-cases}
use tallei_ai.Common.Lists.{Distinct, All-append, All}

abbrev unsome {ℓ} : {A : Type ℓ} → A → Option A → A
unsome d none = d
unsome d (some a) = a

-- An equation of two present values is an equation of the values.
pub some_eq {ℓ} : {A : Type ℓ} (a : A) {b : A} → some a ≡ some b → a ≡ b
some_eq a e = ap (unsome a) e

module _ {ℓ} {A : Type ℓ} where
  unfoldable pub update_where : (A → Bool) → (A → A) → List A → List A
  update_where p f [] = []
  update_where p f (x ∷ xs) = (if p x then f x else x) ∷ update_where p f xs

  unfoldable pub select_where : (A → Bool) → List A → List A
  select_where p [] = []
  select_where p (x ∷ xs) = let rest = select_where p xs in if p x then x ∷ rest else rest

  unfoldable pub delete_where : (A → Bool) → List A → List A
  delete_where p [] = []
  delete_where p (x ∷ xs) = let rest = delete_where p xs in if p x then rest else x ∷ rest

  -- `[...new Set(xs)]`, which keeps first occurrences
  unfoldable pub dedupe : (A → A → Bool) → List A → List A
  unfolding delete_where
  dedupe same [] = []
  dedupe same (x ∷ xs) = x ∷ delete_where (same x) (dedupe same xs)

  -- `LIMIT 1`, `rows[0]`
  unfoldable pub first_where : (A → Bool) → List A → Option A
  first_where p [] = none
  first_where p (x ∷ xs) = let rest = first_where p xs in if p x then some x else rest

  abbrev pub first : List A → Option A
  first [] = none
  first (x ∷ xs) = some x

  module _ {κ} (P : A → Type κ) where
    pub All-update_where :
        (p : A → Bool) (f : A → A) (xs : List A)
        → ((x : A) → P x → p x ≡ true → P (f x))
        → All P xs
        → All P (update_where p f xs)
    unfolding update_where
    All-update_where p f [] keep h = tt
    All-update_where p f (x ∷ xs) keep (h, hs) =
        let rest = All-update_where p f xs keep hs in
        elim (Bool-cases (p x)) [ inl e ↦ rw e (keep x h e, rest) | inr e ↦ rw e (h, rest) ]

    pub All-update_where_mem :
        (p : A → Bool) (f : A → A) (xs : List A)
        → ((x : A) → Memᴰ x xs → P x → p x ≡ true → P (f x))
        → All P xs
        → All P (update_where p f xs)
    unfolding update_where
    All-update_where_mem p f [] keep h = tt
    All-update_where_mem p f (x ∷ xs) keep (h, hs) =
        let rest = All-update_where_mem p f xs (λ y m. keep y (Memᴰ.tail m)) hs in
        elim (Bool-cases (p x)) [
          | inl e ↦ rw e (keep x (Memᴰ.head refl) h e, rest)
          | inr e ↦ rw e (h, rest)
        ]

    pub All-delete_where : (p : A → Bool) (xs : List A) → All P xs → All P (delete_where p xs)
    unfolding delete_where
    All-delete_where p [] h = tt
    All-delete_where p (x ∷ xs) (h, hs) =
        let rest = All-delete_where p xs hs in
        elim (Bool-cases (p x)) [ inl e ↦ rw e rest | inr e ↦ rw e (h, rest) ]

    -- What holds of every row holds of the row that is found, and the row meets the condition.
    pub first_where-All :
        (p : A → Bool) (xs : List A) {x : A}
        → All P xs
        → first_where p xs ≡ some x
        → P x × (p x ≡ true)
    unfolding first_where
    first_where-All p [] h e = cc
    first_where-All p (y ∷ ys) {x} (h, hs) e = elim (Bool-cases (p y)) [
      | inl t ↦ let s : y ≡ x = some_eq y (rw t at e) in rw (← s) (h, t)
      | inr f ↦ first_where-All p ys hs (rw f at e)
    ]

  -- A row after an update is an old row that the condition missed, or the update of one that it met.
  pub update_where-mem :
      (p : A → Bool) (f : A → A) (xs : List A) {y : A}
      → Memᴰ y (update_where p f xs)
      → (Memᴰ y xs × (p y ≡ false)) ⊎ ((x : A) × Memᴰ x xs × (p x ≡ true) × (y ≡ f x))
  unfolding update_where
  update_where-mem p f [] m = absurd (Memᴰ.not-nil m)
  update_where-mem p f (x ∷ xs) (Memᴰ.head e) = elim (Bool-cases (p x)) [
    | inl t ↦ inr (x, Memᴰ.head refl, t, rw t at e)
    | inr n ↦ let same = rw n at e in inl (Memᴰ.head same, rw same n)
  ]
  update_where-mem p f (x ∷ xs) (Memᴰ.tail m) = elim (update_where-mem p f xs m) [
    | inl (here, n) ↦ inl (Memᴰ.tail here, n)
    | inr (x', here, t, e) ↦ inr (x', Memᴰ.tail here, t, e)
  ]

  pub mem-update_where_miss :
      (p : A → Bool) (f : A → A) (xs : List A) {x : A}
      → Memᴰ x xs
      → p x ≡ false
      → Memᴰ x (update_where p f xs)
  unfolding update_where
  mem-update_where_miss p f [] m n = absurd (Memᴰ.not-nil m)
  mem-update_where_miss p f (y ∷ ys) (Memᴰ.head e) n =
      Memᴰ.head (e ∙ (let m : p y ≡ false = rw e at n in rw m))
  mem-update_where_miss p f (y ∷ ys) (Memᴰ.tail m) n = Memᴰ.tail (mem-update_where_miss p f ys m n)

  pub mem-update_where_hit :
      (p : A → Bool) (f : A → A) (xs : List A) {x : A}
      → Memᴰ x xs
      → p x ≡ true
      → Memᴰ (f x) (update_where p f xs)
  unfolding update_where
  mem-update_where_hit p f [] m t = absurd (Memᴰ.not-nil m)
  mem-update_where_hit p f (y ∷ ys) (Memᴰ.head e) t =
      Memᴰ.head (ap f e ∙ (let m : p y ≡ true = rw e at t in rw m))
  mem-update_where_hit p f (y ∷ ys) (Memᴰ.tail m) t = Memᴰ.tail (mem-update_where_hit p f ys m t)

  module _ {κ} {K : Type κ} (key : A → K) where
    update_where-keys :
        (p : A → Bool) (f : A → A) (xs : List A) (k : K)
        → ((x : A) → key (f x) ≡ key x)
        → All (λ y. key y ≢ k) xs
        → All (λ y. key y ≢ k) (update_where p f xs)
    update_where-keys p f xs k same h =
        All-update_where (λ y. key y ≢ k) p f xs (λ x ne _ e. ne (sym (same x) ∙ e)) h

    -- An update that leaves the keys alone keeps them distinct.
    pub update_where-Distinct :
        (p : A → Bool) (f : A → A) (xs : List A)
        → ((x : A) → key (f x) ≡ key x)
        → Distinct key xs
        → Distinct key (update_where p f xs)
    unfolding update_where
    update_where-Distinct p f [] same h = tt
    update_where-Distinct p f (x ∷ xs) same (h, hs) =
        let rest = update_where-Distinct p f xs same hs in
        let head = update_where-keys p f xs (key x) same h in
        elim (Bool-cases (p x)) [
          | inl t ↦ rw t (rw (same x) head, rest)
          | inr n ↦ rw n (head, rest)
        ]

    distinct_head :
        (xs : List A) {x y : A} → All (λ z. key z ≢ key x) xs → Memᴰ y xs → key y ≢ key x
    distinct_head [] h m k = absurd (Memᴰ.not-nil m)
    distinct_head (z ∷ zs) (h, hs) (Memᴰ.head e) k = h (ap key (sym e) ∙ k)
    distinct_head (z ∷ zs) (h, hs) (Memᴰ.tail m) k = distinct_head zs hs m k

    -- With distinct keys, rows of one key are one row.
    pub distinct_unique :
        (xs : List A) {x y : A} → Distinct key xs → Memᴰ x xs → Memᴰ y xs → key x ≡ key y → x ≡ y
    distinct_unique [] h m m' k = absurd (Memᴰ.not-nil m)
    distinct_unique (z ∷ zs) (h, hs) (Memᴰ.head e) (Memᴰ.head e') k = e ∙ sym e'
    distinct_unique (z ∷ zs) (h, hs) (Memᴰ.head e) (Memᴰ.tail m) k =
        absurd (distinct_head zs h m (sym k ∙ ap key e))
    distinct_unique (z ∷ zs) (h, hs) (Memᴰ.tail m) (Memᴰ.head e) k =
        absurd (distinct_head zs h m (k ∙ ap key e))
    distinct_unique (z ∷ zs) (h, hs) (Memᴰ.tail m) (Memᴰ.tail m') k = distinct_unique zs hs m m' k

    -- A row with a new key may be added.
    pub append-Distinct :
        (xs : List A) (y : A)
        → Distinct key xs
        → All (λ z. key z ≢ key y) xs
        → Distinct key (xs ++ y ∷ [])
    append-Distinct [] y h k = (tt, tt)
    append-Distinct (x ∷ xs) y (h, hs) (k, ks) = (
      All-append (λ z. key z ≢ key x) xs (y ∷ []) h ((λ e. k (sym e)), tt),
      append-Distinct xs y hs ks,
    )

-- `ys` is `xs` without one occurrence of `x`.
pub data Without {ℓ} {A : Type ℓ} (x : A) : List A → List A → Type ℓ where
  here : {xs : List A} → Without x (x ∷ xs) xs
  there : {y : A} {xs ys : List A} → Without x xs ys → Without x (y ∷ xs) (y ∷ ys)

pub Without-All {ℓ κ} :
    {A : Type ℓ} (P : A → Type κ) {x : A} {xs ys : List A}
    → Without x xs ys
    → All P xs
    → P x × All P ys
Without-All P here (h, hs) = (h, hs)
Without-All P (there w) (h, hs) = let (p, ps) = Without-All P w hs in (p, (h, ps))

pub Without-Distinct {ℓ κ} :
    {A : Type ℓ} {K : Type κ} (key : A → K) {x : A} {xs ys : List A}
    → Without x xs ys
    → Distinct key xs
    → All (λ y. key y ≢ key x) ys × Distinct key ys
Without-Distinct key here (h, hs) = (h, hs)
Without-Distinct key (there {y} w) (h, hs) =
    let (away, rest) = Without-Distinct key w hs in
    let (ne, others) = Without-All _ w h in (((λ e. ne (sym e)), away), (others, rest))

module _ {ℓ} {A : Type ℓ} (p : A → Bool) where
  pub select_where-All : (xs : List A) → All (λ x. p x ≡ true) (select_where p xs)
  unfolding select_where
  select_where-All [] = tt
  select_where-All (x ∷ xs) = elim (Bool-cases (p x)) [
    | inl t ↦ rw t (t, select_where-All xs)
    | inr n ↦ rw n (select_where-All xs)
  ]

  pub All-select_where {κ} : (P : A → Type κ) (xs : List A) → All P xs → All P (select_where p xs)
  unfolding select_where
  All-select_where P [] h = tt
  All-select_where P (x ∷ xs) (h, hs) =
      let rest = All-select_where P xs hs in
      elim (Bool-cases (p x)) [ inl t ↦ rw t (h, rest) | inr n ↦ rw n rest ]

  pub mem-select_where : (xs : List A) {x : A} → Memᴰ x xs → p x ≡ true → Memᴰ x (select_where p xs)
  unfolding select_where
  mem-select_where [] m t = absurd (Memᴰ.not-nil m)
  mem-select_where (y ∷ ys) (Memᴰ.head e) t = let s : p y ≡ true = rw e at t in rw s (Memᴰ.head e)
  mem-select_where (y ∷ ys) (Memᴰ.tail m) t =
      let rest = mem-select_where ys m t in
      elim (Bool-cases (p y)) [ inl s ↦ rw s (Memᴰ.tail rest) | inr n ↦ rw n rest ]

  pub select_where-Distinct {κ} :
      {K : Type κ} (key : A → K) (xs : List A) → Distinct key xs → Distinct key (select_where p xs)
  unfolding select_where
  select_where-Distinct key [] h = tt
  select_where-Distinct key (x ∷ xs) (h, hs) =
      let rest = select_where-Distinct key xs hs in
      elim (Bool-cases (p x)) [
        | inl t ↦ rw t (All-select_where (λ y. key y ≢ key x) xs h, rest)
        | inr n ↦ rw n rest
      ]
