-- ===== src/Collab/Listing.antt =====
-- The listing of tasks (`listTasks`): a `WHERE`, an `ORDER BY` and a `LIMIT`.
use mathlib.Core.List.{Permᴰ}
use mathlib.Core.List.Permᴰ
use tallei_ai.Common.{
  take-append-drop, drop, drop_all, Permᴰ-All, ◌<◌, str_eq_iff, ◌++◌, not, &&_split, ◌⊎◌,
  length-take, select_where-All, take, refl, All-map, ◌||◌, inr, ◌&&◌, map, arith, inl, ◌≤◌,
  Bool-cases, ◌≡◌, if◌then◌else◌, length, All, ◌∷◌, [], select_where, List,
}
use tallei_ai.Collab.{
  false, ended, waiting, active, all, error, done, technical, map_task_row, creative, CollabTask,
  ltb, same_state, Collab, str_eq, true, Bool, AuthContext, CollabState, CollabFilter,
  CollabTaskRow,
}

unfoldable pub matches : CollabFilter → CollabState → Bool
matches all st = true
matches active st = same_state st creative || same_state st technical
matches waiting st = same_state st technical
matches ended st = same_state st done || same_state st error

-- The states of a filter
abbrev pub InFilter : CollabFilter → CollabState → Type 0
InFilter all st = Unit
InFilter active st = (st ≡ creative) ⊎ (st ≡ technical)
InFilter waiting st = st ≡ technical
InFilter ended st = (st ≡ done) ⊎ (st ≡ error)

in_filter : (f : CollabFilter) (st : CollabState) → matches f st ≡ true → InFilter f st
unfolding matches
in_filter all st e = tt
in_filter active creative e = inl refl
in_filter active technical e = inr refl
in_filter active done e = cc
in_filter active error e = cc
in_filter waiting creative e = cc
in_filter waiting technical e = refl
in_filter waiting done e = cc
in_filter waiting error e = cc
in_filter ended creative e = cc
in_filter ended technical e = cc
in_filter ended done e = inl refl
in_filter ended error e = inr refl

matched : (f : CollabFilter) (st : CollabState) → InFilter f st → matches f st ≡ true
unfolding matches
matched all st h = refl
matched active st (inl e) = rw e refl
matched active st (inr e) = rw e refl
matched waiting st e = rw e refl
matched ended st (inl e) = rw e refl
matched ended st (inr e) = rw e refl

module _ {A V D : Type 0} where
  -- `ORDER BY updated_at DESC`
  unfoldable pub insert_newest :
      CollabTaskRow A V D → List (CollabTaskRow A V D) → List (CollabTaskRow A V D)
  insert_newest r [] = r ∷ []
  insert_newest r (x ∷ xs) =
      let later = insert_newest r xs in
      if ltb r.updated_at x.updated_at then x ∷ later else r ∷ x ∷ xs

  unfoldable pub newest_first : List (CollabTaskRow A V D) → List (CollabTaskRow A V D)
  unfolding insert_newest
  newest_first [] = []
  newest_first (r ∷ rs) = insert_newest r (newest_first rs)

  abbrev pub listed : CollabFilter → AuthContext → CollabTaskRow A V D → Bool
  listed f auth r =
      str_eq r.tenant_id auth.tenant_id && (str_eq r.user_id auth.user_id && matches f r.state)

  unfoldable pub list_tasks : CollabFilter → AuthContext → Collab A V D → List (CollabTask A V D)
  unfolding matches take newest_first
  list_tasks f auth s =
      map map_task_row (take 50 (newest_first (select_where (listed f auth) s.rows)))

  insert_newest-All :
      (P : CollabTaskRow A V D → Type 0) (r : CollabTaskRow A V D) (xs : List (CollabTaskRow A V D))
      → P r
      → All P xs
      → All P (insert_newest r xs)
  unfolding insert_newest
  insert_newest-All P r [] h hs = (h, tt)
  insert_newest-All P r (x ∷ xs) h (k, ks) = elim (Bool-cases (ltb r.updated_at x.updated_at)) [
    | inl t ↦ rw t (k, insert_newest-All P r xs h ks)
    | inr n ↦ rw n (h, (k, ks))
  ]

  newest_first-All :
      (P : CollabTaskRow A V D → Type 0) (xs : List (CollabTaskRow A V D))
      → All P xs
      → All P (newest_first xs)
  unfolding newest_first
  newest_first-All P [] h = tt
  newest_first-All P (x ∷ xs) (h, hs) =
      insert_newest-All P x (newest_first xs) h (newest_first-All P xs hs)

  -- No row of the list is newer than one before it.
  abbrev IsNewestFirst : List (CollabTaskRow A V D) → Type 0
  IsNewestFirst [] = Unit
  IsNewestFirst (r ∷ rs) = All (λ x. x.updated_at ≤ r.updated_at) rs × IsNewestFirst rs

  insert_newest-IsNewestFirst :
      (r : CollabTaskRow A V D) (xs : List (CollabTaskRow A V D))
      → IsNewestFirst xs
      → IsNewestFirst (insert_newest r xs)
  unfolding insert_newest
  insert_newest-IsNewestFirst r [] h = (tt, tt)
  insert_newest-IsNewestFirst r (x ∷ xs) (h, hs) =
      elim (Bool-cases (ltb r.updated_at x.updated_at)) [
        | inl t ↦
            let older : r.updated_at ≤ x.updated_at = ground (arith, t) in
            rw t (
              insert_newest-All (λ y. y.updated_at ≤ x.updated_at) r xs older h,
              insert_newest-IsNewestFirst r xs hs,
            )
        | inr n ↦
            let older : x.updated_at ≤ r.updated_at = ground (arith, n) in
            rw n ((older, All-map _ _ xs (λ y le. omega (arith, le, older)) h), (h, hs))
      ]

  newest_first-IsNewestFirst : (xs : List (CollabTaskRow A V D)) → IsNewestFirst (newest_first xs)
  unfolding newest_first
  newest_first-IsNewestFirst [] = tt
  newest_first-IsNewestFirst (x ∷ xs) =
      insert_newest-IsNewestFirst x (newest_first xs) (newest_first-IsNewestFirst xs)

  insert_newest-Permᴰ :
      (r : CollabTaskRow A V D) (xs : List (CollabTaskRow A V D))
      → Permᴰ (insert_newest r xs) (r ∷ xs)
  unfolding insert_newest
  insert_newest-Permᴰ r [] = Permᴰ.refl (r ∷ [])
  insert_newest-Permᴰ r (x ∷ xs) = elim (Bool-cases (ltb r.updated_at x.updated_at)) [
    | inl t ↦ rw t (Permᴰ.trans (Permᴰ.cons refl (insert_newest-Permᴰ r xs)) (Permᴰ.swap refl refl))
    | inr n ↦ rw n (Permᴰ.refl (r ∷ x ∷ xs))
  ]

  newest_first-Permᴰ : (xs : List (CollabTaskRow A V D)) → Permᴰ (newest_first xs) xs
  unfolding newest_first
  newest_first-Permᴰ [] = Permᴰ.nil
  newest_first-Permᴰ (x ∷ xs) =
      Permᴰ.trans (insert_newest-Permᴰ x (newest_first xs))
        (Permᴰ.cons refl (newest_first-Permᴰ xs))

  -- The rows that a condition chooses, and the others
  chosen-Permᴰ :
      (p : CollabTaskRow A V D → Bool) (xs : List (CollabTaskRow A V D))
      → Permᴰ (select_where p xs ++ select_where (λ x. not (p x)) xs) xs
  unfolding select_where
  chosen-Permᴰ p [] = Permᴰ.nil
  chosen-Permᴰ p (x ∷ xs) =
      let rest = chosen-Permᴰ p xs in
      elim (Bool-cases (p x)) [
        | inl t ↦ rw t (Permᴰ.cons refl rest)
        | inr n ↦ rw n (Permᴰ.trans (Permᴰ.middle x (select_where p xs) _) (Permᴰ.cons refl rest))
      ]

  abbrev pub IsAsked : CollabFilter → AuthContext → CollabTaskRow A V D → Type 0
  IsAsked f auth r =
      (r.tenant_id ≡ auth.tenant_id) × (r.user_id ≡ auth.user_id) × InFilter f r.state

  listed-IsAsked :
      (f : CollabFilter) (auth : AuthContext) (r : CollabTaskRow A V D)
      → listed f auth r ≡ true
      → IsAsked f auth r
  listed-IsAsked f auth r e =
      let (tenant, rest) = &&_split _ _ e in
      let (user, st) = &&_split _ _ rest in
      (
        (str_eq_iff r.tenant_id auth.tenant_id).0 tenant,
        (str_eq_iff r.user_id auth.user_id).0 user,
        in_filter f r.state st,
      )

  unlisted-IsAsked :
      (f : CollabFilter) (auth : AuthContext) (r : CollabTaskRow A V D)
      → not (listed f auth r) ≡ true
      → ¬ IsAsked f auth r
  unlisted-IsAsked f auth r e (tenant, user, st) =
      let can : listed f auth r ≡ true =
        rw
          (
            (str_eq_iff r.tenant_id auth.tenant_id).1 tenant,
            (str_eq_iff r.user_id auth.user_id).1 user,
            matched f r.state st,
          )
          refl in
      let bad : false ≡ true = (rw can at e) in cc

  -- What a listing of rows promises of the table
  pub record IsListing (f : CollabFilter) (auth : AuthContext)
      (table rows : List (CollabTaskRow A V D)) : Type 0 where
    pub older : List (CollabTaskRow A V D)
    pub others : List (CollabTaskRow A V D)
    pub whole : Permᴰ ((rows ++ older) ++ others) table
    pub asked : All (IsAsked f auth) (rows ++ older)
    pub not_asked : All (λ r. ¬ IsAsked f auth r) others
    pub sorted : IsNewestFirst (rows ++ older)
    pub limited : length rows ≤ 50
    pub filled : length rows < 50 → older ≡ []

  -- The table falls into the rows of a listing, older rows and others. The rows of the listing and the
  -- older ones are all those of the tenant and of the user who asks in a state of the filter, each as
  -- often as in the table, and none of them is newer than one before it. At most 50 are listed, and if
  -- fewer are, no older ones are left out.
  pub list_tasks-IsListing :
      (f : CollabFilter) (auth : AuthContext) (s : Collab A V D)
      → (rows : List (CollabTaskRow A V D)) × (list_tasks f auth s ≡ map map_task_row rows)
        × IsListing f auth s.rows rows
  unfolding list_tasks
  list_tasks-IsListing f auth s =
      let p = listed f auth in
      let chosen = select_where p s.rows in
      let others = select_where (λ r. not (p r)) s.rows in
      let sorted = newest_first chosen in
      let older = drop (length (take 50 sorted)) sorted in
      let joined : take 50 sorted ++ older ≡ sorted = take-append-drop 50 sorted in
      (
        take 50 sorted,
        refl,
        record {
          older = older;
          others = others;
          whole = rw joined (
              Permᴰ.trans (Permᴰ.append_right others (newest_first-Permᴰ chosen))
                (chosen-Permᴰ p s.rows));
          asked = rw joined (
              Permᴰ-All (IsAsked f auth) (Permᴰ.symm (newest_first-Permᴰ chosen))
                (All-map _ _ chosen (listed-IsAsked f auth) (select_where-All p s.rows)));
          not_asked =
              All-map _ _ others (unlisted-IsAsked f auth)
                (select_where-All (λ r. not (p r)) s.rows);
          sorted = rw joined (newest_first-IsNewestFirst chosen);
          limited = omega (arith, length-take 50 sorted);
          filled = λ short.
              drop_all (length (take 50 sorted)) sorted
                (omega (arith, short, length-take 50 sorted));
        },
      )
