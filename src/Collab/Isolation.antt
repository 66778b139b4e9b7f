-- ===== src/Collab/Isolation.antt =====
-- The users of one table.
use tallei_ai.Common.{
  refl, str_eq_iff, inr, select_where-delete_where, sym, [], ◌∙◌, inl, ◌∷◌,
  select_where-update_where, Bool-cases, ◌++◌, ◌≡◌, Bool, ◌≢◌, select_where, List, ℕ, String,
}
use tallei_ai.Collab.{Collab, false, str_eq, CollabTaskRow, AuthContext}
use tallei_ai.Collab.Requests.{handle, Fits, Request}
use tallei_ai.Collab.Writes.{Written}
use tallei_ai.Collab.Effects.{handle-Written}

abbrev pub others_of :
    {A V D : Type 0} → String → List (CollabTaskRow A V D) → List (CollabTaskRow A V D)
others_of u rows = select_where (λ r. str_eq r.user_id u) rows

select_where-append :
    {A : Type 0} (q : A → Bool) (xs : List A) (y : A)
    → q y ≡ false
    → select_where q (xs ++ y ∷ []) ≡ select_where q xs
unfolding select_where
select_where-append q [] y miss = rw miss refl
select_where-append q (x ∷ xs) y miss = elim (Bool-cases (q x)) [
  | inl t ↦ rw (t, select_where-append q xs y miss) refl
  | inr n ↦ rw (n, select_where-append q xs y miss) refl
]

not_of : (u v : String) → u ≢ v → (w : String) → w ≡ v → str_eq w u ≡ false
not_of u v ne w e = elim (Bool-cases (str_eq w u)) [
  | inl t ↦ absurd (ne (sym ((str_eq_iff w u).0 t) ∙ e))
  | inr n ↦ n
]

module _ {A V D : Type 0} where
  Written-others :
      (auth : AuthContext) (u : String) {rows rows' : List (CollabTaskRow A V D)}
      → u ≢ auth.user_id
      → Written auth rows rows'
      → others_of u rows' ≡ others_of u rows
  Written-others auth u ne Written.same = refl
  Written-others auth u {rows} ne (Written.added r mine _ _ _ _) =
      select_where-append (λ x. str_eq x.user_id u) rows r (not_of u auth.user_id ne r.user_id mine)
  Written-others auth u ne (Written.updated {rows'} p f theirs keeps w) =
      select_where-update_where (λ x. str_eq x.user_id u) p f rows'
        (λ r h. not_of u auth.user_id ne r.user_id (theirs r h))
        (λ r h. not_of u auth.user_id ne (f r).user_id (keeps.user_kept r ∙ theirs r h))
      ∙ Written-others auth u ne w
  Written-others auth u {rows} ne (Written.removed p theirs) =
      select_where-delete_where (λ x. str_eq x.user_id u) p rows
        (λ r h. not_of u auth.user_id ne r.user_id (theirs r h))

  -- A request of one user, to create or read a task, to claim or submit a turn, to finish, extend or
  -- delete a task, or to attach documents or a plan to it, whatever ids it names, never changes, adds
  -- or removes a task of another user; where it creates a task, the id of that task is new.
  pub handle-others_of :
      (smd : V → Bool) (now : ℕ) (auth : AuthContext) (q : Request A V D) (s : Collab A V D)
      (u : String)
      → Fits smd s q
      → u ≢ auth.user_id
      → others_of u (handle smd now auth q s).rows ≡ others_of u s.rows
  handle-others_of smd now auth q s u fits ne =
      Written-others auth u ne (handle-Written smd now auth q s fits)
