-- ===== src/Collab/Writes.antt =====
-- What any request of a user writes to the table.
use tallei_ai.Common.{
  ◌+◌, delete_where, ◌≢◌, ◌∷◌, update_where, All, ◌++◌, refl, inl, str_eq_iff, inr, ap, arith, [],
  ◌⊎◌, ◌≡◌, Option, ℕ, String,
}
use tallei_ai.Collab.{
  some, none, CollabTranscriptEntry, CollabTask, true, Collab, CollabModelActor, owned, List, Bool,
  CollabTaskRow, AuthContext, CollabState,
}
use tallei_ai.Collab.Turns.{restart, created, restarted, closed_recently, in_state, take_turn}
use tallei_ai.Collab.Cache.{invalidate_cached_task, or_loaded, read_cached_task, loaded, get_task}
use tallei_ai.Collab.Submit.{
  attach_others, add_evaluation, add_artifacts, save_artifacts, save_evaluation, attach_documents,
}
use tallei_ai.Collab.Board.{seat}

module _ {A V D : Type 0} where
  -- What an update does to a row: it is the same task, with the same turns or one more.
  abbrev pub Continues : CollabTaskRow A V D → CollabTaskRow A V D → Type 0
  Continues r r' =
      (r'.transcript ≡ r.transcript) × (r'.iteration ≡ r.iteration) × (r'.last_actor ≡ r.last_actor)
      ⊎ ((e : CollabTranscriptEntry) × (r'.transcript ≡ r.transcript ++ e ∷ [])
          × (e.iteration ≡ r.iteration + 1)
          × (r'.iteration ≡ r.iteration + 1)
          × (r'.last_actor ≡ some e.actor))

  pub record Keeps (f : CollabTaskRow A V D → CollabTaskRow A V D) : Type 0 where
    pub id_kept : (r : CollabTaskRow A V D) → (f r).id ≡ r.id
    pub user_kept : (r : CollabTaskRow A V D) → (f r).user_id ≡ r.user_id
    pub continues : (r : CollabTaskRow A V D) → Continues r (f r)

  abbrev pub Theirs : AuthContext → (CollabTaskRow A V D → Bool) → Type 0
  Theirs auth p = (r : CollabTaskRow A V D) → p r ≡ true → r.user_id ≡ auth.user_id

  pub data Written (auth : AuthContext) (rows : List (CollabTaskRow A V D))
      : List (CollabTaskRow A V D) → Type 0 where
    same : Written auth rows rows
    added :
        (r : CollabTaskRow A V D)
        → r.user_id ≡ auth.user_id
        → r.transcript ≡ []
        → r.iteration ≡ 0
        → r.last_actor ≡ none
        → All (λ x. x.id ≢ r.id) rows
        → Written auth rows (rows ++ r ∷ [])
    updated :
        {rows' : List (CollabTaskRow A V D)} (p : CollabTaskRow A V D → Bool)
        (f : CollabTaskRow A V D → CollabTaskRow A V D)
        → Theirs auth p
        → Keeps f
        → Written auth rows rows'
        → Written auth rows (update_where p f rows')
    removed :
        (p : CollabTaskRow A V D → Bool) → Theirs auth p → Written auth rows (delete_where p rows)

  pub owned-Theirs : (id : String) (auth : AuthContext) → Theirs auth (owned id auth)
  owned-Theirs id auth r h = ground (arith, str_eq_iff r.user_id auth.user_id)

  pub in_state-Theirs :
      (st : CollabState) (id : String) (auth : AuthContext) → Theirs auth (in_state st id auth)
  in_state-Theirs st id auth r h = ground (arith, str_eq_iff r.user_id auth.user_id)

  closed-Theirs :
      (now : ℕ) (id : String) (auth : AuthContext) → Theirs auth (closed_recently now id auth)
  closed-Theirs now id auth r h = ground (arith, str_eq_iff r.user_id auth.user_id)

  -- A function that leaves the turns alone.
  pub unturned :
      (f : CollabTaskRow A V D → CollabTaskRow A V D)
      → ((r : CollabTaskRow A V D) → seat (f r) ≡ record (seat r) { state = (f r).state })
      → Keeps f
  unturned f h = record {
    id_kept = λ r. ap (λ x. x.id) (h r);
    user_kept = λ r. ap (λ x. x.user_id) (h r);
    continues = λ r.
        inl
          (ap (λ x. x.transcript) (h r), ap (λ x. x.iteration) (h r), ap (λ x. x.last_actor) (h r));
  }

  pub take_turn-Keeps :
      (now : ℕ) (actor : CollabModelActor) (content : String) → Keeps (take_turn now actor content)
  unfolding take_turn
  take_turn-Keeps now actor content = record {
    id_kept = λ r. refl;
    user_kept = λ r. refl;
    continues = λ r. inr (_, refl, refl, refl, refl);
  }

  pub loaded-rows :
      (now : ℕ) (o : Option (CollabTaskRow A V D)) (s : Collab A V D)
      → (loaded now o s).1.rows ≡ s.rows
  loaded-rows now none s = refl
  loaded-rows now (some r) s = refl

  or_loaded-rows :
      (now : ℕ) (o : Option (CollabTaskRow A V D)) (s : Collab A V D)
      (t : Option (CollabTask A V D))
      → (or_loaded now o s t).1.rows ≡ s.rows
  or_loaded-rows now o s none = loaded-rows now o s
  or_loaded-rows now o s (some t) = refl

  pub get_task-rows :
      (now : ℕ) (id : String) (auth : AuthContext) (s : Collab A V D)
      → (get_task now id auth s).1.rows ≡ s.rows
  unfolding get_task
  get_task-rows now id auth s =
      or_loaded-rows now _ (record s { cache = (read_cached_task now id auth s.cache).1 })
        (read_cached_task now id auth s.cache).0

  module _ (now : ℕ) (id : String) (auth : AuthContext) where
    pub restarted-Written :
        (st : CollabState) (s : Collab A V D) (o : Option (CollabTaskRow A V D))
        → Written auth s.rows (restarted now id auth st s o).rows
    unfolding restarted restart
    restarted-Written st s none = Written.same
    restarted-Written st s (some r) =
        Written.updated (closed_recently now id auth) (restart now st) (closed-Theirs now id auth)
          (unturned (restart now st) (λ r. refl)) Written.same

    pub created-Written :
        (new : CollabTaskRow A V D) (st : CollabState) (s : Collab A V D)
        (o : Option (CollabTaskRow A V D))
        → new.user_id ≡ auth.user_id
        → new.transcript ≡ []
        → new.iteration ≡ 0
        → new.last_actor ≡ none
        → All (λ x. x.id ≢ new.id) s.rows
        → Written auth s.rows (created now new st auth s o).1.rows
    unfolding created restart
    created-Written new st s none u t i l fresh = Written.added new u t i l fresh
    created-Written new st s (some old) u t i l fresh =
        Written.updated (owned old.id auth) (restart now st) (owned-Theirs old.id auth)
          (unturned (restart now st) (λ r. refl)) Written.same

    pub attach-Written :
        {rows : List (CollabTaskRow A V D)} (d : Option D) (x : CollabTask A V D × Collab A V D)
        → Written auth rows x.1.rows
        → Written auth rows (attach_documents now id auth d x).1.rows
    unfolding attach_documents
    attach-Written none (t, s) w = w
    attach-Written (some d) (t, s) w =
        rw
          (get_task-rows now id auth (record {
            rows = update_where (owned id auth) (attach_others now d) s.rows;
            cache = invalidate_cached_task id auth s.cache;
          }))
          (Written.updated (owned id auth) (attach_others now d) (owned-Theirs id auth)
            (unturned (attach_others now d) (λ r. refl)) w)

    pub artifacts-Written :
        {rows : List (CollabTaskRow A V D)} (a : Option (Option A → A))
        (x : CollabTask A V D × Collab A V D)
        → Written auth rows x.1.rows
        → Written auth rows (save_artifacts now id auth a x).1.rows
    unfolding save_artifacts
    artifacts-Written none x w = w
    artifacts-Written (some a) x w =
        Written.updated (owned id auth) (add_artifacts now a) (owned-Theirs id auth)
          (unturned (add_artifacts now a) (λ r. refl)) w

    pub evaluation-Written :
        {rows : List (CollabTaskRow A V D)} (v : Option V) (x : CollabTask A V D × Collab A V D)
        → Written auth rows x.1.rows
        → Written auth rows (save_evaluation now id auth v x).1.rows
    unfolding save_evaluation
    evaluation-Written none x w = w
    evaluation-Written (some v) x w =
        Written.updated (owned id auth) (add_evaluation now v) (owned-Theirs id auth)
          (unturned (add_evaluation now v) (λ r. refl)) w
