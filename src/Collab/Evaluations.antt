-- ===== src/Collab/Evaluations.antt =====
-- The evaluation of a turn, where the task has no artifacts.
use tallei_ai.Common.{
  ◌⊎◌, ◌∙◌, inl, refl, inr, rejected, All-update_where, resolved, update_where, ◌&&◌, none, ◌≡◌,
  Bool-cases, All, ℕ, String,
}
use tallei_ai.Collab.{
  false, str_eq, map_task_row, expected_state_for_actor, assert_collab_plan, some, owned, Collab,
  Option, Bool, CollabTask, CollabTaskRow, List, AuthContext,
}
use tallei_ai.Collab.Submit.{
  is_live, or_before, attach_others, Turn, save_artifacts, finish_task, finish_row, add_evaluation,
  after_turn, save_evaluation, finished, auto_finish, submit_turn, attach_documents, submitted,
}
use tallei_ai.Collab.Turns.{in_state, Answer, take_turn}
use tallei_ai.Collab.Writes.{get_task-rows}
use tallei_ai.Collab.Cache.{invalidate_cached_task}

module _ {A V D : Type 0} (now : ℕ) (id : String) (auth : AuthContext) where
  -- The rows of the task have no artifacts.
  abbrev pub Bare : List (CollabTaskRow A V D) → Type 0
  Bare rows = All (λ r. (owned id auth r ≡ false) ⊎ (r.context.artifacts ≡ none)) rows

  update-Bare :
      (p : CollabTaskRow A V D → Bool) (f : CollabTaskRow A V D → CollabTaskRow A V D)
      (rows : List (CollabTaskRow A V D))
      → ((r : CollabTaskRow A V D) → owned id auth (f r) ≡ owned id auth r)
      → ((r : CollabTaskRow A V D) → r.context.artifacts ≡ none → (f r).context.artifacts ≡ none)
      → Bare rows
      → Bare (update_where p f rows)
  update-Bare p f rows same keeps h =
      All-update_where (λ r. (owned id auth r ≡ false) ⊎ (r.context.artifacts ≡ none)) p f rows
        (λ r bare _. still r (same r) (keeps r) bare) h
    where
      still :
          (r : CollabTaskRow A V D)
          → owned id auth (f r) ≡ owned id auth r
          → (r.context.artifacts ≡ none → (f r).context.artifacts ≡ none)
          → (owned id auth r ≡ false) ⊎ (r.context.artifacts ≡ none)
          → (owned id auth (f r) ≡ false) ⊎ ((f r).context.artifacts ≡ none)
      still r e k (inl other) = inl (e ∙ other)
      still r e k (inr bare) = inr (k bare)

  attach-Bare :
      (d : Option D) (x : CollabTask A V D × Collab A V D)
      → Bare x.1.rows
      → Bare (attach_documents now id auth d x).1.rows
  unfolding attach_documents
  attach-Bare none (t, s) h = h
  attach-Bare (some d) (t, s) h =
      let f = attach_others now d in
      let rows = update_where (owned id auth) f s.rows in
      rw
        (get_task-rows now id auth
          (record { rows = rows; cache = invalidate_cached_task id auth s.cache }))
        (update-Bare (owned id auth) f s.rows (λ r. refl) (λ r e. e) h)

  evaluation-Bare :
      (v : Option V) (x : CollabTask A V D × Collab A V D)
      → Bare x.1.rows
      → Bare (save_evaluation now id auth v x).1.rows
  unfolding save_evaluation add_evaluation
  evaluation-Bare none x h = h
  evaluation-Bare (some v) x h =
      update-Bare (owned id auth) (add_evaluation now v) x.1.rows (λ r. refl) (λ r e. rw e refl) h

  finished-Bare :
      (reason : Option String) (s : Collab A V D) (o : Option (CollabTaskRow A V D))
      → Bare s.rows
      → Bare (finished now id reason auth s o).1.rows
  unfolding finished finish_row
  finished-Bare reason s none h = h
  finished-Bare reason s (some r) h =
      update-Bare (owned id auth) (finish_row now reason) s.rows (λ r. refl) (λ r e. e) h

  or_before-Bare :
      (x : CollabTask A V D × Collab A V D) (a : Answer A V D (CollabTask A V D))
      → Bare x.1.rows
      → Bare a.1.rows
      → Bare (or_before x a).1.rows
  or_before-Bare x (resolved t, s) h k = k
  or_before-Bare x (rejected e, s) h k = h

  finish_task-Bare :
      (reason : Option String) (s : Collab A V D)
      → Bare s.rows
      → Bare (finish_task now id auth reason s).1.rows
  unfolding finish_task
  finish_task-Bare reason s h = elim (Bool-cases (assert_collab_plan auth.plan)) [
    | inr poor ↦ rw poor h
    | inl rich ↦ rw rich (finished-Bare reason s _ h)
  ]

  auto_finish-Bare :
      (marked : Bool) (x : CollabTask A V D × Collab A V D)
      → Bare x.1.rows
      → Bare (auto_finish now id auth marked x).1.rows
  unfolding auto_finish
  auto_finish-Bare marked (t, s) h = elim (Bool-cases (marked && is_live t.row.state)) [
    | inr not_yet ↦ rw not_yet h
    | inl ends ↦
        let reason = some "Auto-finished: turn marked done." in
        rw ends
          (or_before-Bare (t, s) (finish_task now id auth reason s) h (finish_task-Bare reason s h))
  ]

  after_turn-Bare :
      (smd : V → Bool) (turn : Turn A V D) (x : CollabTask A V D × Collab A V D)
      → turn.artifacts ≡ none
      → Bare x.1.rows
      → Bare (after_turn now id smd auth turn x).1.rows
  unfolding after_turn save_artifacts
  after_turn-Bare smd turn x none_new h =
      let attached = attach_documents now id auth turn.documents x in
      rw none_new (
        auto_finish-Bare _ (save_evaluation now id auth turn.evaluation attached)
          (evaluation-Bare turn.evaluation attached (attach-Bare turn.documents x h)))

  submitted-Bare :
      (smd : V → Bool) (turn : Turn A V D) (s : Collab A V D) (o : Option (CollabTaskRow A V D))
      → turn.artifacts ≡ none
      → Bare s.rows
      → Bare (submitted now id smd auth turn s o).1.rows
  unfolding submitted take_turn
  submitted-Bare smd turn s none none_new h = h
  submitted-Bare smd turn s (some r) none_new h =
      let turned = take_turn now turn.actor turn.content in
      let mine = in_state (expected_state_for_actor turn.actor) id auth in
      after_turn-Bare smd turn
        (map_task_row (turned r), record s { rows = update_where mine turned s.rows }) none_new
        (update-Bare mine turned s.rows (λ r. refl) (λ r e. e) h)

  -- A turn without artifacts, on a task that has none, leaves it without artifacts: the evaluation
  -- that comes with the turn, if any, is stored nowhere.
  pub submit_turn-Bare :
      (should_mark_done : V → Bool) (turn : Turn A V D) (s : Collab A V D)
      → turn.artifacts ≡ none
      → Bare s.rows
      → Bare (submit_turn now id should_mark_done auth turn s).1.rows
  unfolding submit_turn
  submit_turn-Bare smd turn s none_new h = elim (Bool-cases (assert_collab_plan auth.plan)) [
    | inr poor ↦ rw poor h
    | inl rich ↦ elim (Bool-cases (str_eq turn.content "")) [
      | inl blank ↦ rw (rich, blank) h
      | inr text ↦ rw (rich, text) (submitted-Bare smd turn s _ none_new h)
    ]
  ]
