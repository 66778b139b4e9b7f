-- ===== src/Collab/Submit.antt =====
-- src/services/collab.ts: the submission of a turn, the end of a task, and its deletion. What the
-- program makes of the content of a turn, that is, the documents it refers to, its artifacts and its
-- evaluation, comes in with the turn, as what is to be written, if anything.
use mathlib.Core.Option
use tallei_ai.Common.{
  none, delete_where, ◌&&◌, not, resolved, rejected, first_where, ◌∷◌, ◌||◌, if◌then◌else◌,
  update_where, ◌++◌, [], Bool, ℕ, String,
}
use mathlib.Core.Option.{some, Option}
use tallei_ai.Collab.{
  error, content_required, expected_state_for_actor, str_eq, turn_conflict, plan_required,
  not_found, assert_collab_plan, owned, true, map_task_row, done, Collab, false, CollabArtifacts,
  CollabModelActor, CollabTask, CollabState, CollabTaskRow, AuthContext,
}
use tallei_ai.Collab.Turns.{take_turn, in_state, Answer}
use tallei_ai.Collab.Cache.{restored, invalidate_cached_task, get_task}

-- `COALESCE(context->'artifacts', '{}') || new`: `merge` is what the new keys make of the old ones.
abbrev pub with_latest :
    {A V : Type 0} → (merge : Option A → A) → Option (CollabArtifacts A V) → CollabArtifacts A V
with_latest merge none = record { latest = some (merge none); evaluations = [] }
with_latest merge (some old) = record old { latest = some (merge old.latest) }

-- `jsonb_set` on the path `{artifacts,evaluations}` changes nothing where there are no artifacts
abbrev pub with_evaluation :
    {A V : Type 0} → V → Option (CollabArtifacts A V) → Option (CollabArtifacts A V)
with_evaluation v none = none
with_evaluation v (some old) = some (record old { evaluations = old.evaluations ++ v ∷ [] })

abbrev pub says : {V : Type 0} → (V → Bool) → Option V → Bool
says f none = false
says f (some v) = f v

abbrev pub keep_or : Option String → Option String → Option String
keep_or reason old = elim reason [ none ↦ old | some x ↦ if str_eq x "" then old else some x ]

abbrev pub is_live : CollabState → Bool
is_live done = false
is_live error = false
is_live _ = true

-- What a submitted turn comes with.
pub record Turn (A V D : Type 0) : Type 0 where
  pub actor : CollabModelActor
  pub content : String
  pub mark_done : Bool
  pub documents : Option D
  -- what the merge of its artifacts makes of the old ones
  pub artifacts : Option (Option A → A)
  pub evaluation : Option V

module _ {A V D : Type 0} where
  abbrev pub or_task : CollabTask A V D → Option (CollabTask A V D) → CollabTask A V D
  or_task t none = t
  or_task t (some t') = t'

  abbrev pub attach_others : ℕ → D → CollabTaskRow A V D → CollabTaskRow A V D
  attach_others now d r = record r { context = record r.context { others = d }; updated_at = now }

  -- the context of the documents is written, the task is forgotten and read again
  unfoldable pub attach_documents :
      ℕ
      → String
      → AuthContext
      → Option D
      → CollabTask A V D × Collab A V D
      → CollabTask A V D × Collab A V D
  attach_documents now id auth none (t, s) = (t, s)
  attach_documents now id auth (some d) (t, s) =
      let s' : Collab A V D = record {
        rows = update_where (owned id auth) (attach_others now d) s.rows;
        cache = invalidate_cached_task id auth s.cache;
      } in
      let (t', s'') = get_task now id auth s' in (or_task t t', s'')

  -- An update of a task's own row, and the task that it returns.
  abbrev pub rewrite_task :
      String
      → AuthContext
      → (CollabTaskRow A V D → CollabTaskRow A V D)
      → CollabTask A V D × Collab A V D
      → CollabTask A V D × Collab A V D
  rewrite_task id auth f (t, s) = (
    or_task t (Option.map (λ r. map_task_row (f r)) (first_where (owned id auth) s.rows)),
    record s { rows = update_where (owned id auth) f s.rows },
  )

  unfoldable pub add_artifacts : ℕ → (Option A → A) → CollabTaskRow A V D → CollabTaskRow A V D
  add_artifacts now a r = record r {
    context = record r.context { artifacts = some (with_latest a r.context.artifacts) };
    updated_at = now;
  }

  unfoldable pub add_evaluation : ℕ → V → CollabTaskRow A V D → CollabTaskRow A V D
  add_evaluation now v r = record r {
    context = record r.context { artifacts = with_evaluation v r.context.artifacts };
    updated_at = now;
  }

  unfoldable pub save_artifacts :
      ℕ
      → String
      → AuthContext
      → Option (Option A → A)
      → CollabTask A V D × Collab A V D
      → CollabTask A V D × Collab A V D
  unfolding add_artifacts
  save_artifacts now id auth none x = x
  save_artifacts now id auth (some a) x = rewrite_task id auth (add_artifacts now a) x

  unfoldable pub save_evaluation :
      ℕ
      → String
      → AuthContext
      → Option V
      → CollabTask A V D × Collab A V D
      → CollabTask A V D × Collab A V D
  unfolding add_evaluation
  save_evaluation now id auth none x = x
  save_evaluation now id auth (some v) x = rewrite_task id auth (add_evaluation now v) x

  unfoldable pub finish_row : ℕ → Option String → CollabTaskRow A V D → CollabTaskRow A V D
  finish_row now reason r = record r {
    state = done;
    error_message = keep_or reason r.error_message;
    updated_at = now;
  }

  unfoldable pub finished :
      ℕ
      → String
      → Option String
      → AuthContext
      → Collab A V D
      → Option (CollabTaskRow A V D)
      → Answer A V D (CollabTask A V D)
  finished now id reason auth s none = (rejected not_found, s)
  finished now id reason auth s (some r) =
      let task = map_task_row (finish_row now reason r) in
      (
        resolved task,
        restored now id auth task
            (record s { rows = update_where (owned id auth) (finish_row now reason) s.rows }),
      )

  unfoldable pub finish_task :
      ℕ → String → AuthContext → Option String → Collab A V D → Answer A V D (CollabTask A V D)
  unfolding finished
  finish_task now id auth reason s =
      if assert_collab_plan auth.plan
      then finished now id reason auth s (first_where (owned id auth) s.rows)
      else (rejected plan_required, s)

  abbrev pub or_before :
      CollabTask A V D × Collab A V D
      → Answer A V D (CollabTask A V D)
      → CollabTask A V D × Collab A V D
  or_before x (resolved t, s) = (t, s)
  or_before x (rejected e, s) = x

  unfoldable pub auto_finish :
      ℕ
      → String
      → AuthContext
      → Bool
      → CollabTask A V D × Collab A V D
      → CollabTask A V D × Collab A V D
  unfolding finish_task
  auto_finish now id auth marked (t, s) =
      if marked && is_live t.row.state
      then or_before (t, s) (finish_task now id auth (some "Auto-finished: turn marked done.") s)
      else (t, s)

  -- what follows the update that takes the turn
  unfoldable pub after_turn :
      ℕ
      → String
      → (V → Bool)
      → AuthContext
      → Turn A V D
      → CollabTask A V D × Collab A V D
      → CollabTask A V D × Collab A V D
  unfolding attach_documents save_artifacts save_evaluation auto_finish
  after_turn now id should_mark_done auth turn x =
      auto_finish now id auth (turn.mark_done || says should_mark_done turn.evaluation) (
        save_evaluation now id auth turn.evaluation (
          save_artifacts now id auth turn.artifacts
            (attach_documents now id auth turn.documents x)))

  unfoldable pub submitted :
      ℕ
      → String
      → (V → Bool)
      → AuthContext
      → Turn A V D
      → Collab A V D
      → Option (CollabTaskRow A V D)
      → Answer A V D (CollabTask A V D)
  unfolding after_turn
  submitted now id should_mark_done auth turn s none = (rejected turn_conflict, s)
  submitted now id should_mark_done auth turn s (some r) =
      let mine = in_state (expected_state_for_actor turn.actor) id auth in
      let turned = take_turn now turn.actor turn.content in
      let (t, s') =
        after_turn now id should_mark_done auth turn
          (map_task_row (turned r), record s { rows = update_where mine turned s.rows }) in
      (resolved t, restored now id auth t s')

  unfoldable pub submit_turn :
      ℕ
      → String
      → (V → Bool)
      → AuthContext
      → Turn A V D
      → Collab A V D
      → Answer A V D (CollabTask A V D)
  unfolding submitted
  submit_turn now id should_mark_done auth turn s =
      if not (assert_collab_plan auth.plan)
      then (rejected plan_required, s)
      else if str_eq turn.content ""
      then (rejected content_required, s)
      else submitted now id should_mark_done auth turn s
          (first_where (in_state (expected_state_for_actor turn.actor) id auth) s.rows)

  abbrev pub found : Option (CollabTask A V D) × Collab A V D → Answer A V D (CollabTask A V D)
  found (none, s) = (rejected not_found, s)
  found (some t, s) = (resolved t, s)

  -- the number of iterations to add is ignored
  unfoldable pub extend_iterations :
      ℕ → String → AuthContext → Collab A V D → Answer A V D (CollabTask A V D)
  extend_iterations now id auth s =
      if assert_collab_plan auth.plan
      then found (get_task now id auth s)
      else (rejected plan_required, s)

  unfoldable pub deleted :
      String → AuthContext → Collab A V D → Option (CollabTaskRow A V D) → Answer A V D (Unit {0})
  deleted id auth s none = (rejected not_found, s)
  deleted id auth s (some r) = (
    resolved tt,
    record {
      rows = delete_where (owned id auth) s.rows;
      cache = invalidate_cached_task id auth s.cache;
    },
  )

  unfoldable pub delete_task : String → AuthContext → Collab A V D → Answer A V D (Unit {0})
  unfolding deleted
  delete_task id auth s =
      if assert_collab_plan auth.plan
      then deleted id auth s (first_where (owned id auth) s.rows)
      else (rejected plan_required, s)

  -- `attachUploadedFilesToTaskContext`, with what it writes as the documents of the context, if there is
  -- anything to write
  unfoldable pub attach_uploaded_files_to_task_context :
      ℕ → String → AuthContext → Option D → Collab A V D → Collab A V D
  attach_uploaded_files_to_task_context now id auth none s = s
  attach_uploaded_files_to_task_context now id auth (some d) s =
      if assert_collab_plan auth.plan
      then (record {
        rows = update_where (owned id auth) (attach_others now d) s.rows;
        cache = invalidate_cached_task id auth s.cache;
      })
      else s

  unfoldable pub add_plan : ℕ → (Option A → A) → (D → D) → CollabTaskRow A V D → CollabTaskRow A V D
  add_plan now merge session r = record r {
    context = record r.context {
      artifacts = some (with_latest merge r.context.artifacts);
      others = session r.context.others;
    };
    updated_at = now;
  }

  abbrev pub planned :
      ℕ → String → AuthContext → Option (CollabTaskRow A V D) → Collab A V D → Collab A V D
  planned now id auth none s = s
  planned now id auth (some r) s = (get_task now id auth s).1

  -- `attachPlanToTaskContext` of the orchestrator: the plan goes into the artifacts, and `session` puts the
  -- id of its session into the context.
  unfoldable pub attach_plan_to_task_context :
      ℕ → String → AuthContext → (Option A → A) → (D → D) → Collab A V D → Collab A V D
  unfolding add_plan
  attach_plan_to_task_context now id auth merge session s =
      planned now id auth (first_where (owned id auth) s.rows)
        (record s { rows = update_where (owned id auth) (add_plan now merge session) s.rows })
