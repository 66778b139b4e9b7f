-- ===== src/Collab/Effects.antt =====
-- What each request writes to the table.
use tallei_ai.Common.{
  update_where, ◌∙◌, first_where, str_eq_iff, arith, inl, refl, rejected, inr, none, ◌&&◌, ◌≢◌,
  resolved, All, Bool-cases, ◌≡◌, ℕ, String,
}
use tallei_ai.Collab.Requests.{Fits, Request, handle}
use tallei_ai.Collab.{
  map_task_row, str_eq, expected_state_for_actor, assert_collab_plan, some, owned, CollabModelActor,
  Collab, CollabTask, CollabTaskRow, Bool, Option, List, AuthContext,
}
use tallei_ai.Collab.Submit.{
  add_plan, attach_others, attach_plan_to_task_context, planned,
  attach_uploaded_files_to_task_context, save_evaluation, save_artifacts, attach_documents, is_live,
  or_before, found, Turn, after_turn, finish_row, delete_task, auto_finish, extend_iterations,
  finish_task, deleted, finished, submit_turn, submitted,
}
use tallei_ai.Collab.Turns.{
  closed_recently, take_turn, in_state, unpause, has_pause, Answer, new_row,
  maybe_restart_done_task, claim_turn, clear_pause, create_task,
}
use tallei_ai.Collab.Writes.{
  take_turn-Keeps, in_state-Theirs, restarted-Written, created-Written, attach-Written, loaded-rows,
  artifacts-Written, evaluation-Written, unturned, owned-Theirs, get_task-rows, Written,
}
use tallei_ai.Collab.Cache.{get_task}

module _ {A V D : Type 0} (now : ℕ) (id : String) (auth : AuthContext) where
  cleared-Written :
      {rows : List (CollabTaskRow A V D)} (s : Collab A V D)
      → Written auth rows s.rows
      → Written auth rows (clear_pause now id auth s).rows
  unfolding clear_pause
  cleared-Written s w =
      Written.updated (λ r. owned id auth r && has_pause r.context.pause) (unpause now)
        (λ r h. ground (arith, str_eq_iff r.user_id auth.user_id))
        (unturned (unpause now) (λ r. refl)) w

  claim_turn-Written :
      (actor : CollabModelActor) (s : Collab A V D)
      → Written auth s.rows (claim_turn now id actor auth s).1.rows
  unfolding claim_turn maybe_restart_done_task
  claim_turn-Written actor s = elim (Bool-cases (assert_collab_plan auth.plan)) [
    | inr poor ↦ rw poor Written.same
    | inl rich ↦
        let st = expected_state_for_actor actor in
        let s' = clear_pause now id auth (maybe_restart_done_task now id auth st s) in
        rw (rich, loaded-rows now (first_where (in_state st id auth) s'.rows) s')
          (cleared-Written (maybe_restart_done_task now id auth st s)
            (restarted-Written now id auth st s (first_where (closed_recently now id auth) s.rows)))
  ]

  finished-Written :
      {rows : List (CollabTaskRow A V D)} (reason : Option String) (s : Collab A V D)
      (o : Option (CollabTaskRow A V D))
      → Written auth rows s.rows
      → Written auth rows (finished now id reason auth s o).1.rows
  unfolding finished finish_row
  finished-Written reason s none w = w
  finished-Written reason s (some r) w =
      Written.updated (owned id auth) (finish_row now reason) (owned-Theirs id auth)
        (unturned (finish_row now reason) (λ r. refl)) w

  finish_task-Written :
      {rows : List (CollabTaskRow A V D)} (reason : Option String) (s : Collab A V D)
      → Written auth rows s.rows
      → Written auth rows (finish_task now id auth reason s).1.rows
  unfolding finish_task
  finish_task-Written reason s w = elim (Bool-cases (assert_collab_plan auth.plan)) [
    | inr poor ↦ rw poor w
    | inl rich ↦ rw rich (finished-Written reason s _ w)
  ]

  or_before-Written :
      {rows : List (CollabTaskRow A V D)} (x : CollabTask A V D × Collab A V D)
      (a : Answer A V D (CollabTask A V D))
      → Written auth rows x.1.rows
      → Written auth rows a.1.rows
      → Written auth rows (or_before x a).1.rows
  or_before-Written x (resolved t, s) w v = v
  or_before-Written x (rejected e, s) w v = w

  auto_finish-Written :
      {rows : List (CollabTaskRow A V D)} (marked : Bool) (x : CollabTask A V D × Collab A V D)
      → Written auth rows x.1.rows
      → Written auth rows (auto_finish now id auth marked x).1.rows
  unfolding auto_finish
  auto_finish-Written marked (t, s) w = elim (Bool-cases (marked && is_live t.row.state)) [
    | inr not_yet ↦ rw not_yet w
    | inl ends ↦ rw ends (
        or_before-Written (t, s) _ w
          (finish_task-Written (some "Auto-finished: turn marked done.") s w))
  ]

  after_turn-Written :
      {rows : List (CollabTaskRow A V D)} (smd : V → Bool) (turn : Turn A V D)
      (x : CollabTask A V D × Collab A V D)
      → Written auth rows x.1.rows
      → Written auth rows (after_turn now id smd auth turn x).1.rows
  unfolding after_turn
  after_turn-Written smd turn x w =
      let attached = attach_documents now id auth turn.documents x in
      let saved = save_artifacts now id auth turn.artifacts attached in
      auto_finish-Written _ (save_evaluation now id auth turn.evaluation saved) (
        evaluation-Written now id auth turn.evaluation saved (
          artifacts-Written now id auth turn.artifacts attached
            (attach-Written now id auth turn.documents x w)))

  submitted-Written :
      (smd : V → Bool) (turn : Turn A V D) (s : Collab A V D) (o : Option (CollabTaskRow A V D))
      → Written auth s.rows (submitted now id smd auth turn s o).1.rows
  unfolding submitted
  submitted-Written smd turn s none = Written.same
  submitted-Written smd turn s (some r) =
      let st = expected_state_for_actor turn.actor in
      let turned = take_turn now turn.actor turn.content in
      after_turn-Written smd turn
        (
          map_task_row (turned r),
          record s { rows = update_where (in_state st id auth) turned s.rows },
        )
        (Written.updated (in_state st id auth) turned (in_state-Theirs st id auth)
          (take_turn-Keeps now turn.actor turn.content) Written.same)

  submit_turn-Written :
      (smd : V → Bool) (turn : Turn A V D) (s : Collab A V D)
      → Written auth s.rows (submit_turn now id smd auth turn s).1.rows
  unfolding submit_turn
  submit_turn-Written smd turn s = elim (Bool-cases (assert_collab_plan auth.plan)) [
    | inr poor ↦ rw poor Written.same
    | inl rich ↦ elim (Bool-cases (str_eq turn.content "")) [
      | inl blank ↦ rw (rich, blank) Written.same
      | inr text ↦ rw (rich, text) (submitted-Written smd turn s _)
    ]
  ]

  found-rows : (x : Option (CollabTask A V D) × Collab A V D) → (found x).1.rows ≡ x.1.rows
  found-rows (none, s) = refl
  found-rows (some t, s) = refl

  extend_iterations-rows : (s : Collab A V D) → (extend_iterations now id auth s).1.rows ≡ s.rows
  unfolding extend_iterations
  extend_iterations-rows s = elim (Bool-cases (assert_collab_plan auth.plan)) [
    | inr poor ↦ rw poor refl
    | inl rich ↦ rw rich (found-rows (get_task now id auth s) ∙ get_task-rows now id auth s)
  ]

  deleted-Written :
      (s : Collab A V D) (o : Option (CollabTaskRow A V D))
      → Written auth s.rows (deleted id auth s o).1.rows
  unfolding deleted
  deleted-Written s none = Written.same
  deleted-Written s (some r) = Written.removed (owned id auth) (owned-Theirs id auth)

  delete_task-Written : (s : Collab A V D) → Written auth s.rows (delete_task id auth s).1.rows
  unfolding delete_task
  delete_task-Written s = elim (Bool-cases (assert_collab_plan auth.plan)) [
    | inr poor ↦ rw poor Written.same
    | inl rich ↦ rw rich (deleted-Written s _)
  ]

  attached-Written :
      (documents : Option D) (s : Collab A V D)
      → Written auth s.rows (attach_uploaded_files_to_task_context now id auth documents s).rows
  unfolding attach_uploaded_files_to_task_context
  attached-Written none s = Written.same
  attached-Written (some d) s = elim (Bool-cases (assert_collab_plan auth.plan)) [
    | inr poor ↦ rw poor Written.same
    | inl rich ↦ rw rich (
        Written.updated (owned id auth) (attach_others now d) (owned-Theirs id auth)
          (unturned (attach_others now d) (λ r. refl)) Written.same)
  ]

  planned-rows :
      (o : Option (CollabTaskRow A V D)) (s : Collab A V D)
      → (planned now id auth o s).rows ≡ s.rows
  planned-rows none s = refl
  planned-rows (some r) s = get_task-rows now id auth s

  plan-Written :
      (merge : Option A → A) (session : D → D) (s : Collab A V D)
      → Written auth s.rows (attach_plan_to_task_context now id auth merge session s).rows
  unfolding attach_plan_to_task_context add_plan
  plan-Written merge session s = rw (planned-rows (first_where (owned id auth) s.rows) _) (
      Written.updated (owned id auth) (add_plan now merge session) (owned-Theirs id auth)
        (unturned (add_plan now merge session) (λ r. refl)) Written.same)

  create_task-Written :
      (title brief : String) (first : CollabModelActor) (others : D) (s : Collab A V D)
      → All (λ r. r.id ≢ id) s.rows
      → Written auth s.rows (create_task now id title brief first others auth s).1.rows
  unfolding create_task new_row
  create_task-Written title brief first others s fresh =
      elim (Bool-cases (assert_collab_plan auth.plan)) [
        | inr poor ↦ rw poor Written.same
        | inl rich ↦ elim (Bool-cases (str_eq title "")) [
          | inl blank ↦ rw (rich, blank) Written.same
          | inr text ↦
              rw (rich, text)
                (created-Written now id auth (new_row now id auth title brief first others)
                  (expected_state_for_actor first) s _ refl refl refl refl fresh)
        ]
      ]

pub handle-Written :
    {A V D : Type 0} (smd : V → Bool) (now : ℕ) (auth : AuthContext) (q : Request A V D)
    (s : Collab A V D)
    → Fits smd s q
    → Written auth s.rows (handle smd now auth q s).rows
unfolding handle
handle-Written smd now auth (Request.creating id title brief first others) s fresh =
    create_task-Written now id auth title brief first others s fresh
handle-Written smd now auth (Request.getting id) s _ = rw (get_task-rows now id auth s) Written.same
handle-Written smd now auth (Request.claiming id actor) s _ = claim_turn-Written now id auth actor s
handle-Written smd now auth (Request.submitting id turn) s _ =
    submit_turn-Written now id auth smd turn s
handle-Written smd now auth (Request.finishing id reason) s _ =
    finish_task-Written now id auth reason s Written.same
handle-Written smd now auth (Request.extending id) s _ =
    rw (extend_iterations-rows now id auth s) Written.same
handle-Written smd now auth (Request.deleting id) s _ = delete_task-Written now id auth s
handle-Written smd now auth (Request.attaching id documents) s _ =
    attached-Written now id auth documents s
handle-Written smd now auth (Request.planning id merge session) s _ =
    plan-Written now id auth merge session s
