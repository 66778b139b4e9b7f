-- ===== src/Collab/Turns.antt =====
-- src/services/collab.ts: the creation of a task, the claim of a turn, and the row that a turn leaves.
use tallei_ai.Common.{
  select_where, rejected, ◌&&◌, ◌+◌, [], update_where, first_where, not, resolved, ◌++◌,
  if◌then◌else◌, ◌∷◌, Option, List, Settled, ℕ, String,
}
use tallei_ai.Collab.{
  title_required, plan_required, recent, same_state, next_state_for_actor, true, assert_collab_plan,
  map_task_row, normalize_max_iterations, model, expected_state_for_actor, false, done, str_eq, ltb,
  owned, CollabTranscriptEntry, Pause, Collab, some, none, Bool, CollabError, AuthContext,
  CollabTask, CollabModelActor, CollabTaskRow, CollabState,
}
use tallei_ai.Collab.Cache.{loaded, stored, restored}

abbrev pub Answer : (A V D X : Type 0) → Type 0
Answer A V D X = Settled CollabError X × Collab A V D

abbrev pub or_empty : Option String → String
or_empty none = ""
or_empty (some b) = b

abbrev pub has_pause : Option Pause → Bool
has_pause none = false
has_pause (some p) = true

abbrev pub new_entry : ℕ → CollabModelActor → String → ℕ → CollabTranscriptEntry
new_entry now actor content n = record {
  actor = model actor;
  iteration = n;
  content = content;
  ts = now;
}

module _ {A V D : Type 0} where
  abbrev pub in_state : CollabState → String → AuthContext → CollabTaskRow A V D → Bool
  in_state st id auth r = owned id auth r && same_state r.state st

  unfoldable pub pick_latest :
      CollabTaskRow A V D → List (CollabTaskRow A V D) → CollabTaskRow A V D
  pick_latest best [] = best
  pick_latest best (r ∷ rs) = pick_latest (if ltb best.updated_at r.updated_at then r else best) rs

  -- `ORDER BY updated_at DESC LIMIT 1`
  unfoldable pub latest_row : List (CollabTaskRow A V D) → Option (CollabTaskRow A V D)
  unfolding pick_latest
  latest_row [] = none
  latest_row (r ∷ rs) = some (pick_latest r rs)

  unfoldable pub finished_twin :
      ℕ → AuthContext → (title brief : String) → CollabTaskRow A V D → Bool
  finished_twin now auth title brief r =
      str_eq r.tenant_id auth.tenant_id
      && (str_eq r.user_id auth.user_id
          && (same_state r.state done
              && (str_eq r.title title && (str_eq (or_empty r.brief) brief && recent now r))))

  unfoldable pub restart : ℕ → CollabState → CollabTaskRow A V D → CollabTaskRow A V D
  restart now st r = record r { state = st; error_message = none; updated_at = now }

  unfoldable pub new_row :
      ℕ
      → (id : String) → AuthContext
      → (title brief : String) → CollabModelActor
      → D
      → CollabTaskRow A V D
  new_row now id auth title brief first others = record {
    id = id;
    tenant_id = auth.tenant_id;
    user_id = auth.user_id;
    title = title;
    brief = if str_eq brief "" then none else some brief;
    state = expected_state_for_actor first;
    last_actor = none;
    iteration = 0;
    max_iterations = normalize_max_iterations;
    context = record { pause = none; artifacts = none; others = others };
    transcript = [];
    error_message = none;
    created_at = now;
    updated_at = now;
  }

  unfoldable pub created :
      ℕ
      → CollabTaskRow A V D
      → CollabState
      → AuthContext
      → Collab A V D
      → Option (CollabTaskRow A V D)
      → Answer A V D (CollabTask A V D)
  created now new st auth s none = (
    resolved (map_task_row new),
    stored now (map_task_row new) (record s { rows = s.rows ++ new ∷ [] }),
  )
  created now new st auth s (some old) =
      let task = map_task_row (restart now st old) in
      (
        resolved task,
        restored now old.id auth task
            (record s { rows = update_where (owned old.id auth) (restart now st) s.rows }),
      )

  -- `id` is the one that the database makes up for a new row.
  unfoldable pub create_task :
      ℕ
      → (id title brief : String) → CollabModelActor
      → D
      → AuthContext
      → Collab A V D
      → Answer A V D (CollabTask A V D)
  unfolding created latest_row
  create_task now id title brief first others auth s =
      if not (assert_collab_plan auth.plan)
      then (rejected plan_required, s)
      else if str_eq title ""
      then (rejected title_required, s)
      else created now (new_row now id auth title brief first others)
          (expected_state_for_actor first) auth s
          (latest_row (select_where (finished_twin now auth title brief) s.rows))

  abbrev pub closed_recently : ℕ → String → AuthContext → CollabTaskRow A V D → Bool
  closed_recently now id auth r = in_state done id auth r && recent now r

  unfoldable pub restarted :
      ℕ
      → String
      → AuthContext
      → CollabState
      → Collab A V D
      → Option (CollabTaskRow A V D)
      → Collab A V D
  restarted now id auth st s none = s
  restarted now id auth st s (some r) =
      restored now id auth (map_task_row (restart now st r))
        (record s { rows = update_where (closed_recently now id auth) (restart now st) s.rows })

  unfoldable pub maybe_restart_done_task :
      ℕ → String → AuthContext → CollabState → Collab A V D → Collab A V D
  unfolding restarted
  maybe_restart_done_task now id auth st s =
      restarted now id auth st s (first_where (closed_recently now id auth) s.rows)

  abbrev pub unpause : ℕ → CollabTaskRow A V D → CollabTaskRow A V D
  unpause now r = record r { context = record r.context { pause = none }; updated_at = now }

  unfoldable pub clear_pause : ℕ → String → AuthContext → Collab A V D → Collab A V D
  clear_pause now id auth s = record s {
    rows = update_where (λ r. owned id auth r && has_pause r.context.pause) (unpause now) s.rows;
  }

  unfoldable pub claim_turn :
      ℕ
      → String
      → CollabModelActor
      → AuthContext
      → Collab A V D
      → Answer A V D (Option (CollabTask A V D))
  unfolding maybe_restart_done_task clear_pause
  claim_turn now id actor auth s =
      let st = expected_state_for_actor actor in
      let s' = clear_pause now id auth (maybe_restart_done_task now id auth st s) in
      let (task, s'') = loaded now (first_where (in_state st id auth) s'.rows) s' in
      if assert_collab_plan auth.plan then (resolved task, s'') else (rejected plan_required, s)

  unfoldable pub take_turn :
      ℕ → CollabModelActor → String → CollabTaskRow A V D → CollabTaskRow A V D
  take_turn now actor content r = record r {
    transcript = r.transcript ++ new_entry now actor content (r.iteration + 1) ∷ [];
    state = next_state_for_actor actor;
    context = record r.context {
      pause = some (record { paused = true; paused_after_actor = actor; paused_at = now });
    };
    last_actor = some (model actor);
    iteration = r.iteration + 1;
    error_message = none;
    updated_at = now;
  }
