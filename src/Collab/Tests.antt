-- ===== src/Collab/Tests.antt =====
-- A task that two models work on, and the theorems on it. Artifacts are a text, an evaluation is
-- whether it says that the task is done, and the rest of a context is a number.
use mathlib.Core.List.{List, map, []}
use mathlib.Core.Option
use tallei_ai.Common.{
  update_where, delete_where, select_where, str_eq_iff, first_where, refl, ◌+◌, inr, leb,
  if◌then◌else◌, ◌∷◌, All, ◌≡◌, Distinct, ℕ, String,
}
use tallei_ai.Collab.{
  active, next_state_for_actor, expected_state_for_actor, assert_collab_plan, owned, done, true,
  creative, false, chatgpt, free, pro, Bool, AuthContext, CollabTaskRow, map_task_row, Collab,
}
use tallei_ai.Collab.Requests.{Request, Run, handle}
use tallei_ai.Collab.Submit.{finish_row, finish_task, submit_turn, Turn}
use tallei_ai.Collab.Isolation.{handle-others_of, others_of}
use tallei_ai.Collab.Evaluations.{submit_turn-Bare, Bare}
use tallei_ai.Collab.Submission.{submit_turn_lem, SubmitSpec}
use tallei_ai.Collab.Cache.{invalidate_cached_task, read_cached_task, write_cached_task, get_task}
use tallei_ai.Collab.Turns.{take_turn, new_row, create_task}
use mathlib.Core.Option.{some, none}
use tallei_ai.Collab.Numbering.{history-IsNumbered, IsNumbered}
use tallei_ai.Collab.Caching.{get_task-write_cached_task}
use tallei_ai.Collab.Listing.{list_tasks-IsListing, IsListing, list_tasks}

abbrev Board3 : Type 0
Board3 = Collab String Bool ℕ

abbrev ann : AuthContext
ann = record { tenant_id = "t"; user_id = "ann"; plan = pro }

abbrev bob : AuthContext
bob = record { tenant_id = "t"; user_id = "bob"; plan = free }

abbrev the_task : Request String Bool ℕ
the_task = Request.creating "task" "Launch" "" chatgpt 0

abbrev first_turn : Turn String Bool ℕ
first_turn = record {
  actor = chatgpt;
  content = "A plan.";
  mark_done = false;
  documents = some 1;
  artifacts = none;
  evaluation = some true;
}

abbrev empty : Board3
empty = record { rows = []; cache = [] }

abbrev created_state : Board3
created_state = handle (λ v. v) 10 ann the_task empty

abbrev turned_state : Board3
turned_state = handle (λ v. v) 20 ann (Request.submitting "task" first_turn) created_state

two_requests : Run (λ v. v) turned_state
two_requests =
    Run.step 20 ann (Request.submitting "task" first_turn) tt
      (Run.step 10 ann the_task tt Run.start)

history-IsNumbered_example :
    Distinct (λ (r : CollabTaskRow String Bool ℕ). r.id) turned_state.rows
    × All IsNumbered turned_state.rows
history-IsNumbered_example = history-IsNumbered (λ v. v) two_requests

-- The evaluation says that the task is done.
ends_the_task : map (λ (r : CollabTaskRow String Bool ℕ). r.state) turned_state.rows ≡ done ∷ []
unfolding handle create_task submit_turn finish_task get_task read_cached_task write_cached_task
    assert_collab_plan first_where select_where new_row expected_state_for_actor
    invalidate_cached_task delete_where map_task_row update_where take_turn next_state_for_actor
    finish_row
ends_the_task = refl

submit_turn_lem_example :
    SubmitSpec 20 "task" ann
      (λ v. v)
      first_turn
      created_state
      (submit_turn 20 "task" (λ v. v) ann first_turn created_state)
submit_turn_lem_example =
    submit_turn_lem 20 "task" ann (λ v. v) first_turn created_state
      (history-IsNumbered (λ v. v) (Run.step 10 ann the_task tt Run.start)).0

handle-others_of_example :
    others_of "ann" (handle (λ v. v) 30 bob (Request.deleting "task") turned_state).rows
    ≡ others_of "ann" turned_state.rows
handle-others_of_example =
    handle-others_of (λ v. v) 30 bob (Request.deleting "task") turned_state "ann" tt
      (λ e. let t : false ≡ true = (str_eq_iff "ann" "bob").1 e in cc)

abbrev a_row : CollabTaskRow String Bool ℕ
a_row = record {
  id = "task";
  tenant_id = "t";
  user_id = "ann";
  title = "Launch";
  brief = none;
  state = creative;
  last_actor = none;
  iteration = 0;
  max_iterations = 9_999;
  context = record { pause = none; artifacts = none; others = 0 };
  transcript = [];
  error_message = none;
  created_at = 10;
  updated_at = 10;
}

get_task-write_cached_task_example :
    (get_task 4_000 "task" ann
      (record { rows = []; cache = write_cached_task 10 (map_task_row a_row) [] })).0
    ≡ (if leb (10 + 5_000) 4_000
        then Option.map map_task_row (first_where (owned "task" ann) [])
        else some (map_task_row a_row))
unfolding map_task_row
get_task-write_cached_task_example =
    get_task-write_cached_task 10 4_000 ann (map_task_row a_row) [] [] refl

submit_turn-Bare_example :
    Bare 20 "task" ann
      (submit_turn 20 "task"
        (λ v. v)
        ann
        first_turn
        (record { rows = a_row ∷ []; cache = [] })).1.rows
submit_turn-Bare_example =
    submit_turn-Bare 20 "task" ann (λ v. v) first_turn (record { rows = a_row ∷ []; cache = [] })
      refl (inr refl, tt)

abbrev one_row : Collab String Bool ℕ
one_row = record { rows = a_row ∷ []; cache = [] }

list_tasks-IsListing_example :
    (rows : List (CollabTaskRow String Bool ℕ)) × (list_tasks active ann one_row
      ≡ map map_task_row rows)
    × IsListing active ann one_row.rows rows
list_tasks-IsListing_example = list_tasks-IsListing active ann one_row
