-- ===== src/Collab.antt =====
-- src/services/collab.ts: tasks that ChatGPT and Claude work on by turns. The table `collab_tasks` is
-- the list of its rows, and the cache of this process is the list of its entries. The context of a
-- task is its `pause`, its `artifacts` and the rest, of a type `D`; the artifacts are those of the
-- turns, of a type `A`, and the evaluations, of a type `V`. Times are milliseconds; the clocks of the
-- server and of the database agree within one request. Titles, briefs and contents are trimmed.
pub mod Cache
pub mod Turns
pub mod Submit
pub mod Board
pub mod Submission
pub mod Requests
pub mod Writes
pub mod Effects
pub mod Isolation
pub mod Numbering
pub mod Caching
pub mod Evaluations
pub mod Listing
mod Tests
pub use tallei_ai.Common.{Plan, free, pro, power, AuthContext}
use tallei_ai.Common.{
  ◌+◌, ◌&&◌, none, ltb, str_eq, some, true, false, List, Option, Bool, ℕ, String,
}

pub data CollabModelActor : Type 0 where
  chatgpt claude : CollabModelActor

pub data CollabActor : Type 0 where
  model : CollabModelActor → CollabActor
  user : CollabActor

pub data CollabState : Type 0 where
  creative technical done error : CollabState

pub data CollabFilter : Type 0 where
  all active waiting ended : CollabFilter

pub record CollabTranscriptEntry : Type 0 where
  pub actor : CollabActor
  pub iteration : ℕ
  pub content : String
  pub ts : ℕ

pub record Pause : Type 0 where
  pub paused : Bool
  pub paused_after_actor : CollabModelActor
  pub paused_at : ℕ

pub record CollabArtifacts (A V : Type 0) : Type 0 where
  pub latest : Option A
  pub evaluations : List V

pub record CollabContext (A V D : Type 0) : Type 0 where
  pub pause : Option Pause
  pub artifacts : Option (CollabArtifacts A V)
  pub others : D

pub record CollabTaskRow (A V D : Type 0) : Type 0 where
  pub id : String
  pub tenant_id : String
  pub user_id : String
  pub title : String
  pub brief : Option String
  pub state : CollabState
  pub last_actor : Option CollabActor
  pub iteration : ℕ
  pub max_iterations : ℕ
  pub context : CollabContext A V D
  pub transcript : List CollabTranscriptEntry
  pub error_message : Option String
  pub created_at : ℕ
  pub updated_at : ℕ

-- A task is its row, whose JSON was written by this program, and whether it is paused.
pub record CollabTask (A V D : Type 0) : Type 0 where
  pub row : CollabTaskRow A V D
  pub paused : Bool

pub record CachedTask (A V D : Type 0) : Type 0 where
  pub user_id : String
  pub id : String
  pub task : CollabTask A V D
  pub exp : ℕ

pub record Collab (A V D : Type 0) : Type 0 where
  pub rows : List (CollabTaskRow A V D)
  pub cache : List (CachedTask A V D)

pub data CollabError : Type 0 where
  plan_required title_required content_required turn_conflict not_found : CollabError

unfoldable pub assert_collab_plan : Plan → Bool
assert_collab_plan free = false
assert_collab_plan pro = true
assert_collab_plan power = true

abbrev pub same_state : CollabState → CollabState → Bool
same_state creative creative = true
same_state technical technical = true
same_state done done = true
same_state error error = true
same_state _ _ = false

unfoldable pub expected_state_for_actor : CollabModelActor → CollabState
expected_state_for_actor chatgpt = creative
expected_state_for_actor claude = technical

unfoldable pub next_state_for_actor : CollabModelActor → CollabState
next_state_for_actor chatgpt = technical
next_state_for_actor claude = creative

unfoldable pub actor_waiting_for_state : CollabState → Option CollabModelActor
actor_waiting_for_state creative = some chatgpt
actor_waiting_for_state technical = some claude
actor_waiting_for_state _ = none

abbrev pub is_paused : Option Pause → Bool
is_paused none = false
is_paused (some p) = p.paused

abbrev pub normalize_max_iterations : ℕ
normalize_max_iterations = 9_999

abbrev pub day_ms : ℕ
day_ms = 86_400_000

module _ {A V D : Type 0} where
  unfoldable pub map_task_row : CollabTaskRow A V D → CollabTask A V D
  map_task_row r = record { row = r; paused = is_paused r.context.pause }

  -- `WHERE id = $1 AND user_id = $2`
  abbrev pub owned : String → AuthContext → CollabTaskRow A V D → Bool
  owned id auth r = str_eq r.id id && str_eq r.user_id auth.user_id

  -- `AND updated_at > now() - interval '24 hours'`
  abbrev pub recent : ℕ → CollabTaskRow A V D → Bool
  recent now r = ltb now (r.updated_at + day_ms)
