-- ===== src/Collab/Requests.antt =====
-- The requests that change what is known of tasks, as one step of the program, and runs of them by any
-- number of users.
use tallei_ai.Common.{◌≢◌, [], All, Bool, ℕ, String}
use tallei_ai.Collab.{Option, Collab, AuthContext, CollabModelActor}
use tallei_ai.Collab.Submit.{
  attach_plan_to_task_context, attach_uploaded_files_to_task_context, delete_task,
  extend_iterations, finish_task, submit_turn, Turn,
}
use tallei_ai.Collab.Turns.{claim_turn, create_task}
use tallei_ai.Collab.Cache.{get_task}

pub data Request (A V D : Type 0) : Type 0 where
  creating : (id title brief : String) → CollabModelActor → D → Request A V D
  getting : String → Request A V D
  claiming : String → CollabModelActor → Request A V D
  submitting : String → Turn A V D → Request A V D
  finishing : String → Option String → Request A V D
  extending : String → Request A V D
  deleting : String → Request A V D
  attaching : String → Option D → Request A V D
  planning : String → (Option A → A) → (D → D) → Request A V D

module _ {A V D : Type 0} (should_mark_done : V → Bool) where
  unfoldable pub handle : ℕ → AuthContext → Request A V D → Collab A V D → Collab A V D
  handle now auth (creating id title brief first others) s =
      (create_task now id title brief first others auth s).1
  handle now auth (getting id) s = (get_task now id auth s).1
  handle now auth (claiming id actor) s = (claim_turn now id actor auth s).1
  handle now auth (submitting id turn) s = (submit_turn now id should_mark_done auth turn s).1
  handle now auth (finishing id reason) s = (finish_task now id auth reason s).1
  handle now auth (extending id) s = (extend_iterations now id auth s).1
  handle now auth (deleting id) s = (delete_task id auth s).1
  handle now auth (attaching id documents) s =
      attach_uploaded_files_to_task_context now id auth documents s
  handle now auth (planning id merge session) s =
      attach_plan_to_task_context now id auth merge session s

  -- The id of a new row is new.
  abbrev pub Fits : Collab A V D → Request A V D → Type 0
  Fits s (creating id title brief first others) = All (λ r. r.id ≢ id) s.rows
  Fits s _ = Unit

  pub data Run : Collab A V D → Type 0 where
    start : Run (record { rows = []; cache = [] })
    step :
        {s : Collab A V D} (now : ℕ) (auth : AuthContext) (q : Request A V D)
        → Fits s q
        → Run s
        → Run (handle now auth q s)
