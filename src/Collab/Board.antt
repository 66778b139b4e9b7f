-- ===== src/Collab/Board.antt =====
-- What the turns of the tasks are about, apart from contexts, times and the cache, and the simple rule
-- for the submission of a turn.
use mathlib.Core.Option
use tallei_ai.Common.{
  first_where-All, refl, first_where-delete_where, map-update_where_same, first_where, [], ◌∙◌,
  if◌then◌else◌, ◌∷◌, ap, ◌++◌, ◌+◌, All-update_where, ◌&&◌, ◌≡◌, All, map, update_where, none, ℕ,
  String,
}
use tallei_ai.Collab.{
  chatgpt, technical, claude, creative, CachedTask, true, same_state, owned, model,
  CollabTranscriptEntry, CollabTask, some, str_eq, CollabActor, List, Bool, Option, done,
  CollabModelActor, map_task_row, CollabTaskRow, AuthContext, CollabState, Collab,
}
use tallei_ai.Collab.Submit.{
  attach_others, add_evaluation, add_artifacts, or_task, save_evaluation, save_artifacts,
  attach_documents, rewrite_task,
}
use tallei_ai.Collab.Cache.{cache_key, read_cached_task, loaded, invalidate_cached_task, get_task}

pub record Seat : Type 0 where
  pub id : String
  pub user_id : String
  pub state : CollabState
  pub last_actor : Option CollabActor
  pub iteration : ℕ
  pub transcript : List CollabTranscriptEntry

-- The state in which it is the turn of an actor, and who is next.
abbrev pub turn_state : CollabModelActor → CollabState
turn_state chatgpt = creative
turn_state claude = technical

abbrev pub other_actor : CollabModelActor → CollabModelActor
other_actor chatgpt = claude
other_actor claude = chatgpt

abbrev pub seat_owned : String → AuthContext → Seat → Bool
seat_owned id auth r = str_eq r.id id && str_eq r.user_id auth.user_id

abbrev pub seat_turn : ℕ → CollabModelActor → String → Seat → Seat
seat_turn now actor content r = record r {
  state = turn_state (other_actor actor);
  last_actor = some (model actor);
  iteration = r.iteration + 1;
  transcript =
      r.transcript
      ++ record { actor = model actor; iteration = r.iteration + 1; content = content; ts = now }
        ∷ [];
}

abbrev pub seat_finish : Seat → Seat
seat_finish r = record r { state = done }

-- The rule: in the state that is the actor's, the turn is added and the other actor is next; if it
-- ends the task, the task is done.
abbrev pub submit_board :
    ℕ → String → AuthContext → CollabModelActor → String → (ends : Bool) → List Seat → List Seat
submit_board now id auth actor content ends seats =
    let turned =
      update_where (λ r. seat_owned id auth r && same_state r.state (turn_state actor))
        (seat_turn now actor content) seats in
    if ends then update_where (seat_owned id auth) seat_finish turned else turned

module _ {A V D : Type 0} where
  abbrev pub seat : CollabTaskRow A V D → Seat
  seat r = record {
    id = r.id;
    user_id = r.user_id;
    state = r.state;
    last_actor = r.last_actor;
    iteration = r.iteration;
    transcript = r.transcript;
  }

  abbrev pub board : Collab A V D → List Seat
  board s = map seat s.rows

  -- Every row of a task is in a state.
  abbrev pub AllIn : CollabState → String → AuthContext → List (CollabTaskRow A V D) → Type 0
  AllIn st id auth rows = All (λ r. owned id auth r ≡ true → r.state ≡ st) rows

  -- After the turn: what is on the board, and the state of the task and of its rows.
  pub record IsTurned (st : CollabState) (id : String) (auth : AuthContext) (seats : List Seat)
      (x : CollabTask A V D × Collab A V D) : Type 0 where
    pub of_task : x.0.row.state ≡ st
    pub of_rows : AllIn st id auth x.1.rows
    pub on_board : board x.1 ≡ seats

  update-AllIn :
      (st : CollabState) (id : String) (auth : AuthContext)
      (f : CollabTaskRow A V D → CollabTaskRow A V D) (rows : List (CollabTaskRow A V D))
      → ((r : CollabTaskRow A V D) → seat (f r) ≡ seat r)
      → AllIn st id auth rows
      → AllIn st id auth (update_where (owned id auth) f rows)
  update-AllIn st id auth f rows same h =
      All-update_where (λ r. owned id auth r ≡ true → r.state ≡ st) (owned id auth) f rows
        (λ r ok mine _. ap (λ x. x.state) (same r) ∙ ok mine) h

  reread_state :
      (st : CollabState) (id : String) (auth : AuthContext)
      (f : CollabTaskRow A V D → CollabTaskRow A V D) (t : CollabTask A V D)
      (rows : List (CollabTaskRow A V D)) (o : Option (CollabTaskRow A V D))
      → ((r : CollabTaskRow A V D) → seat (f r) ≡ seat r)
      → first_where (owned id auth) rows ≡ o
      → t.row.state ≡ st
      → AllIn st id auth rows
      → (or_task t (Option.map (λ r. map_task_row (f r)) o)).row.state ≡ st
  unfolding map_task_row
  reread_state st id auth f t rows none same e ok all_in = ok
  reread_state st id auth f t rows (some r) same e ok all_in =
      let (is_in, mine) =
        first_where-All (λ r. owned id auth r ≡ true → r.state ≡ st) (owned id auth) rows all_in
          e in
      ap (λ x. x.state) (same r) ∙ is_in mine

  rewrite-IsTurned :
      (st : CollabState) (id : String) (auth : AuthContext) (seats : List Seat)
      (f : CollabTaskRow A V D → CollabTaskRow A V D) (x : CollabTask A V D × Collab A V D)
      → ((r : CollabTaskRow A V D) → seat (f r) ≡ seat r)
      → IsTurned st id auth seats x
      → IsTurned st id auth seats (rewrite_task id auth f x)
  rewrite-IsTurned st id auth seats f (t, s) same h = record {
    of_task = reread_state st id auth f t s.rows _ same refl h.of_task h.of_rows;
    of_rows = update-AllIn st id auth f s.rows same h.of_rows;
    on_board = map-update_where_same seat (owned id auth) f s.rows same ∙ h.on_board;
  }

  loaded-IsTurned :
      (now : ℕ) (st : CollabState) (id : String) (auth : AuthContext) (seats : List Seat)
      (t : CollabTask A V D) (s : Collab A V D) (o : Option (CollabTaskRow A V D))
      → first_where (owned id auth) s.rows ≡ o
      → IsTurned st id auth seats (t, s)
      → IsTurned st id auth seats (or_task t (loaded now o s).0, (loaded now o s).1)
  unfolding map_task_row
  loaded-IsTurned now st id auth seats t s none e h = h
  loaded-IsTurned now st id auth seats t s (some r) e h = record {
    of_task = reread_state st id auth (λ r. r) t s.rows (some r) (λ r. refl) e h.of_task h.of_rows;
    of_rows = h.of_rows;
    on_board = h.on_board;
  }

  -- After the task has been forgotten, it is read from the table.
  get_task-forgotten :
      (now : ℕ) (id : String) (auth : AuthContext) (rows : List (CollabTaskRow A V D))
      (cache : List (CachedTask A V D))
      → get_task now id auth (record { rows = rows; cache = invalidate_cached_task id auth cache })
        ≡ loaded now
            (first_where (owned id auth) rows)
            (record { rows = rows; cache = invalidate_cached_task id auth cache })
  unfolding get_task invalidate_cached_task read_cached_task
  get_task-forgotten now id auth rows cache =
      rw (first_where-delete_where (cache_key id auth) cache) refl

  pub attach-IsTurned :
      (now : ℕ) (st : CollabState) (id : String) (auth : AuthContext) (seats : List Seat)
      (d : Option D) (x : CollabTask A V D × Collab A V D)
      → IsTurned st id auth seats x
      → IsTurned st id auth seats (attach_documents now id auth d x)
  unfolding attach_documents
  attach-IsTurned now st id auth seats none (t, s) h = h
  attach-IsTurned now st id auth seats (some d) (t, s) h =
      let f = attach_others now d in
      let rows = update_where (owned id auth) f s.rows in
      let s' : Collab A V D = record {
        rows = rows;
        cache = invalidate_cached_task id auth s.cache;
      } in
      let h' : IsTurned st id auth seats (t, s') = record {
        of_task = h.of_task;
        of_rows = update-AllIn st id auth f s.rows (λ r. refl) h.of_rows;
        on_board = map-update_where_same seat (owned id auth) f s.rows (λ r. refl) ∙ h.on_board;
      } in
      rw (get_task-forgotten now id auth rows s.cache)
        (loaded-IsTurned now st id auth seats t s' _ refl h')

  pub artifacts-IsTurned :
      (now : ℕ) (st : CollabState) (id : String) (auth : AuthContext) (seats : List Seat)
      (a : Option (Option A → A)) (x : CollabTask A V D × Collab A V D)
      → IsTurned st id auth seats x
      → IsTurned st id auth seats (save_artifacts now id auth a x)
  unfolding save_artifacts
  artifacts-IsTurned now st id auth seats none x h = h
  artifacts-IsTurned now st id auth seats (some a) x h =
      rewrite-IsTurned st id auth seats (add_artifacts now a) x (λ r. refl) h

  pub evaluation-IsTurned :
      (now : ℕ) (st : CollabState) (id : String) (auth : AuthContext) (seats : List Seat)
      (v : Option V) (x : CollabTask A V D × Collab A V D)
      → IsTurned st id auth seats x
      → IsTurned st id auth seats (save_evaluation now id auth v x)
  unfolding save_evaluation
  evaluation-IsTurned now st id auth seats none x h = h
  evaluation-IsTurned now st id auth seats (some v) x h =
      rewrite-IsTurned st id auth seats (add_evaluation now v) x (λ r. refl) h
