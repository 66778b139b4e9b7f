-- ===== src/Collab/Submission.antt =====
-- The submission of a turn against the rule of the board, on every branch.
use tallei_ai.Common.{
  subst, Bool-cases, ◌||◌, All-mem, update_where-none, inr, first_where-mem, resolved, ◌∙◌, sym,
  distinct_unique, first_where-none, rejected, ap, str_eq_iff, if◌then◌else◌, arith,
  map-update_where, inl, update_where-mem, refl, update_where, All, map, Distinct, first_where, ◌≡◌,
  ℕ, String,
}
use tallei_ai.Collab.{
  turn_conflict, map_task_row, content_required, plan_required, str_eq, some, CollabError, claude,
  assert_collab_plan, Collab, owned, expected_state_for_actor, false, chatgpt, CollabTask, none,
  true, CollabState, Option, List, Bool, CollabTaskRow, CollabModelActor, AuthContext,
  next_state_for_actor,
}
use tallei_ai.Collab.Turns.{Answer, in_state, take_turn}
use tallei_ai.Collab.Submit.{
  submit_turn, says, after_turn, or_before, submitted, Turn, finished, finish_task, is_live,
  auto_finish, finish_row,
}
use tallei_ai.Collab.Board.{
  other_actor, turn_state, attach-IsTurned, artifacts-IsTurned, evaluation-IsTurned, seat_turn,
  submit_board, board, IsTurned, seat_finish, seat_owned, Seat, seat,
}
use mathlib.Core.List.{Memᴰ}

expected_state-turn_state : (a : CollabModelActor) → expected_state_for_actor a ≡ turn_state a
unfolding expected_state_for_actor
expected_state-turn_state chatgpt = refl
expected_state-turn_state claude = refl

next_state-turn_state : (a : CollabModelActor) → next_state_for_actor a ≡ turn_state (other_actor a)
unfolding next_state_for_actor
next_state-turn_state chatgpt = refl
next_state-turn_state claude = refl

next_state_is_live : (a : CollabModelActor) → is_live (next_state_for_actor a) ≡ true
unfolding next_state_for_actor
next_state_is_live chatgpt = refl
next_state_is_live claude = refl

module _ {A V D : Type 0} (now : ℕ) (id : String) (auth : AuthContext) where
  take_turn-state :
      (actor : CollabModelActor) (content : String) (rows : List (CollabTaskRow A V D))
      (r : CollabTaskRow A V D)
      → Distinct (λ (x : CollabTaskRow A V D). x.id) rows
      → Memᴰ r rows
      → in_state (expected_state_for_actor actor) id auth r ≡ true
      → (y : CollabTaskRow A V D)
      → Memᴰ y (
          update_where
            (in_state (expected_state_for_actor actor) id auth)
            (take_turn now actor content)
            rows)
      → owned id auth y ≡ true
      → y.state ≡ next_state_for_actor actor
  unfolding take_turn
  take_turn-state actor content rows r keys m hit y my own =
      let mine = in_state (expected_state_for_actor actor) id auth in
      elim (update_where-mem mine (take_turn now actor content) rows my) [
        | inl (old, miss) ↦
            let k : y.id ≡ r.id = ground (arith, str_eq_iff y.id id, str_eq_iff r.id id) in
            let one : y ≡ r =
              distinct_unique (λ (x : CollabTaskRow A V D). x.id) rows keys old m k in
            let hit' : mine y ≡ true = rw one hit in cc
        | inr (x, old, _, e) ↦ rw e refl
      ]

  finish_row-board :
      (reason : Option String) (rows : List (CollabTaskRow A V D))
      → map seat (update_where (owned id auth) (finish_row now reason) rows)
        ≡ update_where (seat_owned id auth) seat_finish (map seat rows)
  unfolding finish_row
  finish_row-board reason rows =
      map-update_where seat (owned id auth) (finish_row now reason) (seat_owned id auth) seat_finish
        rows (λ r. refl) (λ r. refl)

  finished-board :
      (reason : Option String) (t : CollabTask A V D) (s : Collab A V D)
      (o : Option (CollabTaskRow A V D))
      → first_where (owned id auth) s.rows ≡ o
      → board (or_before (t, s) (finished now id reason auth s o)).1
        ≡ update_where (seat_owned id auth) seat_finish (board s)
  unfolding finished
  finished-board reason t s none e =
      ap (map seat) (sym (update_where-none (owned id auth) (finish_row now reason) s.rows e))
      ∙ finish_row-board reason s.rows
  finished-board reason t s (some r) e = finish_row-board reason s.rows

  auto_finish-board :
      (marked : Bool) (st : CollabState) (seats : List Seat) (x : CollabTask A V D × Collab A V D)
      → assert_collab_plan auth.plan ≡ true
      → is_live st ≡ true
      → IsTurned st id auth seats x
      → board (auto_finish now id auth marked x).1
        ≡ (if marked then update_where (seat_owned id auth) seat_finish seats else seats)
  unfolding auto_finish finish_task
  auto_finish-board true st seats (t, s) plan live h =
      let live' : is_live t.row.state ≡ true = rw h.of_task live in
      rw (live', plan)
        (finished-board (some "Auto-finished: turn marked done.") t s _ refl
          ∙ ap (update_where (seat_owned id auth) seat_finish) h.on_board)
  auto_finish-board false st seats (t, s) plan live h = h.on_board

  after_turn-board :
      (should_mark_done : V → Bool) (turn : Turn A V D) (st : CollabState) (seats : List Seat)
      (x : CollabTask A V D × Collab A V D)
      → assert_collab_plan auth.plan ≡ true
      → is_live st ≡ true
      → IsTurned st id auth seats x
      → board (after_turn now id should_mark_done auth turn x).1 ≡ (
          if turn.mark_done || says should_mark_done turn.evaluation
          then update_where (seat_owned id auth) seat_finish seats
          else seats)
  unfolding after_turn
  after_turn-board smd turn st seats x plan live h = auto_finish-board _ st seats _ plan live (
      evaluation-IsTurned now st id auth seats turn.evaluation _ (
        artifacts-IsTurned now st id auth seats turn.artifacts _
          (attach-IsTurned now st id auth seats turn.documents x h)))

  -- What a submission promises: the rule of the board, or nothing and a reason.
  abbrev pub Refused : Turn A V D → Collab A V D → CollabError → Type 0
  Refused turn s plan_required = assert_collab_plan auth.plan ≡ false
  Refused turn s content_required = str_eq turn.content "" ≡ true
  Refused turn s turn_conflict =
      All (λ r. in_state (turn_state turn.actor) id auth r ≡ false) s.rows
  Refused turn s _ = ⊥

  abbrev pub SubmitSpec :
      (V → Bool) → Turn A V D → Collab A V D → Answer A V D (CollabTask A V D) → Type 0
  SubmitSpec should_mark_done turn s (rejected e, s') = (s' ≡ s) × Refused turn s e
  SubmitSpec should_mark_done turn s (resolved t, s') =
      (r : CollabTaskRow A V D) × Memᴰ r s.rows
      × (in_state (turn_state turn.actor) id auth r ≡ true)
      × (board s'
          ≡ submit_board now id auth turn.actor turn.content
              (turn.mark_done || says should_mark_done turn.evaluation) (board s))

  submitted-SubmitSpec :
      (should_mark_done : V → Bool) (turn : Turn A V D) (s : Collab A V D)
      (o : Option (CollabTaskRow A V D))
      → Distinct (λ (r : CollabTaskRow A V D). r.id) s.rows
      → assert_collab_plan auth.plan ≡ true
      → first_where (in_state (expected_state_for_actor turn.actor) id auth) s.rows ≡ o
      → SubmitSpec should_mark_done turn s (submitted now id should_mark_done auth turn s o)
  unfolding submitted take_turn map_task_row
  submitted-SubmitSpec smd turn s none keys plan e = (
    refl,
    subst (λ st. All (λ r. in_state st id auth r ≡ false) s.rows)
        (expected_state-turn_state turn.actor) (first_where-none _ s.rows e),
  )
  submitted-SubmitSpec smd turn s (some r) keys plan e =
      let mine = in_state (expected_state_for_actor turn.actor) id auth in
      let turned = take_turn now turn.actor turn.content in
      let (m, hit) = first_where-mem mine s.rows e in
      let start : IsTurned (next_state_for_actor turn.actor) id auth
          (submit_board now id auth turn.actor turn.content false (board s))
          (map_task_row (turned r), record s { rows = update_where mine turned s.rows }) =
        record {
          of_task = refl;
          of_rows = All-mem _ _ (take_turn-state turn.actor turn.content s.rows r keys m hit);
          on_board =
              map-update_where seat mine turned _ (seat_turn now turn.actor turn.content) s.rows
                (λ x. rw (expected_state-turn_state turn.actor) refl)
                (λ x. rw (next_state-turn_state turn.actor) refl);
        } in
      (
        r,
        m,
        subst (λ st. in_state st id auth r ≡ true) (expected_state-turn_state turn.actor) hit,
        after_turn-board smd turn (next_state_for_actor turn.actor) _ _ plan
            (next_state_is_live turn.actor) start,
      )

  -- Where the ids of the tasks are distinct, a submitted turn does to the board what the rule says, if
  -- the task is in the state in which it is the actor's turn: the turn is added with the next
  -- number, the other actor is next, and a turn that is marked done, by the actor or by its
  -- evaluation, ends the task. In every other case nothing changes, and the error says which.
  pub submit_turn_lem :
      (should_mark_done : V → Bool) (turn : Turn A V D) (s : Collab A V D)
      → Distinct (λ (r : CollabTaskRow A V D). r.id) s.rows
      → SubmitSpec should_mark_done turn s (submit_turn now id should_mark_done auth turn s)
  unfolding submit_turn
  submit_turn_lem smd turn s keys = elim (Bool-cases (assert_collab_plan auth.plan)) [
    | inr poor ↦ rw poor (refl, poor)
    | inl rich ↦ elim (Bool-cases (str_eq turn.content "")) [
      | inl blank ↦ rw (rich, blank) (refl, blank)
      | inr text ↦ rw (rich, text) (submitted-SubmitSpec smd turn s _ keys rich refl)
    ]
  ]
