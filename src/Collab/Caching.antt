-- ===== src/Collab/Caching.antt =====
-- What is read of a task that is in the cache.
use mathlib.Core.Option
use tallei_ai.Common.{
  inr, inl, Bool-cases, str_eq_iff, ◌+◌, leb, if◌then◌else◌, refl, ◌≡◌, delete_where, first_where,
  ℕ,
}
use mathlib.Core.Option.{some, none, Option}
use tallei_ai.Collab.Cache.{or_loaded, write_cached_task, read_cached_task, get_task}
use tallei_ai.Collab.{
  true, str_eq, owned, CachedTask, List, CollabTask, map_task_row, AuthContext, Collab,
  CollabTaskRow,
}

module _ {A V D : Type 0} where
  or_loaded-none :
      (now : ℕ) (o : Option (CollabTaskRow A V D)) (s : Collab A V D)
      → (or_loaded now o s none).0 ≡ Option.map map_task_row o
  or_loaded-none now none s = refl
  or_loaded-none now (some r) s = refl

  -- A task of the user that has just been cached is what is read of it for the next five seconds,
  -- whatever the table has by then; from then on it is read from the table.
  pub get_task-write_cached_task :
      (now later : ℕ) (auth : AuthContext) (t : CollabTask A V D) (cache : List (CachedTask A V D))
      (rows : List (CollabTaskRow A V D))
      → t.row.user_id ≡ auth.user_id
      → (get_task later t.row.id auth
          (record { rows = rows; cache = write_cached_task now t cache })).0
        ≡ (if leb (now + 5_000) later
            then Option.map map_task_row (first_where (owned t.row.id auth) rows)
            else some t)
  unfolding get_task read_cached_task write_cached_task first_where delete_where
  get_task-write_cached_task now later auth t cache rows mine =
      let same : str_eq t.row.id t.row.id ≡ true = (str_eq_iff t.row.id t.row.id).1 refl in
      let user : str_eq t.row.user_id auth.user_id ≡ true =
        (str_eq_iff t.row.user_id auth.user_id).1 mine in
      elim (Bool-cases (leb (now + 5_000) later)) [
        | inl expired ↦
            rw (same, user, expired)
              (or_loaded-none later (first_where (owned t.row.id auth) rows) _)
        | inr fresh ↦ rw (same, user, fresh) refl
      ]
