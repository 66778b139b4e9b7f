-- ===== src/Collab/Cache.antt =====
-- src/services/collab.ts: the cache of tasks, and the reading of a task through it.
use tallei_ai.Common.{
  ◌&&◌, leb, ◌∷◌, if◌then◌else◌, ◌+◌, first_where, delete_where, Option, List, ℕ, String,
}
use tallei_ai.Collab.{
  none, owned, map_task_row, str_eq, some, Bool, CollabTaskRow, Collab, CachedTask, AuthContext,
  CollabTask,
}

abbrev pub task_cache_ttl_ms : ℕ
task_cache_ttl_ms = 5_000

module _ {A V D : Type 0} where
  abbrev pub cache_key : String → AuthContext → CachedTask A V D → Bool
  cache_key id auth c = str_eq c.id id && str_eq c.user_id auth.user_id

  abbrev pub alive :
      ℕ
      → List (CachedTask A V D)
      → (old : List (CachedTask A V D)) → Option (CachedTask A V D)
      → Option (CollabTask A V D) × List (CachedTask A V D)
  alive now cache rest none = (none, cache)
  alive now cache rest (some c) = if leb c.exp now then (none, rest) else (some c.task, cache)

  unfoldable pub read_cached_task :
      ℕ
      → String
      → AuthContext
      → List (CachedTask A V D)
      → Option (CollabTask A V D) × List (CachedTask A V D)
  read_cached_task now id auth cache =
      alive now cache (delete_where (cache_key id auth) cache)
        (first_where (cache_key id auth) cache)

  -- `Map.set` on the key of the task
  unfoldable pub write_cached_task :
      ℕ → CollabTask A V D → List (CachedTask A V D) → List (CachedTask A V D)
  write_cached_task now t cache =
      record { user_id = t.row.user_id; id = t.row.id; task = t; exp = now + task_cache_ttl_ms }
      ∷ delete_where (λ c. str_eq c.id t.row.id && str_eq c.user_id t.row.user_id) cache

  unfoldable pub invalidate_cached_task :
      String → AuthContext → List (CachedTask A V D) → List (CachedTask A V D)
  invalidate_cached_task id auth cache = delete_where (cache_key id auth) cache

  abbrev pub stored : ℕ → CollabTask A V D → Collab A V D → Collab A V D
  stored now t s = record s { cache = write_cached_task now t s.cache }

  abbrev pub restored : ℕ → String → AuthContext → CollabTask A V D → Collab A V D → Collab A V D
  restored now id auth t s = record s {
    cache = write_cached_task now t (invalidate_cached_task id auth s.cache);
  }

  abbrev pub loaded :
      ℕ → Option (CollabTaskRow A V D) → Collab A V D → Option (CollabTask A V D) × Collab A V D
  loaded now none s = (none, s)
  loaded now (some r) s = (some (map_task_row r), stored now (map_task_row r) s)

  abbrev pub or_loaded :
      ℕ
      → Option (CollabTaskRow A V D)
      → Collab A V D
      → Option (CollabTask A V D)
      → Option (CollabTask A V D) × Collab A V D
  or_loaded now row s none = loaded now row s
  or_loaded now row s (some t) = (some t, s)

  unfoldable pub get_task :
      ℕ → String → AuthContext → Collab A V D → Option (CollabTask A V D) × Collab A V D
  get_task now id auth s =
      let (cached, cache) = read_cached_task now id auth s.cache in
      or_loaded now (first_where (owned id auth) s.rows) (record s { cache = cache }) cached
