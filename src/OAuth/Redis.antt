-- ===== src/OAuth/Redis.antt =====
-- What the validation asks of Redis (src/infrastructure/cache/redis-cache.ts), and the validation.
use tallei_ai.Common.{
  leb, if◌then◌else◌, ◌/◌, ◌⊎◌, str_eq, ◌-◌, ◌*◌, none, first_where, ◌+◌, min, ◌<◌, max, some, ◌≡◌,
  Option, ℕ, String,
}
use tallei_ai.OAuth.{
  other_resource, is_revoked, local_oauth_cache_ttl_ms, oauth_access_cache_ttl_seconds, live,
  accepted, context_of, remember, Validator, OAuthTokenRow, OAuthTokenContext,
}

-- `getCacheJson` and `setCacheJson`, at a time, on the state `R` of Redis and of the client.
pub record Cache (R : Type 0) : Type 0 where
  pub get_cache_json : ℕ → String → R → Option OAuthTokenContext × R
  pub set_cache_json : ℕ → String → OAuthTokenContext → ℕ → R → R

-- What Redis documents of `GET` and of `SET` with `EX`: a value that is read was set, and has not
-- expired. Nothing says that a value that was set is found.
pub record IsExpiring {R : Type 0} (c : Cache R)
    (Stored : R → String → OAuthTokenContext → ℕ → Type 0) : Type 0 where
  pub get_stored :
      (now : ℕ) (k : String) (r : R) (t : OAuthTokenContext)
      → (c.get_cache_json now k r).0 ≡ some t
      → (exp : ℕ) × Stored r k t exp × (now < exp)
  pub get_keeps :
      (now : ℕ) (k k' : String) (r : R) (t : OAuthTokenContext) (exp : ℕ)
      → Stored (c.get_cache_json now k r).1 k' t exp
      → Stored r k' t exp
  pub set_stored :
      (now : ℕ) (k k' : String) (t t' : OAuthTokenContext) (ttl : ℕ) (r : R) (exp : ℕ)
      → Stored (c.set_cache_json now k t ttl r) k' t' exp
      → (k' ≡ k) × (t' ≡ t) × (exp ≡ now + 1_000 * ttl) ⊎ Stored r k' t' exp

-- The readings of the clock over one call: by the process at its start, when Redis answers, when the
-- token of Redis is checked, when the table answers, when the row is checked, when the time to live is
-- computed, when Redis sets the value, and when the process keeps it
pub record Readings : Type 0 where
  pub local_at : ℕ
  pub redis_at : ℕ
  pub checked_at : ℕ
  pub row_at : ℕ
  pub expiry_at : ℕ
  pub ttl_at : ℕ
  pub set_at : ℕ
  pub kept_at : ℕ

-- What the lookups come to: an answer, or a token of the table, to be cached and returned
pub data Looked : Type 0 where
  answered : Option OAuthTokenContext → Looked
  fetched : OAuthTokenContext → Looked

module _ {R : Type 0} (c : Cache R) (hash : String → String)
    (rows : ℕ → String → Option OAuthTokenRow) (tenant_of : String → String) where
  abbrev pub ttl_of : ℕ → OAuthTokenContext → ℕ
  ttl_of now t = max 1 (min oauth_access_cache_ttl_seconds (t.expires_at - now / 1_000))

  -- from the table on
  unfoldable pub from_row : Readings → Option String → Option OAuthTokenRow → Looked
  from_row at expected none = answered none
  from_row at expected (some r) =
      if is_revoked r.revoked_at
      then answered none
      else if leb (r.access_expires_at / 1_000) (at.expiry_at / 1_000)
      then answered none
      else if other_resource expected r.resource
      then answered none
      else fetched (context_of tenant_of r)

  -- from Redis on
  unfoldable pub from_redis : Readings → String → Option String → Option OAuthTokenContext → Looked
  unfolding from_row
  from_redis at key expected none = from_row at expected (rows at.row_at key)
  from_redis at key expected (some t) = answered (accepted at.checked_at expected t)

  unfoldable pub from_local :
      Readings
      → String
      → Option String
      → Validator R
      → Option OAuthTokenContext
      → Looked × Validator R
  unfolding from_redis
  from_local at key expected v (some t) = (answered (accepted at.local_at expected t), v)
  from_local at key expected v none =
      let (t, redis) = c.get_cache_json at.redis_at key v.redis in
      (from_redis at key expected t, record v { redis = redis })

  -- the first part, which only reads
  unfoldable pub look_up : Readings → String → Option String → Validator R → Looked × Validator R
  unfolding from_local
  look_up at token expected v =
      let key = hash token in
      from_local at key expected v (live at.local_at (first_where (λ e. str_eq e.key key) v.local))

  -- `setCacheJson` after the reading of the clock for the time to live
  unfoldable pub publish :
      (ttl_at set_at : ℕ) → String → OAuthTokenContext → Validator R → Validator R
  publish ttl_at set_at key t v = record v {
    redis = c.set_cache_json set_at key t (ttl_of ttl_at t) v.redis;
  }

  unfoldable pub keep : (kept_at : ℕ) → String → OAuthTokenContext → Validator R → Validator R
  keep kept_at key t v = record v {
    local =
        remember (record { key = key; token = t; exp = kept_at + local_oauth_cache_ttl_ms })
          v.local;
  }

  abbrev pub settled_with :
      Readings → String → Looked × Validator R → Option OAuthTokenContext × Validator R
  settled_with at key (answered o, v) = (o, v)
  settled_with at key (fetched t, v) =
      (some t, keep at.kept_at key t (publish at.ttl_at at.set_at key t v))

  unfoldable pub validate_oauth_access_token :
      Readings → String → Option String → Validator R → Option OAuthTokenContext × Validator R
  unfolding look_up publish keep
  validate_oauth_access_token at token expected v =
      settled_with at (hash token) (look_up at token expected v)
