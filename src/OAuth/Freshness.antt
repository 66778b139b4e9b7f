-- ===== src/OAuth/Freshness.antt =====
-- How old a validated token can be.
use tallei_ai.Common.{
  Without-All, All-Memᴰ, none, some, inl, inr, List, refl, inr, inl, length, arith, ◌<◌, All, ◌+◌,
  none, some, ◌≤◌, ◌≡◌, Option, ℕ, String,
}
use tallei_ai.OAuth.Redis.{
  settled_with, keep, publish, fetched, answered, look_up, Looked, Readings, from_local, from_redis,
  ttl_of, IsExpiring, validate_oauth_access_token, Cache,
}
use tallei_ai.OAuth.{Validator, OAuthTokenRow, OAuthTokenContext}
use tallei_ai.OAuth.Local.{length-remember, remember-All}
use tallei_ai.OAuth.Histories.{
  IsOrdered, Pending, waiting, WasValid, Since, IsFresh, History, Good, LooksGood, IsFresh-later,
  accepted-Good, from_row-Good, live_found,
}

module _ {R : Type 0} (c : Cache R) (Stored : R → String → OAuthTokenContext → ℕ → Type 0)
    (hash : String → String) (rows : ℕ → String → Option OAuthTokenRow)
    (tenant_of : String → String) (slow : ℕ) (laws : IsExpiring c Stored) where
  from_redis-Good :
      (at : Readings) (key : String) (expected : Option String) (o : Option OAuthTokenContext)
      → IsOrdered at
      → ((t : OAuthTokenContext)
          → o ≡ some t
          → (exp : ℕ) × Since c Stored hash rows tenant_of slow at.local_at 120_000 key t exp
            × (at.redis_at < exp))
      → LooksGood c Stored hash rows tenant_of slow at key expected
          (from_redis c hash rows tenant_of at key expected o)
  unfolding from_redis
  from_redis-Good at key expected none (a, b, d, e) found =
      from_row-Good c Stored hash rows tenant_of slow at key expected (rows at.row_at key) refl
        (omega (arith, a, b, d)) (omega (arith, a, b, d, e))
  from_redis-Good at key expected (some t) (a, b, d, e) found =
      let (exp, since, alive) = found t refl in
      accepted-Good c Stored hash rows tenant_of slow at at.checked_at at.redis_at exp 120_000 key
        expected t since (omega arith) a alive (omega (arith, a, b)) (omega (arith, a, b, d))

  abbrev Looks : Readings → String → Option String → List Pending → Looked × Validator R → Type 0
  Looks at key expected ps x =
      IsFresh c Stored hash rows tenant_of slow at.local_at ps x.1
      × LooksGood c Stored hash rows tenant_of slow at key expected x.0

  from_local-Looks :
      (at : Readings) (key : String) (expected : Option String) (ps : List Pending)
      (v : Validator R) (o : Option OAuthTokenContext)
      → IsOrdered at
      → ((t : OAuthTokenContext)
          → o ≡ some t
          → (exp : ℕ) × Since c Stored hash rows tenant_of slow at.local_at 30_000 key t exp
            × (at.local_at < exp))
      → IsFresh c Stored hash rows tenant_of slow at.local_at ps v
      → Looks at key expected ps (from_local c hash rows tenant_of at key expected v o)
  unfolding from_local
  from_local-Looks at key expected ps v (some t) (a, b, d, e) found h =
      let (exp, since, alive) = found t refl in
      (
        h,
        accepted-Good c Stored hash rows tenant_of slow at at.local_at at.local_at exp 30_000 key
            expected t since (omega arith) (omega arith) alive (omega arith)
            (omega (arith, a, b, d)),
      )
  from_local-Looks at key expected ps v none ordered found h = (
    record {
      of_local = h.of_local;
      of_size = h.of_size;
      of_redis = λ k t exp stored.
          h.of_redis k t exp (laws.get_keeps at.redis_at key k v.redis t exp stored);
      of_pending = h.of_pending;
    },
    from_redis-Good at key expected (c.get_cache_json at.redis_at key v.redis).0 ordered (λ t e.
        (let (exp, stored, alive) = laws.get_stored at.redis_at key v.redis t e in
          (exp, h.of_redis key t exp stored, alive))),
  )

  look_up-Looks :
      (at : Readings) (token : String) (expected : Option String) (ps : List Pending)
      (v : Validator R)
      → IsOrdered at
      → IsFresh c Stored hash rows tenant_of slow at.local_at ps v
      → Looks at (hash token) expected ps (look_up c hash rows tenant_of at token expected v)
  unfolding look_up
  look_up-Looks at token expected ps v ordered h =
      from_local-Looks at (hash token) expected ps v _ ordered
        (live_found c Stored hash rows tenant_of slow at (hash token) ps v _ refl h) h

  waiting-IsFresh :
      (at : Readings) (key : String) (expected : Option String) (ps : List Pending) (l : Looked)
      (v : Validator R)
      → LooksGood c Stored hash rows tenant_of slow at key expected l
      → IsFresh c Stored hash rows tenant_of slow at.local_at ps v
      → IsFresh c Stored hash rows tenant_of slow at.local_at (waiting at key l ps) v
  waiting-IsFresh at key expected ps (answered o) v good h = h
  waiting-IsFresh at key expected ps (fetched t) v (_, was) h = record {
    of_local = h.of_local;
    of_size = h.of_size;
    of_redis = h.of_redis;
    of_pending = (was, h.of_pending);
  }

  publish-IsFresh :
      (ps : List Pending) (v : Validator R) (p : Pending) (ttl_at set_at : ℕ)
      → WasValid c Stored hash rows tenant_of slow p.key p.token p.read_at
      → p.read_at ≤ set_at
      → set_at ≤ p.read_at + slow
      → IsFresh c Stored hash rows tenant_of slow set_at ps v
      → IsFresh c Stored hash rows tenant_of slow set_at ps
          (publish c hash rows tenant_of ttl_at set_at p.key p.token v)
  unfolding publish
  publish-IsFresh ps v p ttl_at set_at was before soon h = record {
    of_local = h.of_local;
    of_size = h.of_size;
    of_redis = λ k t exp stored.
        elim (laws.set_stored set_at p.key k p.token t (ttl_of c hash rows tenant_of ttl_at p.token)
          v.redis exp stored) [
            | inl (same_key, same_token, e) ↦
                rw (same_key, same_token) (p.read_at, was, before, omega (arith, e, soon))
            | inr old ↦ h.of_redis k t exp old
          ];
    of_pending = h.of_pending;
  }

  keep-IsFresh :
      (ps rest : List Pending) (v : Validator R) (p : Pending) (kept_at : ℕ)
      → WasValid c Stored hash rows tenant_of slow p.key p.token p.read_at
      → All (λ q. WasValid c Stored hash rows tenant_of slow q.key q.token q.read_at) rest
      → p.read_at ≤ kept_at
      → kept_at ≤ p.read_at + slow
      → IsFresh c Stored hash rows tenant_of slow kept_at ps v
      → IsFresh c Stored hash rows tenant_of slow kept_at rest
          (keep c hash rows tenant_of kept_at p.key p.token v)
  unfolding keep
  keep-IsFresh ps rest v p kept_at was others before soon h = record {
    of_local =
        remember-All
          (λ e. Since c Stored hash rows tenant_of slow kept_at 30_000 e.key e.token e.exp)
          (record { key = p.key; token = p.token; exp = kept_at + 30_000 }) v.local
          (p.read_at, was, before, omega (arith, soon)) h.of_local;
    of_size = length-remember _ v.local h.of_size;
    of_redis = h.of_redis;
    of_pending = others;
  }

  History-IsFresh :
      {clock : ℕ} {ps : List Pending} {v : Validator R}
      → History c Stored hash rows tenant_of slow clock ps v
      → IsFresh c Stored hash rows tenant_of slow clock ps v
  History-IsFresh (History.start redis nothing) = record {
    of_local = tt;
    of_size = omega arith;
    of_redis = λ k t exp s. absurd (nothing k t exp s);
    of_pending = tt;
  }
  History-IsFresh (History.looks_up {clock} {ps} {v} at token expected le ordered h) =
      let (fresh, good) = look_up-Looks at token expected ps v ordered (
        IsFresh-later c Stored hash rows tenant_of slow clock at.local_at ps v le
          (History-IsFresh h)) in
      waiting-IsFresh at (hash token) expected ps _ _ good fresh
  History-IsFresh (History.publishes {clock} {ps} {v} p ttl_at set_at m le before soon h) =
      let fresh = History-IsFresh h in
      let was =
        All-Memᴰ (λ q. WasValid c Stored hash rows tenant_of slow q.key q.token q.read_at) ps
          fresh.of_pending m in
      publish-IsFresh ps v p ttl_at set_at was before soon
        (IsFresh-later c Stored hash rows tenant_of slow clock set_at ps v le fresh)
  History-IsFresh (History.keeps {clock} {ps} {rest} {v} p kept_at w le before soon h) =
      let fresh = History-IsFresh h in
      let (was, others) =
        Without-All (λ q. WasValid c Stored hash rows tenant_of slow q.key q.token q.read_at) w
          fresh.of_pending in
      keep-IsFresh ps rest v p kept_at was others before soon
        (IsFresh-later c Stored hash rows tenant_of slow clock kept_at ps v le fresh)

  settled-Good :
      (at : Readings) (key : String) (expected : Option String) (ps : List Pending)
      (x : Looked × Validator R)
      → Looks at key expected ps x
      → Good c Stored hash rows tenant_of slow at key expected
          (settled_with c hash rows tenant_of at key x).0
        × (length (settled_with c hash rows tenant_of at key x).1.local ≤ 256)
  unfolding publish keep
  settled-Good at key expected ps (answered o, v) (h, good) = (good, h.of_size)
  settled-Good at key expected ps (fetched t, v) (h, (good, _)) =
      (good, length-remember _ v.local h.of_size)

  -- After any history of lookups and writes of validations that run at the same time, where a token is
  -- written to the caches at most `slow` milliseconds after the table was read, and if Redis keeps
  -- what it documents: a token that a validation returns is one that the table had, not revoked, less
  -- than two minutes and `slow` before the validation began, or while it ran. The token had not
  -- expired when it began, and its resource is the expected one where both are given. The process
  -- never keeps more than 256 tokens.
  pub validate_oauth_access_token-Good :
      {clock : ℕ} {ps : List Pending} {v : Validator R} (at : Readings) (token : String)
      (expected : Option String)
      → History c Stored hash rows tenant_of slow clock ps v
      → clock ≤ at.local_at
      → IsOrdered at
      → Good c Stored hash rows tenant_of slow at
          (hash token)
          expected
          (validate_oauth_access_token c hash rows tenant_of at token expected v).0
        × (length (validate_oauth_access_token c hash rows tenant_of at token expected v).1.local
            ≤ 256)
  unfolding validate_oauth_access_token
  validate_oauth_access_token-Good {clock} {ps} {v} at token expected h le ordered =
      settled-Good at (hash token) expected ps _ (
        look_up-Looks at token expected ps v ordered (
          IsFresh-later c Stored hash rows tenant_of slow clock at.local_at ps v le
            (History-IsFresh h)))
