-- ===== src/OAuth/Tests.antt =====
-- A cache that keeps what it is told to, and the theorems on it.
use mathlib.Core.List.{[], List, Memᴰ}
use mathlib.Core.List.Memᴰ
use tallei_ai.Common.{
  subst, length, ltb→lt, some_eq, arith, inr, Bool-cases, ap, str_eq_iff, inl, first_where-mem, All,
  select_where, ◌≤◌, ◌⊎◌, ◌<◌, ◌↔◌, refl, ◌*◌, str_eq, ltb, true, if◌then◌else◌, none, ◌+◌,
  first_where, ◌≡◌, ◌∷◌, some, Option, ℕ, String,
}
use tallei_ai.OAuth.{
  context_of, OAuthTokenRow, LocalEntry, has_required_scopes, Validator, parse_scopes,
  OAuthTokenContext,
}
use tallei_ai.OAuth.Freshness.{validate_oauth_access_token-Good}
use tallei_ai.OAuth.Histories.{History, Good, IsOrdered, Pending, waiting}
use tallei_ai.OAuth.Redis.{
  Readings, look_up, publish, validate_oauth_access_token, Cache, IsExpiring,
}
use tallei_ai.OAuth.Scopes.{has_required_scopes-Memᴰ}

splits :
    parse_scopes (some "memories:read  memories:write ") ≡ "memories:read" ∷ "memories:write" ∷ []
unfolding parse_scopes select_where
splits = refl

has_required_scopes-Memᴰ_example :
    (has_required_scopes ("a" ∷ "b" ∷ []) ("b" ∷ []) ≡ true)
    ↔ All (λ (s : String). Memᴰ s ("a" ∷ "b" ∷ [])) ("b" ∷ [])
has_required_scopes-Memᴰ_example = has_required_scopes-Memᴰ ("a" ∷ "b" ∷ []) ("b" ∷ [])

abbrev found_in : ℕ → Option LocalEntry → Option OAuthTokenContext
found_in now none = none
found_in now (some e) = if ltb now e.exp then some e.token else none

abbrev keeps_all : Cache (List LocalEntry)
keeps_all = record {
  get_cache_json = λ now k r. (found_in now (first_where (λ e. str_eq e.key k) r), r);
  set_cache_json = λ now k t ttl r. record { key = k; token = t; exp = now + 1_000 * ttl } ∷ r;
}

abbrev IsKept : List LocalEntry → String → OAuthTokenContext → ℕ → Type 0
IsKept r k t exp = Memᴰ (record { key = k; token = t; exp = exp }) r

found_in-IsKept :
    (now : ℕ) (k : String) (r : List LocalEntry) (o : Option LocalEntry) (t : OAuthTokenContext)
    → first_where (λ e. str_eq e.key k) r ≡ o
    → found_in now o ≡ some t
    → (exp : ℕ) × IsKept r k t exp × (now < exp)
found_in-IsKept now k r none t e f = cc
found_in-IsKept now k r (some x) t e f =
    let (m, same) = first_where-mem (λ e. str_eq e.key k) r e in
    let key : x.key ≡ k = (str_eq_iff x.key k).0 same in
    elim (Bool-cases (ltb now x.exp)) [
      | inl alive ↦
          let token : x.token ≡ t = some_eq x.token (rw alive at f) in
          (x.exp, rw (← key, ← token) m, ltb→lt now x.exp alive)
      | inr over ↦ let bad : none ≡ some t = rw over at f in cc
    ]

set-IsKept :
    (now : ℕ) (k k' : String) (t t' : OAuthTokenContext) (ttl : ℕ) (r : List LocalEntry) (exp : ℕ)
    → IsKept (record { key = k; token = t; exp = now + 1_000 * ttl } ∷ r) k' t' exp
    → (k' ≡ k) × (t' ≡ t) × (exp ≡ now + 1_000 * ttl) ⊎ IsKept r k' t' exp
set-IsKept now k k' t t' ttl r exp (Memᴰ.head e) =
    inl (ap (λ x. x.key) e, ap (λ x. x.token) e, ap (λ x. x.exp) e)
set-IsKept now k k' t t' ttl r exp (Memᴰ.tail m) = inr m

keeps_all-IsExpiring : IsExpiring keeps_all IsKept
keeps_all-IsExpiring = record {
  get_stored = λ now k r t e. found_in-IsKept now k r _ t refl e;
  get_keeps = λ now k k' r t exp m. m;
  set_stored = set-IsKept;
}

-- one token, which is good until the time 600000
abbrev the_rows : ℕ → String → Option OAuthTokenRow
the_rows now k = some (record {
  access_token = k;
  client_id = "client";
  tenant_id = some "t";
  user_id = "ann";
  scope = some "memories:read";
  resource = none;
  access_expires_at = 600_000;
  revoked_at = none;
})

abbrev call_at : ℕ → Readings
call_at now = record {
  local_at = now;
  redis_at = now + 1;
  checked_at = now + 2;
  row_at = now + 3;
  expiry_at = now + 4;
  ttl_at = now + 5;
  set_at = now + 6;
  kept_at = now + 7;
}

abbrev nothing : Validator (List LocalEntry)
nothing = record { local = []; redis = [] }

abbrev read : Pending
read = record {
  key = "key";
  token = record {
    access_token = "key";
    client_id = "client";
    user_id = "ann";
    tenant_id = "t";
    scopes = parse_scopes (some "memories:read");
    resource = none;
    expires_at = 600;
  };
  read_at = 1_003;
}

abbrev published : Validator (List LocalEntry)
published =
    publish keeps_all (λ k. k) the_rows (λ u. u) 1_005 1_006 "key" read.token
      (look_up keeps_all (λ k. k) the_rows (λ u. u) (call_at 1_000) "key" none nothing).1

first-reads :
    waiting
      (call_at 1_000)
      "key"
      (look_up keeps_all (λ k. k) the_rows (λ u. u) (call_at 1_000) "key" none nothing).0
      []
    ≡ read ∷ []
unfolding look_up first_where context_of
first-reads = refl

ordered : (now : ℕ) → IsOrdered (call_at now)
ordered now = (omega arith, omega arith, omega arith, omega arith)

-- A call has read the table and written to Redis, when another one begins.
one_published : History keeps_all IsKept (λ k. k) the_rows (λ u. u) 10 1_006 (read ∷ []) published
one_published =
    History.publishes read 1_005 1_006 (Memᴰ.head refl) (omega arith) (omega arith) (omega arith) (
      subst
        (λ ps.
          History keeps_all IsKept (λ k. k) the_rows (λ u. u) 10 1_000 ps
            (look_up keeps_all (λ k. k) the_rows (λ u. u) (call_at 1_000) "key" none nothing).1)
        first-reads
        (History.looks_up (call_at 1_000) "key" none (omega arith) (ordered 1_000)
          (History.start [] (λ k t exp m. absurd (Memᴰ.not-nil m)))))

validate_oauth_access_token-Good_example :
    Good keeps_all IsKept
      (λ k. k)
      the_rows
      (λ u. u)
      10
      (call_at 9_000)
      "key"
      (some "https://api.example")
      (validate_oauth_access_token keeps_all
        (λ k. k)
        the_rows
        (λ u. u)
        (call_at 9_000)
        "key"
        (some "https://api.example")
        published).0
    × (length
          (validate_oauth_access_token keeps_all
            (λ k. k)
            the_rows
            (λ u. u)
            (call_at 9_000)
            "key"
            (some "https://api.example")
            published).1.local
        ≤ 256)
validate_oauth_access_token-Good_example =
    validate_oauth_access_token-Good keeps_all IsKept (λ k. k) the_rows (λ u. u) 10
      keeps_all-IsExpiring (call_at 9_000) "key" (some "https://api.example") one_published
      (omega arith) (ordered 9_000)
