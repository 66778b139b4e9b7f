-- ===== src/OAuth/Histories.antt =====
-- Runs of validations, and what their lookups give.
use tallei_ai.Common.{
  none, some, inl, inr, ◌∷◌, Without, List, ltb→lt, some_eq, ltb, str_eq_iff, first_where-All, refl,
  first_where, inr, str_eq, inl, false, leb, ◌/◌, Bool-cases, length, All-map, arith, ◌<◌, [], All,
  ◌+◌, none, some, ◌≤◌, ◌≡◌, Option, ℕ, String,
}
use tallei_ai.OAuth.Redis.{
  keep, publish, fetched, answered, look_up, Looked, Readings, from_row, Cache,
}
use tallei_ai.OAuth.{
  live, is_revoked, other_resource, context_of, LocalEntry, accepted, Validator, OAuthTokenRow,
  OAuthTokenContext,
}
use mathlib.Core.List.{Memᴰ}

not_revoked : (r : Option ℕ) → is_revoked r ≡ false → r ≡ none
not_revoked none e = refl
not_revoked (some t) e = cc

-- The readings of one call, in their order
abbrev pub IsOrdered : Readings → Type 0
IsOrdered at =
    (at.local_at ≤ at.redis_at)
    × (at.redis_at ≤ at.checked_at)
    × (at.checked_at ≤ at.row_at)
    × (at.row_at ≤ at.expiry_at)

-- A token that a call has read from the table, and not cached yet
pub record Pending : Type 0 where
  pub key : String
  pub token : OAuthTokenContext
  pub read_at : ℕ

abbrev pub waiting : Readings → String → Looked → List Pending → List Pending
waiting at key (answered o) ps = ps
waiting at key (fetched t) ps = record { key = key; token = t; read_at = at.row_at } ∷ ps

module _ {R : Type 0} (c : Cache R) (Stored : R → String → OAuthTokenContext → ℕ → Type 0)
    (hash : String → String) (rows : ℕ → String → Option OAuthTokenRow)
    (tenant_of : String → String) (slow : ℕ) where
  -- At a time, the table had the token, not revoked.
  abbrev pub WasValid : String → OAuthTokenContext → ℕ → Type 0
  WasValid k t at =
      (r : OAuthTokenRow) × (rows at k ≡ some r)
      × (r.revoked_at ≡ none)
      × (t ≡ context_of tenant_of r)

  abbrev pub Since : (now age : ℕ) → String → OAuthTokenContext → (exp : ℕ) → Type 0
  Since now age k t exp = (at : ℕ) × WasValid k t at × (at ≤ now) × (exp ≤ at + slow + age)

  pub record IsFresh (clock : ℕ) (ps : List Pending) (v : Validator R) : Type 0 where
    pub of_local : All (λ e. Since clock 30_000 e.key e.token e.exp) v.local
    pub of_size : length v.local ≤ 256
    pub of_redis :
        (k : String) (t : OAuthTokenContext) (exp : ℕ)
        → Stored v.redis k t exp
        → Since clock 120_000 k t exp
    pub of_pending : All (λ p. WasValid p.key p.token p.read_at) ps

  -- The steps of any number of validations, in any order, as the clock goes on, from empty caches. What
  -- a call has read from the table it writes to Redis, and later keeps in the process, at most `slow`
  -- milliseconds after the table answered.
  pub data History : ℕ → List Pending → Validator R → Type 0 where
    start :
        (redis : R)
        → ((k : String) (t : OAuthTokenContext) (exp : ℕ) → Stored redis k t exp → ⊥)
        → History 0 [] (record { local = []; redis = redis })
    looks_up :
        {clock : ℕ} {ps : List Pending} {v : Validator R} (at : Readings) (token : String)
        (expected : Option String)
        → clock ≤ at.local_at
        → IsOrdered at
        → History clock ps v
        → History at.local_at
            (waiting at (hash token) (look_up c hash rows tenant_of at token expected v).0 ps)
            (look_up c hash rows tenant_of at token expected v).1
    publishes :
        {clock : ℕ} {ps : List Pending} {v : Validator R} (p : Pending) (ttl_at set_at : ℕ)
        → Memᴰ p ps
        → clock ≤ set_at
        → p.read_at ≤ set_at
        → set_at ≤ p.read_at + slow
        → History clock ps v
        → History set_at ps (publish c hash rows tenant_of ttl_at set_at p.key p.token v)
    keeps :
        {clock : ℕ} {ps rest : List Pending} {v : Validator R} (p : Pending) (kept_at : ℕ)
        → Without p ps rest
        → clock ≤ kept_at
        → p.read_at ≤ kept_at
        → kept_at ≤ p.read_at + slow
        → History clock ps v
        → History kept_at rest (keep c hash rows tenant_of kept_at p.key p.token v)

  -- What a validation says of the token that it returns.
  abbrev pub Good : Readings → String → Option String → Option OAuthTokenContext → Type 0
  Good at key expected none = Unit
  Good at key expected (some t) =
      ((time : ℕ) × WasValid key t time
        × (time ≤ at.row_at)
        × (at.local_at < time + slow + 120_000))
      × (at.local_at / 1_000 < t.expires_at)
      × (other_resource expected t.resource ≡ false)

  abbrev pub LooksGood : Readings → String → Option String → Looked → Type 0
  LooksGood at key expected (answered o) = Good at key expected o
  LooksGood at key expected (fetched t) = Good at key expected (some t) × WasValid key t at.row_at

  Since-later :
      (clock now age : ℕ) (k : String) (t : OAuthTokenContext) (exp : ℕ)
      → clock ≤ now
      → Since clock age k t exp
      → Since now age k t exp
  Since-later clock now age k t exp le (at, was, before, until) =
      (at, was, omega (arith, le, before), until)

  pub IsFresh-later :
      (clock now : ℕ) (ps : List Pending) (v : Validator R)
      → clock ≤ now
      → IsFresh clock ps v
      → IsFresh now ps v
  IsFresh-later clock now ps v le h = record {
    of_local =
        All-map (λ e. Since clock 30_000 e.key e.token e.exp)
          (λ e. Since now 30_000 e.key e.token e.exp) v.local
          (λ e s. Since-later clock now 30_000 e.key e.token e.exp le s) h.of_local;
    of_size = h.of_size;
    of_redis = λ k t exp s. Since-later clock now 120_000 k t exp le (h.of_redis k t exp s);
    of_pending = h.of_pending;
  }

  pub accepted-Good :
      (at : Readings) (checked found exp age : ℕ) (key : String) (expected : Option String)
      (t : OAuthTokenContext)
      → Since at.local_at age key t exp
      → age ≤ 120_000
      → at.local_at ≤ found
      → found < exp
      → at.local_at ≤ checked
      → at.local_at ≤ at.row_at
      → Good at key expected (accepted checked expected t)
  unfolding accepted
  accepted-Good at checked found exp age key expected t (time, was, before, until) le s alive k o =
      elim (Bool-cases (other_resource expected t.resource)) [
        | inl other ↦ rw other tt
        | inr same ↦ elim (Bool-cases (leb t.expires_at (checked / 1_000))) [
          | inl over ↦ rw (same, over) tt
          | inr left ↦
              let left' : checked / 1_000 < t.expires_at = ground (arith, left) in
              rw (same, left)
                (
                  (time, was, omega (arith, before, o), omega (arith, until, le, s, alive)),
                  omega (arith, left', k),
                  same,
                )
        ]
      ]

  pub from_row-Good :
      (at : Readings) (key : String) (expected : Option String) (o : Option OAuthTokenRow)
      → rows at.row_at key ≡ o
      → at.local_at ≤ at.row_at
      → at.local_at ≤ at.expiry_at
      → LooksGood at key expected (from_row c hash rows tenant_of at expected o)
  unfolding from_row context_of
  from_row-Good at key expected none e early earlier = tt
  from_row-Good at key expected (some r) e early earlier =
      elim (Bool-cases (is_revoked r.revoked_at)) [
        | inl gone ↦ rw gone tt
        | inr kept ↦ elim (Bool-cases (leb (r.access_expires_at / 1_000) (at.expiry_at / 1_000))) [
          | inl over ↦ rw (kept, over) tt
          | inr left ↦ elim (Bool-cases (other_resource expected r.resource)) [
            | inl other ↦ rw (kept, left, other) tt
            | inr same ↦
                let was : WasValid key (context_of tenant_of r) at.row_at =
                  (r, e, not_revoked r.revoked_at kept, refl) in
                let left' : at.expiry_at / 1_000 < r.access_expires_at / 1_000 =
                  ground (arith, left) in
                rw (kept, left, same)
                  (
                    (
                      (at.row_at, was, omega arith, omega (arith, early)),
                      omega (arith, left', earlier),
                      same,
                    ),
                    was,
                  )
          ]
        ]
      ]

  pub live_found :
      (at : Readings) (key : String) (ps : List Pending) (v : Validator R) (o : Option LocalEntry)
      → first_where (λ e. str_eq e.key key) v.local ≡ o
      → IsFresh at.local_at ps v
      → (t : OAuthTokenContext) → live at.local_at o ≡ some t
      → (exp : ℕ) × Since at.local_at 30_000 key t exp × (at.local_at < exp)
  live_found at key ps v none e h t l = cc
  live_found at key ps v (some entry) e h t l =
      let (since, same) =
        first_where-All (λ x. Since at.local_at 30_000 x.key x.token x.exp) (λ x. str_eq x.key key)
          v.local h.of_local e in
      let k : entry.key ≡ key = (str_eq_iff entry.key key).0 same in
      elim (Bool-cases (ltb at.local_at entry.exp)) [
        | inl alive ↦
            let one : entry.token ≡ t = some_eq entry.token (rw alive at l) in
            (entry.exp, rw (k, one) at since, ltb→lt at.local_at entry.exp alive)
        | inr over ↦ let bad : none ≡ some t = rw over at l in cc
      ]
